-- ===== src/Typing/Game/Moves.antt =====
-- Lists of nodes in the pool, and what the body of the loop does to them.
use nexus_am_ame.Base.{
  ℕ, ◌+◌, ◌≤◌, ◌≡◌, ◌≢◌, arith, refl, ◌∙◌, false, Bool-cases, inl, inr, ◌==◌, if◌then◌else◌, List,
  [], ◌∷◌,
}
use nexus_am_ame.Typing.Game.{Game, fly_remove, fly_free}

-- The nodes of a list from `it`, with `p` before the first.
abbrev pub Chain : Game → ℕ → ℕ → List ℕ → Type 0
Chain g p it [] = it ≡ 0
Chain g p it (x ∷ xs) = (it ≡ x) × (x ≢ 0) × (g.prev x ≡ p) × Chain g x (g.next x) xs

-- The nodes that are free.
abbrev pub Free : Game → ℕ → List ℕ → Type 0
Free g it [] = it ≡ 0
Free g it (x ∷ xs) = (it ≡ x) × (x ≢ 0) × Free g (g.next x) xs

-- How often a node is in a list.
abbrev pub times : ℕ → List ℕ → ℕ
times a [] = 0
times a (x ∷ xs) = (if a == x then 1 else 0) + times a xs

-- No node is twice in the list, twice free, or both.
abbrev pub AreApart : List ℕ → List ℕ → Type 0
AreApart xs fs = (a : ℕ) → times a xs + times a fs ≤ 1

-- The links of the nodes of a list are the same.
abbrev SameLinks : Game → Game → List ℕ → Type 0
SameLinks g g' xs = (a : ℕ) → 1 ≤ times a xs → (g'.prev a ≡ g.prev a) × (g'.next a ≡ g.next a)

self_times : (x : ℕ) (xs : List ℕ) → 1 ≤ times x (x ∷ xs)
self_times x xs = ground arith

more_times : (a x : ℕ) (xs : List ℕ) → 1 ≤ times a xs → 1 ≤ times a (x ∷ xs)
more_times a x xs h = ground arith

pub Chain-same :
    (g g' : Game) (p it : ℕ) (xs : List ℕ) → SameLinks g g' xs → Chain g p it xs → Chain g' p it xs
Chain-same g g' p it [] same c = c
Chain-same g g' p it (x ∷ xs) same (e, nz, before, rest) =
    let (prevs, nexts) = same x (self_times x xs) in
    (
      e,
      nz,
      prevs ∙ before,
      rw nexts (Chain-same g g' x (g.next x) xs (λ a h. same a (more_times a x xs h)) rest),
    )

pub Free-same :
    (g g' : Game) (it : ℕ) (fs : List ℕ)
    → ((a : ℕ) → 1 ≤ times a fs → g'.next a ≡ g.next a)
    → Free g it fs
    → Free g' it fs
Free-same g g' it [] same c = c
Free-same g g' it (x ∷ xs) same (e, nz, rest) = (
  e,
  nz,
  rw (same x (self_times x xs))
      (Free-same g g' (g.next x) xs (λ a h. same a (more_times a x xs h)) rest),
)

-- The state after the first node `x` is taken off the list and freed.
abbrev pub unlinked : ℕ → Game → Game
unlinked x g = fly_free x (fly_remove x g)

pub unlinked-next : (g : Game) (x a : ℕ) → a ≢ x → a ≢ g.prev x → (unlinked x g).next a ≡ g.next a
unlinked-next g x a nx np = elim (Bool-cases (g.prev x == 0)) [
  | inl first ↦ rw first (ground (arith, nx))
  | inr later ↦ rw later (ground (arith, nx, np))
]

pub unlinked-prev : (g : Game) (x a : ℕ) → a ≢ g.next x → (unlinked x g).prev a ≡ g.prev a
unlinked-prev g x a nn = elim (Bool-cases (g.next x == 0)) [
  | inl last ↦ rw last refl
  | inr more ↦ rw more (ground (arith, nn))
]

-- Only the node behind the one that goes gets a new node before it.
pub Chain-prev :
    (g : Game) (x a : ℕ) (xs : List ℕ)
    → Chain g x (g.next x) xs
    → times a xs ≡ 0
    → (unlinked x g).prev a ≡ g.prev a
Chain-prev g x a [] last out = rw last refl
Chain-prev g x a (z ∷ zs) (e, nz, before, more) out =
    unlinked-prev g x a (λ same. ground (arith, out, same, e))

-- Without its first node, the list goes on with the next one, behind the same node as before.
pub Chain-unlinked :
    (g : Game) (x : ℕ) (xs fs : List ℕ)
    → AreApart (x ∷ xs) fs
    → times (g.prev x) xs ≡ 0
    → Chain g x (g.next x) xs
    → Chain (unlinked x g) (g.prev x) (g.next x) xs
Chain-unlinked g x [] fs apart out c = c
Chain-unlinked g x (z ∷ zs) fs apart out (e, nz, before, rest) =
    let zx : z ≢ x = λ same. ground (arith, apart x, same) in
    let zp : z ≢ g.prev x = λ same. ground (arith, out, same) in
    let some_z : (z == 0) ≡ false = ground (arith, nz) in
    (
      e,
      nz,
      rw (e, some_z) (ground arith),
      rw (unlinked-next g x z zx zp) (
          Chain-same g (unlinked x g) z (g.next z) zs
            (λ a h. (
              unlinked-prev g x a (λ same. ground (arith, apart a, same, e, h)),
              unlinked-next g x a (λ same. ground (arith, apart a, same, h))
                  (λ same. ground (arith, out, same, h)),
            ))
            rest),
    )

-- Freeing `x` puts it before the nodes that are free.
pub Free-unlinked :
    (g : Game) (x : ℕ) (fs : List ℕ)
    → x ≢ 0
    → times x fs ≡ 0
    → times (g.prev x) fs ≡ 0
    → Free g g.free_head fs
    → Free (unlinked x g) (unlinked x g).free_head (x ∷ fs)
Free-unlinked g x fs nz out prev_out free = (
  refl,
  nz,
  rw (own_next g x) (
      Free-same g (unlinked x g) g.free_head fs
        (λ a h.
          unlinked-next g x a (λ same. ground (arith, out, same, h))
            (λ same. ground (arith, prev_out, same, h)))
        free),
)
  where
    own_next : (g : Game) (x : ℕ) → (unlinked x g).next x ≡ g.free_head
    own_next g x = ground arith
