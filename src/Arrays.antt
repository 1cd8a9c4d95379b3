-- ===== src/Arrays.antt =====
-- Arrays as functions of the index, the order of their entries, and rearrangements of a segment.
pub mod Halves
use nexus_am_ame.Base.{
  ℕ, ◌≤◌, ◌<◌, ◌≡◌, refl, ◌⊎◌, ◌∙◌, fun_ext, arith, Bool, true, false, ◌==◌, if◌then◌else◌,
  Bool-cases, inl, inr,
}

-- `x > y`, with the laws that sorting needs.
pub record Order {ℓ} (A : Type ℓ) : Type ℓ where
  pub gt : A → A → Bool
  pub asym : (x y : A) → gt x y ≡ true → gt y x ≡ false
  pub trans : (x y z : A) → gt x y ≡ false → gt y z ≡ false → gt x z ≡ false

module _ {ℓ} {A : Type ℓ} where
  abbrev pub put : (ℕ → A) → ℕ → A → ℕ → A
  put a i v k = if k == i then v else a k

  abbrev pub swap : (ℕ → A) → ℕ → ℕ → ℕ → A
  swap a i j k = if k == i then a j else (if k == j then a i else a k)

  -- `b` is `a` after some exchanges of entries from `lo` to `hi`.
  pub data Rearranges (lo hi : ℕ) (a : ℕ → A) : (ℕ → A) → Type ℓ where
    unmoved : Rearranges lo hi a a
    swapped :
        {b : ℕ → A} (i j : ℕ)
        → Rearranges lo hi a b
        → lo ≤ i
        → i ≤ hi
        → lo ≤ j
        → j ≤ hi
        → Rearranges lo hi a (swap b i j)

  pub Rearranges-trans :
      {lo hi : ℕ} {a b c : ℕ → A}
      → Rearranges lo hi a b
      → Rearranges lo hi b c
      → Rearranges lo hi a c
  Rearranges-trans p unmoved = p
  Rearranges-trans p (swapped i j q li ih lj jh) = swapped i j (Rearranges-trans p q) li ih lj jh

  pub Rearranges-widen :
      {lo hi lo' hi' : ℕ} {a b : ℕ → A}
      → lo' ≤ lo
      → hi ≤ hi'
      → Rearranges lo hi a b
      → Rearranges lo' hi' a b
  Rearranges-widen l h unmoved = unmoved
  Rearranges-widen l h (swapped i j q li ih lj jh) =
      swapped i j (Rearranges-widen l h q) (omega arith) (omega arith) (omega arith) (omega arith)

  -- Entries outside the segment stay.
  pub Rearranges-outside :
      {lo hi : ℕ} {a b : ℕ → A} → Rearranges lo hi a b → (k : ℕ) → (k < lo) ⊎ (hi < k) → b k ≡ a k
  Rearranges-outside unmoved k o = refl
  Rearranges-outside (swapped i j q li ih lj jh) k o =
      let before = Rearranges-outside q k o in ground arith

  -- Each entry of the segment was one of the segment.
  pub Rearranges-inside :
      {lo hi : ℕ} {a b : ℕ → A}
      → Rearranges lo hi a b
      → (k : ℕ) → lo ≤ k
      → k ≤ hi
      → (k' : ℕ) × (lo ≤ k') × (k' ≤ hi) × (b k ≡ a k')
  Rearranges-inside unmoved k lk kh = (k, lk, kh, refl)
  Rearranges-inside (swapped {b = b} i j q li ih lj jh) k lk kh =
      let (k', l, h, e) =
        Rearranges-inside q (if k == i then j else (if k == j then i else k)) (ground arith)
          (ground arith) in
      (k', l, h, moved ∙ e)
    where
      moved : swap b i j k ≡ b (if k == i then j else (if k == j then i else k))
      moved = ground arith

  -- A gap at `i` that is filled from `j` moves to `j`.
  pub swap-put : (a : ℕ → A) (i j : ℕ) (v : A) → swap (put a i v) i j ≡ put (put a i (a j)) j v
  swap-put a i j v = fun_ext λ k. ground arith

module _ {ℓ} {A : Type ℓ} ⦃o : Order A⦄ where
  open o use {gt, asym}

  -- No entry from `p` to `q` is greater than a later one.
  abbrev pub Sorted : ℕ → ℕ → (ℕ → A) → Type 0
  Sorted p q a = (i j : ℕ) → p ≤ i → i < j → j ≤ q → gt (a i) (a j) ≡ false

  pub irrefl : (x : A) → gt x x ≡ false
  irrefl x = elim (Bool-cases (gt x x)) [ inl e ↦ asym x x e | inr e ↦ e ]
