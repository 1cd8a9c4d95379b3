-- ===== src/Typing/Game/Press.antt =====
-- update_keypress hits the lowest of the falling letters whose key is pressed.
use nexus_am_ame.Base.{
  ℕ, zero, suc, ◌+◌, ◌-◌, ◌^◌, ◌≤◌, ◌<◌, ◌≡◌, arith, refl, ap, ◌∙◌, Bool, Bool-cases, inl, inr, ◌⊎◌,
  true, false, ◌==◌, ◌&&◌, if◌then◌else◌, some, List, [], ◌∷◌, length,
}
use nexus_am_ame.Words.{int_less}
use nexus_am_ame.Typing.Keyboard.{Keys, query_key, release_key}
use nexus_am_ame.Typing.Game.{Game, put, pool_size, find_target, update_keypress}
use nexus_am_ame.Typing.Game.Moves.{Chain, times, Chain-same, Free-same}
use nexus_am_ame.Typing.Game.Refine.{IsGame, not_null}

-- The letter at `a` falls, its key is pressed, and it is lower than the row `least`.
abbrev pub is_target : Game → Keys → ℕ → ℕ → Bool
is_target g keys least a = int_less 0 (g.v a) && int_less least (g.y a) && query_key keys (g.text a)

-- The search over `xs` from the target `t` leads to `u`.
abbrev Found : Game → Keys → List ℕ → ℕ → ℕ → ℕ → Type 0
Found g keys xs t least u =
    ((u ≡ t) × ((a : ℕ) → 1 ≤ times a xs → is_target g keys least a ≡ false))
    ⊎ ((1 ≤ times u xs)
        × (is_target g keys least u ≡ true)
        × ((a : ℕ) → 1 ≤ times a xs → is_target g keys (g.y u) a ≡ false))

int_less_trans : (a b c : ℕ) → int_less a b ≡ true → int_less b c ≡ true → int_less a c ≡ true
int_less_trans a b c h k = ground (arith, h, k)

int_less_irrefl : (a : ℕ) → int_less a a ≡ false
int_less_irrefl a = ground arith

int_less-asym : (a b : ℕ) → int_less a b ≡ true → int_less b a ≡ false
int_less-asym a b h = ground (arith, h)

head_or_tail : (a x : ℕ) (xs : List ℕ) → 1 ≤ times a (x ∷ xs) → (a ≡ x) ⊎ (1 ≤ times a xs)
head_or_tail a x xs h = elim (Bool-cases (a == x)) [
  | inl here ↦ inl (ground (arith, here))
  | inr other ↦ inr (ground (arith, h, other))
]

lower :
    (g : Game) (keys : Keys) (low high a : ℕ)
    → int_less low high ≡ true
    → is_target g keys high a ≡ true
    → is_target g keys low a ≡ true
lower g keys low high a h k = ground (arith, h, k)

is_lower :
    (g : Game) (keys : Keys) (least a : ℕ)
    → is_target g keys least a ≡ true
    → int_less least (g.y a) ≡ true
is_lower g keys least a h = ground (arith, h)

not_below :
    (g : Game) (keys : Keys) (a low : ℕ)
    → int_less low (g.y a) ≡ false
    → is_target g keys low a ≡ false
not_below g keys a low h = ground (arith, h)

-- One more letter in front, that is not a better target.
pass_by :
    (g : Game) (keys : Keys) (x : ℕ) (xs : List ℕ) (t least u : ℕ)
    → is_target g keys least x ≡ false
    → Found g keys xs t least u
    → Found g keys (x ∷ xs) t least u
pass_by g keys x xs t least u off (inl (e, no_more)) = inl (
  e,
  λ a h. elim (head_or_tail a x xs h) [
    | inl here ↦ ap (is_target g keys least) here ∙ off
    | inr later ↦ no_more a later
  ],
)
pass_by g keys x xs t least u off (inr (there, better, best)) = inr (
  ground (arith, there),
  better,
  λ a h. elim (head_or_tail a x xs h) [
    | inl here ↦ ap (is_target g keys (g.y u)) here ∙ not_lower
    | inr later ↦ best a later
  ],
)
  where
    not_lower : is_target g keys (g.y u) x ≡ false
    not_lower = ground (arith, off, better)

-- A better target in front.
take_it :
    (g : Game) (keys : Keys) (x : ℕ) (xs : List ℕ) (t least u : ℕ)
    → is_target g keys least x ≡ true
    → Found g keys xs x (g.y x) u
    → Found g keys (x ∷ xs) t least u
take_it g keys x xs t least u on (inl (e, no_more)) = inr (
  ground (arith, e),
  ap (is_target g keys least) e ∙ on,
  λ a h. elim (head_or_tail a x xs h) [
    | inl here ↦
        ap (λ b. is_target g keys b a) (ap g.y e)
        ∙ ap (is_target g keys (g.y x)) here
        ∙ not_below g keys x (g.y x) (int_less_irrefl (g.y x))
    | inr later ↦ ap (λ t. is_target g keys (g.y t) a) e ∙ no_more a later
  ],
)
take_it g keys x xs t least u on (inr (there, better, best)) = inr (
  ground (arith, there),
  lower g keys least (g.y x) u (is_lower g keys least x on) better,
  λ a h. elim (head_or_tail a x xs h) [
    | inl here ↦
        ap (is_target g keys (g.y u)) here
        ∙ not_below g keys x (g.y u)
            (int_less-asym (g.y x) (g.y u) (is_lower g keys (g.y x) u better))
    | inr later ↦ best a later
  ],
)

find_target_lem :
    (n : ℕ) (g : Game) (keys : Keys) (p it : ℕ) (xs : List ℕ) (t least : ℕ)
    → length xs < n
    → Chain g p it xs
    → (u : ℕ) × (find_target n it keys g (t, least) ≡ some u) × Found g keys xs t least u
unfolding find_target
find_target_lem zero g keys p it xs t least short c = absurd (omega arith)
find_target_lem (suc n) g keys p it [] t least short c =
    (t, rw c refl, inl (refl, λ a h. absurd (omega (arith, h))))
find_target_lem (suc n) g keys p it (x ∷ xs) t least short (e, nz, before, rest) =
    let some_x : (x == 0) ≡ false = ground (arith, nz) in
    elim (Bool-cases (is_target g keys least x)) [
      | inl on ↦
          let (u, run, found) =
            find_target_lem n g keys x (g.next x) xs x (g.y x) (omega (arith, short)) rest in
          (u, rw (e, some_x, on) run, take_it g keys x xs t least u on found)
      | inr off ↦
          let (u, run, found) =
            find_target_lem n g keys x (g.next x) xs t least (omega (arith, short)) rest in
          (u, rw (e, some_x, off) run, pass_by g keys x xs t least u off found)
    ]

-- The letter at `a`, hit: its speed is -3.
abbrev pub shot : Game → ℕ → Game
shot g a = record g { v = put g.v a (2 ^ 32 - 3) }

shot-IsGame : (g : Game) (xs fs : List ℕ) (a : ℕ) → IsGame g xs fs → IsGame (shot g a) xs fs
shot-IsGame g xs fs a game = record {
  shown = Chain-same g (shot g a) 0 g.head xs (λ b h. (refl, refl)) game.shown;
  unused = Free-same g (shot g a) g.free_head fs (λ b h. refl) game.unused;
  apart = game.apart;
}

-- Where the search leads to.
pressed :
    (g : Game) (keys : Keys) (u : ℕ)
    → find_target (pool_size + 2) g.head keys g (0, 2 ^ 32 - 100) ≡ some u
    → update_keypress (g, keys)
      ≡ some (if u == 0 then (false, g, keys) else (true, shot g u, release_key (g.text u) keys))
unfolding update_keypress
pressed g keys u run = rw run refl

-- From a game whose list and free nodes are in order, with at most one node more on the screen
-- than `pool_size`, update_keypress returns. Either no letter on the screen falls, is below the
-- row -100 and has its key pressed, and then it returns false and changes nothing; or it returns
-- true, and changes a letter of this kind so that no other is lower: its speed is -3 and its key
-- counts as not pressed. The list and the free nodes stay in order.
pub update_keypress_lem :
    (g : Game) (keys : Keys) (xs fs : List ℕ)
    → IsGame g xs fs
    → length xs ≤ pool_size + 1
    → ((update_keypress (g, keys) ≡ some (false, g, keys))
        × ((a : ℕ) → 1 ≤ times a xs → is_target g keys (2 ^ 32 - 100) a ≡ false))
      ⊎ ((u : ℕ) × (1 ≤ times u xs)
          × (is_target g keys (2 ^ 32 - 100) u ≡ true)
          × ((a : ℕ) → 1 ≤ times a xs → is_target g keys (g.y u) a ≡ false)
          × (update_keypress (g, keys) ≡ some (true, shot g u, release_key (g.text u) keys))
          × IsGame (shot g u) xs fs)
update_keypress_lem g keys xs fs game short =
    let (u, run, found) =
      find_target_lem (pool_size + 2) g keys 0 g.head xs 0 (2 ^ 32 - 100) (omega (arith, short))
        game.shown in
    elim found [
      | inl (e, none_there) ↦
          let null : (u == 0) ≡ true = ground (arith, e) in
          inl (rw (pressed g keys u run, null) refl, none_there)
      | inr (there, target, lowest) ↦
          let null_out = not_null g 0 g.head xs game.shown in
          let some_u : (u == 0) ≡ false = elim (Bool-cases (u == 0)) [
            | inl null ↦ absurd (ground (arith, there, null_out, null))
            | inr other ↦ other
          ] in
          inr (
            u,
            there,
            target,
            lowest,
            rw (pressed g keys u run, some_u) refl,
            shot-IsGame g xs fs u game,
          )
    ]
