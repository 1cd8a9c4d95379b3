-- ===== src/Typing/Game/Place.antt =====
-- Where the letters are: each round keeps them on the canvas.
use nexus_am_ame.Base.{
  ℕ, ◌+◌, ◌-◌, ◌*◌, ◌%◌, ◌^◌, ◌≤◌, ◌<◌, ◌≡◌, arith, refl, ap, ◌∙◌, Bool, Bool-cases, inl, inr, true,
  false, leb, ltb, ◌==◌, ◌&&◌, ◌||◌, List, [], ◌∷◌,
}
use nexus_am_ame.Typing.Game.{Game}
use nexus_am_ame.Typing.Game.Moves.{times}
use nexus_am_ame.Typing.Game.Letters.{Letter, letters, moved, leaves, advance}
use nexus_am_ame.Typing.Game.Create.{new_letter}
use nexus_am_ame.Typing.Game.Press.{shot}

-- The speed of a letter that falls, or that is hit.
abbrev pub is_speed : ℕ → Bool
is_speed v = (v == 1) || (v == 2 ^ 32 - 3)

-- The letters of the list, all on the canvas, with one of the two speeds and the number of a letter.
abbrev pub OnCanvas : Game → List ℕ → Type 0
OnCanvas g xs =
    (a : ℕ)
    → 1 ≤ times a xs
    → (g.x a + 8 ≤ 320) × (g.y a + 8 ≤ 200) × (is_speed (g.v a) ≡ true) × (g.text a < 26)

abbrev letter_fits : Letter → Bool
letter_fits l = leb (l.x + 8) 320 && leb (l.y + 8) 200 && is_speed l.v && ltb l.text 26

abbrev all_fit : List Letter → Bool
all_fit [] = true
all_fit (l ∷ ls) = letter_fits l && all_fit ls

OnCanvas-all_fit : (g : Game) (xs : List ℕ) → OnCanvas g xs → all_fit (letters g xs) ≡ true
unfolding letters
OnCanvas-all_fit g [] on = refl
OnCanvas-all_fit g (x ∷ xs) on =
    let (wide, high, speed, letter) = on x (ground arith) in
    let rest = OnCanvas-all_fit g xs (λ a h. on a (ground (arith, h))) in
    ground (arith, wide, high, speed, letter, rest)

all_fit-OnCanvas : (g : Game) (xs : List ℕ) → all_fit (letters g xs) ≡ true → OnCanvas g xs
unfolding letters
all_fit-OnCanvas g [] fit a h = absurd (omega (arith, h))
all_fit-OnCanvas g (x ∷ xs) fit a h = elim (Bool-cases (a == x)) [
  | inl here ↦
      let e : a ≡ x = ground (arith, here) in
      rw e (ground (arith, fit), ground (arith, fit), ground (arith, fit), ground (arith, fit))
  | inr other ↦ all_fit-OnCanvas g xs (ground (arith, fit)) a (ground (arith, h, other))
]

-- A letter that has not left is on the canvas.
stays_fit :
    (l : Letter) → letter_fits l ≡ true → leaves (moved l) ≡ false → letter_fits (moved l) ≡ true
stays_fit l fit stays = ground (arith, fit, stays)

advance-all_fit : (ls : List Letter) → all_fit ls ≡ true → all_fit (advance ls) ≡ true
unfolding advance
advance-all_fit [] fit = refl
advance-all_fit (l ∷ ls) fit =
    let rest = advance-all_fit ls (ground (arith, fit)) in
    elim (Bool-cases (leaves (moved l))) [
      | inl off ↦ rw off rest
      | inr on ↦ let here = stays_fit l (ground (arith, fit)) on in rw (on, here) rest
    ]

pub moves-OnCanvas :
    (g g' : Game) (xs xs' : List ℕ)
    → letters g' xs' ≡ advance (letters g xs)
    → OnCanvas g xs
    → OnCanvas g' xs'
moves-OnCanvas g g' xs xs' shown on =
    all_fit-OnCanvas g' xs'
      (ap all_fit shown ∙ advance-all_fit (letters g xs) (OnCanvas-all_fit g xs on))

pub created-OnCanvas :
    (g g' : Game) (f r t : ℕ) (xs : List ℕ)
    → letters g' (f ∷ xs) ≡ new_letter r t ∷ letters g xs
    → OnCanvas g xs
    → OnCanvas g' (f ∷ xs)
created-OnCanvas g g' f r t xs shown on =
    let rest = OnCanvas-all_fit g xs on in
    let left : leb (r % 38 * 8 + 8 + 8) 320 ≡ true = ground arith in
    let letter : ltb (t % 26) 26 ≡ true = ground arith in
    all_fit-OnCanvas g' (f ∷ xs) (ap all_fit shown ∙ (rw (left, letter) rest))

pub shot-OnCanvas : (g : Game) (u : ℕ) (xs : List ℕ) → OnCanvas g xs → OnCanvas (shot g u) xs
shot-OnCanvas g u xs on a h =
    let (wide, high, speed, letter) = on a h in
    (
      wide,
      high,
      elim (Bool-cases (a == u)) [ inl here ↦ rw here refl | inr other ↦ rw other speed ],
      letter,
    )
