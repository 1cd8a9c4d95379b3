-- ===== src/Typing/Draw/Numbers.antt =====
-- apps/typing/draw.c: itoa ends within its array, and with few characters.
use nexus_am_ame.Base.{
  ℕ, zero, suc, ◌+◌, ◌*◌, ◌^◌, ◌≤◌, ◌<◌, ◌≡◌, arith, refl, Bool, Bool-cases, inl, inr, true, false,
  leb, ltb, ◌&&◌, Option, some, List, [], ◌∷◌, length,
}
use nexus_am_ame.Words.{int_less}
use nexus_am_ame.Typing.Draw.{digit, tenth, itoa_digits, itoa}

abbrev pub all_ascii : List ℕ → Bool
all_ascii [] = true
all_ascii (ch ∷ str) = ltb ch 128 && all_ascii str

-- A number that prints as at most `most` more characters.
abbrev pub Prints : Option (List ℕ) → ℕ → Type 0
Prints result most =
    (str : List ℕ) × (result ≡ some str) × (length str ≤ most) × (all_ascii str ≡ true)

abbrev power_of_10 : ℕ → ℕ
power_of_10 zero = 1
power_of_10 (suc k) = 10 * power_of_10 k

one_digit :
    (left n : ℕ) (s : List ℕ)
    → int_less 0 (tenth n) ≡ false
    → itoa_digits (suc left) n s ≡ some (digit n ∷ s)
unfolding itoa_digits
one_digit left n s last = rw last refl

itoa_digits_lem :
    (k left n : ℕ) (s : List ℕ)
    → n < power_of_10 (suc k)
    → n < 2 ^ 31
    → k < left
    → all_ascii s ≡ true
    → Prints (itoa_digits left n s) (suc k + length s)
unfolding itoa_digits
itoa_digits_lem k zero n s few small room ascii = absurd (omega (arith, room))
itoa_digits_lem zero (suc left) n s few small room ascii =
    let last : int_less 0 (tenth n) ≡ false = ground (arith, few) in
    (digit n ∷ s, one_digit left n s last, omega arith, ground (arith, small, ascii))
itoa_digits_lem (suc k) (suc left) n s few small room ascii =
    let ascii' : all_ascii (digit n ∷ s) ≡ true = ground (arith, small, ascii) in
    elim (Bool-cases (int_less 0 (tenth n))) [
      | inl more ↦
          let (str, run, short, fine) =
            itoa_digits_lem k left (tenth n) (digit n ∷ s) (ground (arith, few, small))
              (ground (arith, small)) (omega (arith, room)) ascii' in
          (str, rw more run, omega (arith, short), fine)
      | inr last ↦ (digit n ∷ s, one_digit left n s last, omega arith, ascii')
    ]

pub itoa_lem : (n : ℕ) → n < 2 ^ 32 → Prints (itoa n) 10
itoa_lem n word = elim (Bool-cases (leb (2 ^ 31) n)) [
  | inl negative ↦
      let last : int_less 0 (tenth n) ≡ false = ground (arith, negative, word) in
      (digit n ∷ [], one_digit 62 n [] last, omega arith, ground (arith, negative, word))
  | inr positive ↦
      let small : n < 2 ^ 31 = ground (arith, positive) in
      itoa_digits_lem 9 63 n [] (omega (arith, small)) small (omega arith) refl
]
