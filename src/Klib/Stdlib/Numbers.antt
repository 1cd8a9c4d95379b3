-- ===== src/Klib/Stdlib/Numbers.antt =====
-- abs and atoi.
use nexus_am_ame.Base.{
  ℕ, zero, suc, ◌+◌, ◌-◌, ◌*◌, ◌%◌, ◌^◌, ◌≤◌, ◌<◌, ◌≡◌, ◌≢◌, arith, refl, sym, ap, subst, ◌∙◌,
}
use native.Mathlib.Nat.{pow-suc, one-le-pow, le-mul_of_pos_right}
use nexus_am_ame.Base.{some, ◌⊎◌}
use nexus_am_ame.Klib.Memory.{Memory}
use nexus_am_ame.Klib.Stdlib.{abs, skip_spaces, read_digits, atoi}

abbrev pub IsDigit : ℕ → Type 0
IsDigit c = (b'0' ≤ c) × (c ≤ b'9')

-- Exactly `k` digits stand from `s` on.
abbrev pub IsNumeral : Memory → ℕ → ℕ → Type 0
IsNumeral m s zero = (m s < b'0') ⊎ (b'9' < m s)
IsNumeral m s (suc k) = IsDigit (m s) × IsNumeral m (s + 1) k

-- Their value, each digit at its power of ten.
abbrev pub decimal : Memory → ℕ → ℕ → ℕ
decimal m s zero = 0
decimal m s (suc k) = (m s - b'0') * 10 ^ k + decimal m (s + 1) k

-- `j` spaces stand from `s` on.
abbrev pub HasSpaces : Memory → ℕ → ℕ → Type 0
HasSpaces m s zero = Unit {0}
HasSpaces m s (suc j) = (m s ≡ b' ') × HasSpaces m (s + 1) j

-- The absolute value of an int, but for the smallest, whose negation overflows.
pub abs_lem :
    (x : ℕ) → x < 2 ^ 32 → x ≢ 2 ^ 31 → (abs x < 2 ^ 31) × ((abs x ≡ x) ⊎ (abs x + x ≡ 2 ^ 32))
unfolding abs
abs_lem x h ne = ground arith

skip_spaces_all :
    (j fuel s : ℕ) (m : Memory)
    → HasSpaces m s j
    → m (s + j) ≢ b' '
    → j < fuel
    → skip_spaces fuel s m ≡ some (s + j)
unfolding skip_spaces
skip_spaces_all j zero s m h ne lt = absurd (omega arith)
skip_spaces_all zero (suc fuel) s m h ne lt = ground (arith, at_start)
  where
    at_start : m (s + 0) ≡ m s
    at_start = ap m (omega arith)
skip_spaces_all (suc j) (suc fuel) s m (h, rest) ne lt =
    ground (arith, here, skip_spaces_all j fuel (s + 1) m rest next (omega arith))
  where
    here : s + suc j ≡ s + 1 + j
    here = omega arith

    next : m (s + 1 + j) ≢ b' '
    next = subst (λ t. m t ≢ b' ') here ne

read_digits_more :
    (fuel x s y : ℕ) (m : Memory)
    → IsDigit (m s)
    → x * 10 + (m s - b'0') ≡ y
    → y < 2 ^ 31
    → read_digits (suc fuel) x s m ≡ read_digits fuel y (s + 1) m
unfolding read_digits
read_digits_more fuel x s y m h e small = ground (arith, wraps)
  where
    wraps : (x * 10 + m s + 2 ^ 32 - 48) % 2 ^ 32 ≡ y
    wraps = omega arith

module _ (k x c d : ℕ) (fits : x * 10 ^ suc k + (c * 10 ^ k + d) < 2 ^ 31) where
  horner : (x * 10 + c) * 10 ^ k + d ≡ x * 10 ^ suc k + (c * 10 ^ k + d)
  horner = omega (arith, ap (λ (t : ℕ). x * t) (pow-suc 10 k))

  horner-lt : x * 10 + c < 2 ^ 31
  horner-lt =
      let bound : x * 10 + c ≤ (x * 10 + c) * 10 ^ k =
        le-mul_of_pos_right (x * 10 + c) (one-le-pow k 10 (omega arith)) in
      omega (arith, horner)

read_digits-decimal :
    (k fuel x s : ℕ) (m : Memory)
    → IsNumeral m s k
    → x * 10 ^ k + decimal m s k < 2 ^ 31
    → k < fuel
    → read_digits fuel x s m ≡ some (x * 10 ^ k + decimal m s k)
read_digits-decimal k zero x s m h fits lt = absurd (omega arith)
read_digits-decimal zero (suc fuel) x s m h fits lt = unfold read_digits in ground arith
read_digits-decimal (suc k) (suc fuel) x s m (h, rest) fits lt =
    let c : ℕ = m s - b'0' in
    let d : ℕ = decimal m (s + 1) k in
    read_digits_more fuel x s (x * 10 + c) m h refl (horner-lt k x c d fits)
    ∙ read_digits-decimal k fuel (x * 10 + c) (s + 1) m rest
        (subst (λ t. t < 2 ^ 31) (sym (horner k x c d fits)) fits) (omega arith)
    ∙ ap some (horner k x c d fits)

-- atoi skips the spaces and returns the number that the digits behind them denote, up to the
-- first character that is none, if the number fits an int. A sign is not read.
pub atoi-decimal :
    (j k fuel s : ℕ) (m : Memory)
    → HasSpaces m s j
    → m (s + j) ≢ b' '
    → IsNumeral m (s + j) k
    → decimal m (s + j) k < 2 ^ 31
    → j < fuel
    → k < fuel
    → atoi fuel s m ≡ some (decimal m (s + j) k)
unfolding atoi
atoi-decimal j k fuel s m spaces ne digits fits lj lk =
    let e : 0 * 10 ^ k + decimal m (s + j) k ≡ decimal m (s + j) k = omega arith in
    rw (skip_spaces_all j fuel s m spaces ne lj)
      (read_digits-decimal k fuel 0 (s + j) m digits (omega arith) lk ∙ ap some e)
