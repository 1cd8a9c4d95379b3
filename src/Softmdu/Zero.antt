-- ===== src/Softmdu/Zero.antt =====
-- What softdiv does with a divisor that is 0.
use nexus_am_ame.Base.{
  ℕ, zero, suc, ◌+◌, ◌-◌, ◌*◌, ◌%◌, ◌^◌, ◌≤◌, ◌<◌, ◌≡◌, arith, ap, ◌∙◌, Bool, true, false,
  if◌then◌else◌, ◌&&◌, leb,
}
use nexus_am_ame.Softmdu.{is_negative, hi, lo, div_round, div_rounds, div_last, softdiv}
use nexus_am_ame.Softmdu.Division.{
  div_last-halves, apply_signs-halves, double_pow, doubled-ge, size,
}

always : (x : ℕ) → leb 0 x ≡ true
always x = ground arith

-- Every round puts a 1 below.
div_rounds-ones :
    (n val : ℕ) → (val + 1) * 2 ^ n ≤ 2 ^ 64 → div_rounds n 0 val + 1 ≡ (val + 1) * 2 ^ n
unfolding div_rounds
div_rounds-ones zero val room = omega arith
div_rounds-ones (suc n) val room =
    let split = double_pow (val + 1) n in
    let step : div_round 0 val ≡ 2 * val + 1 =
      rw (always (hi val)) (omega (arith, doubled-ge (val + 1) n)) in
    let sum : (2 * val + 1 + 1) * 2 ^ n ≡ (val + 1) * 2 ^ suc n =
      ap (λ t. t * 2 ^ n) (twice val) ∙ split in
    rw step (div_rounds-ones n (2 * val + 1) (omega (arith, sum)) ∙ sum)
  where
    twice : (v : ℕ) → 2 * v + 1 + 1 ≡ 2 * (v + 1)
    twice v = omega arith

ones_halves :
    (a : ℕ)
    → a < 2 ^ 32
    → let r = div_last 0 (div_rounds 31 0 (a * 2 % 2 ^ 64)) in (lo r ≡ 2 ^ 32 - 1) × (hi r ≡ a)
ones_halves a h =
    let start : a * 2 % 2 ^ 64 ≡ 2 * a = omega arith in
    let rounds : div_rounds 31 0 (2 * a) ≡ a * 2 ^ 32 + (2 ^ 31 - 1) =
      omega (arith, div_rounds-ones 31 (2 * a) (omega arith)) in
    rw (start, rounds, div_last-halves 0 a (2 ^ 31 - 1) h (omega arith), always a)
      (omega arith, omega arith)

-- With the divisor 0, softdiv returns a quotient of ones and the dividend as the remainder, but
-- for a negative dividend, with `sign`, the quotient is 1.
pub softdiv_by_zero :
    (a : ℕ) (sign : Bool)
    → a < 2 ^ 32
    → (softdiv a 0 sign false ≡ (if sign && is_negative a then 1 else 2 ^ 32 - 1))
      × (softdiv a 0 sign true ≡ a)
unfolding softdiv
softdiv_by_zero a false h =
    let (ones, rest) = ones_halves a h in
    let (low, high) =
      apply_signs-halves false false (div_last 0 (div_rounds 31 0 (a * 2 % 2 ^ 64))) in
    (low ∙ ones, high ∙ rest)
softdiv_by_zero a true h =
    let (ones, rest) = ones_halves (size true a) (ground arith) in
    let (low, high) =
      apply_signs-halves (is_negative a) false
        (div_last 0 (div_rounds 31 0 (size true a * 2 % 2 ^ 64))) in
    (low ∙ rw ones (ground arith), high ∙ rw rest (ground arith))
