-- ===== src/Bf16/Fields.antt =====
-- The fields of a float as quotients and remainders.
use nexus_am_ame.Base.{
  ℕ, ◌+◌, ◌*◌, ◌/◌, ◌%◌, ◌^◌, ◌<◌, ◌≡◌, arith, bit_and, bit_or, bit_and_low, bit_and_high,
  bit_or_high, bit_or_step, bit_or-zero, ◌≤◌, ◌==◌, if◌then◌else◌, ltb, true, false, Bool, ap, ◌∙◌,
}
use nexus_am_ame.Bf16.{is_nan, is_inf, get_sign, bf16_is_nan, bf16_is_inf, bf16_get_sign}
use nexus_am_ame.Bf16.{float_to_bf16_soft_rm, increment_of, exponent_of, mantissa_of}

pub exponent_of_lem : (u : ℕ) → exponent_of u ≡ u / 2 ^ 23 % 2 ^ 8
exponent_of_lem u = bit_and_low 8 (u / 2 ^ 23)

pub mantissa_of_lem : (u : ℕ) → mantissa_of u ≡ u % 2 ^ 23
mantissa_of_lem u = bit_and_low 23 u

-- Setting bit 6.
pub quiet_lem : (bf : ℕ) → bit_or bf 0x40 ≡ bf / 2 ^ 7 * 2 ^ 7 + 2 ^ 6 + bf % 2 ^ 6
quiet_lem bf =
    ground (arith, bit_or_high 6 bf 1, bit_or_step (bf / 2 ^ 6) 1, bit_or-zero (bf / 2 ^ 7))

abs_lem : (u : ℕ) → bit_and u 0x7fff_ffff ≡ u % 2 ^ 31
abs_lem u = bit_and_low 31 u

-- `abs & 0x7f800000`
exponent_bits : (u : ℕ) → bit_and (bit_and u 0x7fff_ffff) 0x7f80_0000 ≡ u / 2 ^ 23 % 2 ^ 8 * 2 ^ 23
exponent_bits u =
    ap (λ t. bit_and t 0x7f80_0000) (abs_lem u)
    ∙ bit_and_high 23 (u % 2 ^ 31) 0xff
    ∙ ground (arith, bit_and_low 8 (u % 2 ^ 31 / 2 ^ 23))

mantissa_bits : (u : ℕ) → bit_and (bit_and u 0x7fff_ffff) 0x7f_ffff ≡ u % 2 ^ 23
mantissa_bits u =
    ap (λ t. bit_and t 0x7f_ffff) (abs_lem u) ∙ bit_and_low 23 (u % 2 ^ 31) ∙ omega arith

-- The conversion of a finite float: the upper half, plus one or not.
pub finite_lem :
    (u rm : ℕ)
    → u < 2 ^ 32
    → u % 2 ^ 31 < 0x7f80_0000
    → float_to_bf16_soft_rm u rm
      ≡ u / 2 ^ 16 + (if increment_of rm (u / 2 ^ 16) (u % 2 ^ 16) (u / 2 ^ 31) then 1 else 0)
unfolding float_to_bf16_soft_rm
finite_lem u rm h fin =
    let no : (bit_and (bit_and u 0x7fff_ffff) 0x7f80_0000 == 0x7f80_0000) ≡ false =
      ground (arith, exponent_bits u) in
    rw (no, bit_and_low 16 u)
      (one_more (u / 2 ^ 16) (increment_of rm (u / 2 ^ 16) (u % 2 ^ 16) (u / 2 ^ 31)) (omega arith)
        (omega arith))
  where
    one_more :
        (hi : ℕ) (b : Bool)
        → hi % 2 ^ 15 < 0x7f80
        → hi < 2 ^ 16
        → (hi + (if b then 1 else 0)) % 2 ^ 16 ≡ hi + (if b then 1 else 0)
    one_more hi b small h = ground arith

-- The conversion of an infinity or of a NaN.
pub special_lem :
    (u rm : ℕ)
    → u < 2 ^ 32
    → 0x7f80_0000 ≤ u % 2 ^ 31
    → float_to_bf16_soft_rm u rm
      ≡ (if u % 2 ^ 23 == 0 then u / 2 ^ 16 else u / 2 ^ 23 * 2 ^ 7 + 2 ^ 6 + u / 2 ^ 16 % 2 ^ 6)
unfolding float_to_bf16_soft_rm
special_lem u rm h fin =
    let yes : (bit_and (bit_and u 0x7fff_ffff) 0x7f80_0000 == 0x7f80_0000) ≡ true =
      ground (arith, exponent_bits u) in
    let low : u / 2 ^ 16 % 2 ^ 16 ≡ u / 2 ^ 16 = omega arith in
    rw (yes, mantissa_bits u, low, quiet_lem (u / 2 ^ 16)) (ground arith)

-- The tests of the classes, by the bits without the sign.
pub is_nan_lem : (u : ℕ) → is_nan u ≡ ltb 0x7f80_0000 (u % 2 ^ 31)
unfolding is_nan
is_nan_lem u = rw (exponent_of_lem u, mantissa_of_lem u) (ground arith)

pub is_inf_lem : (u : ℕ) → is_inf u ≡ (u % 2 ^ 31 == 0x7f80_0000)
unfolding is_inf
is_inf_lem u = rw (exponent_of_lem u, mantissa_of_lem u) (ground arith)

pub get_sign_lem : (u : ℕ) → get_sign u ≡ u / 2 ^ 31 % 2
unfolding get_sign
get_sign_lem u = bit_and_low 1 (u / 2 ^ 31)

pub bf16_is_nan_lem : (bf : ℕ) → bf16_is_nan bf ≡ ltb 0x7f80 (bf % 2 ^ 15)
unfolding bf16_is_nan
bf16_is_nan_lem bf = rw (bit_and_low 8 (bf / 2 ^ 7), bit_and_low 7 bf) (ground arith)

pub bf16_is_inf_lem : (bf : ℕ) → bf16_is_inf bf ≡ (bf % 2 ^ 15 == 0x7f80)
unfolding bf16_is_inf
bf16_is_inf_lem bf = rw (bit_and_low 8 (bf / 2 ^ 7), bit_and_low 7 bf) (ground arith)

pub bf16_get_sign_lem : (bf : ℕ) → bf16_get_sign bf ≡ bf / 2 ^ 15 % 2
unfolding bf16_get_sign
bf16_get_sign_lem bf = bit_and_low 1 (bf / 2 ^ 15)
