-- ===== src/Bf16/Ame/Agreement.antt =====
-- What the older conversions of tests/ame-bf16 return, next to those of tests/bf16.
use nexus_am_ame.Base.{
  ℕ, ◌+◌, ◌*◌, ◌/◌, ◌%◌, ◌^◌, ◌<◌, ◌≡◌, arith, bit_and, bit_or, bit_and_low, bit_and-zero,
  bit_or_disjoint, ◌==◌, if◌then◌else◌, ltb, ◌&&◌, true, ap, ◌∙◌,
}
use nexus_am_ame.Bf16.{bf16_to_float_soft, float_to_bf16_soft, is_nan, bf16_is_inf, sign_of}
use nexus_am_ame.Bf16.Ame
use nexus_am_ame.Bf16.Ame.{pack, round_mantissa}
use nexus_am_ame.Bf16.Fields.{
  exponent_of_lem, mantissa_of_lem, finite_lem, is_nan_lem, bf16_is_inf_lem,
}

pack_lem :
    (sign exponent mantissa : ℕ)
    → exponent < 2 ^ 8
    → mantissa < 2 ^ 7
    → pack sign exponent mantissa ≡ sign * 2 ^ 15 + exponent * 2 ^ 7 + mantissa
pack_lem sign exponent mantissa he hm =
    ap (λ t. bit_or t mantissa) (bit_or_disjoint 15 sign (exponent * 2 ^ 7) (omega arith) ∙ regroup)
    ∙ bit_or_disjoint 7 (sign * 2 ^ 8 + exponent) mantissa hm
    ∙ omega arith
  where
    regroup : sign * 2 ^ 15 + exponent * 2 ^ 7 ≡ (sign * 2 ^ 8 + exponent) * 2 ^ 7
    regroup = omega arith

bit_and_one : (b : ℕ) → b < 2 → (bit_and b 0 ≡ 0) × (bit_and b 1 ≡ b)
bit_and_one b h = (bit_and-zero b, bit_and_low 1 b ∙ omega arith)

round_mantissa_lem :
    (mantissa : ℕ)
    → round_mantissa mantissa
      ≡ mantissa / 2 ^ 16 + (if ltb 0x8000 (mantissa % 2 ^ 16) then 1 else 0)
round_mantissa_lem mantissa = ground (
  arith,
  bit_and_low 1 (mantissa / 2 ^ 15),
  bit_and_low 15 mantissa,
  bit_and_one (mantissa / 2 ^ 15 % 2),
)

-- The older conversion to bfloat16: an infinity or a NaN is cut to its upper half, a denormal
-- becomes a zero of its sign, and any other float is rounded to nearest, TIES TOWARDS 0.
pub float_to_bf16_soft_lem :
    (u : ℕ)
    → u < 2 ^ 32
    → Ame.float_to_bf16_soft u ≡ (
        if u / 2 ^ 23 % 2 ^ 8 == 0xff
        then u / 2 ^ 16
        else (if u / 2 ^ 23 % 2 ^ 8 == 0
            then u / 2 ^ 31 * 2 ^ 15
            else u / 2 ^ 16 + (if ltb 0x8000 (u % 2 ^ 16) then 1 else 0)))
unfolding Ame.float_to_bf16_soft
float_to_bf16_soft_lem u bits =
    rw (sign_lem, exponent_of_lem u, mantissa_of_lem u, round_mantissa_lem (u % 2 ^ 23))
      (ground (
        arith,
        pack_lem (u / 2 ^ 31) 255 (u % 2 ^ 23 / 2 ^ 16),
        pack_lem (u / 2 ^ 31) (u / 2 ^ 23 % 2 ^ 8 + 1) 0,
        pack_lem (u / 2 ^ 31) (u / 2 ^ 23 % 2 ^ 8) (u % 2 ^ 23 / 2 ^ 16 + 1),
        pack_lem (u / 2 ^ 31) (u / 2 ^ 23 % 2 ^ 8) (u % 2 ^ 23 / 2 ^ 16 + 0),
      ))
  where
    sign_lem : sign_of u ≡ u / 2 ^ 31
    sign_lem = bit_and_low 1 (u / 2 ^ 31) ∙ omega arith

wide_pack :
    (sign exponent mantissa : ℕ)
    → exponent < 2 ^ 8
    → mantissa < 2 ^ 7
    → bit_or (bit_or (sign * 2 ^ 31) (exponent * 2 ^ 23)) (mantissa * 2 ^ 16)
      ≡ sign * 2 ^ 31 + exponent * 2 ^ 23 + mantissa * 2 ^ 16
wide_pack sign exponent mantissa he hm =
    ap (λ t. bit_or t (mantissa * 2 ^ 16))
      (bit_or_disjoint 31 sign (exponent * 2 ^ 23) (omega arith) ∙ regroup)
    ∙ bit_or_disjoint 23 (sign * 2 ^ 8 + exponent) (mantissa * 2 ^ 16) (omega arith)
    ∙ omega arith
  where
    regroup : sign * 2 ^ 31 + exponent * 2 ^ 23 ≡ (sign * 2 ^ 8 + exponent) * 2 ^ 23
    regroup = omega arith

-- The conversions from bfloat16 to float of tests/ame-bf16 and of tests/bf16 are the same.
pub bf16_to_float_soft_agrees :
    (bf : ℕ) → bf < 2 ^ 16 → Ame.bf16_to_float_soft bf ≡ bf16_to_float_soft bf
unfolding Ame.bf16_to_float_soft bf16_to_float_soft
bf16_to_float_soft_agrees bf bits =
    rw (bit_and_low 1 (bf / 2 ^ 15), bit_and_low 8 (bf / 2 ^ 7), bit_and_low 7 bf)
      (ground (
        arith,
        wide_pack (bf / 2 ^ 15 % 2) 255 (bf % 2 ^ 7),
        bit_or_disjoint 31 (bf / 2 ^ 15 % 2) (bf % 2 ^ 7 * 2 ^ 16),
        wide_pack (bf / 2 ^ 15 % 2) (bf / 2 ^ 7 % 2 ^ 8) (bf % 2 ^ 7),
      ))

-- For a normal float the conversions to bfloat16 of tests/ame-bf16 and of tests/bf16 agree but for
-- a tie above an odd result: there that of tests/ame-bf16 is one less.
pub float_to_bf16_soft_agrees :
    (u : ℕ)
    → u < 2 ^ 32
    → 0 < u / 2 ^ 23 % 2 ^ 8
    → u / 2 ^ 23 % 2 ^ 8 < 0xff
    → Ame.float_to_bf16_soft u + (if (u % 2 ^ 16 == 0x8000) && (u / 2 ^ 16 % 2 == 1) then 1 else 0)
      ≡ float_to_bf16_soft u
unfolding float_to_bf16_soft
float_to_bf16_soft_agrees u bits normal finite =
    ground (arith, float_to_bf16_soft_lem u bits, finite_lem u 0 bits, bit_and_low 1 (u / 2 ^ 16))

-- The older conversion makes an infinity of a NaN whose upper seven mantissa bits are 0.
pub float_to_bf16_soft_loses_nan :
    (u : ℕ)
    → u < 2 ^ 32
    → is_nan u ≡ true
    → u % 2 ^ 23 < 2 ^ 16
    → bf16_is_inf (Ame.float_to_bf16_soft u) ≡ true
float_to_bf16_soft_loses_nan u bits nan small =
    ground (
      arith,
      float_to_bf16_soft_lem u bits,
      is_nan_lem u,
      bf16_is_inf_lem (Ame.float_to_bf16_soft u),
    )
