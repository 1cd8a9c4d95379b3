-- ===== src/Bf16/Rounding.antt =====
-- What the conversion with a rounding mode returns, against IEEE 754.
use nexus_am_ame.Base.{
  ℕ, ◌+◌, ◌*◌, ◌/◌, ◌%◌, ◌^◌, ◌<◌, ◌≤◌, ◌≡◌, ◌⊎◌, inl, inr, arith, bit_or, bit_and_low, ◌==◌,
  if◌then◌else◌, ltb, true, false, Bool, Bool-cases,
}
use nexus_am_ame.Bf16.{
  float_to_bf16_soft_rm, bf16_to_float_soft, increment_of, is_nan, is_inf, get_sign, bf16_is_nan,
  bf16_is_inf, bf16_get_sign, bf16_matches_float_conversion, float_matches_bf16_conversion,
}
use nexus_am_ame.Bf16.Fields.{
  finite_lem, special_lem, is_nan_lem, is_inf_lem, get_sign_lem, bf16_is_nan_lem, bf16_is_inf_lem,
  bf16_get_sign_lem, quiet_lem,
}

-- The size of a bfloat16 among those of floats: the bits without the sign, which are in the order of
-- the numbers.
abbrev pub magnitude : ℕ → ℕ
magnitude bf = bf % 2 ^ 15 * 2 ^ 16

-- `m` lies between the multiple of 2 ^ 16 and the next.
abbrev pub Down : ℕ → ℕ → Type 0
Down big m = (big ≤ m) × (m < big + 2 ^ 16)

abbrev pub Up : ℕ → ℕ → Type 0
Up big m = (m ≤ big) × (big < m + 2 ^ 16)

abbrev pub Nearest : ℕ → ℕ → Type 0
Nearest big m = (big ≤ m + 2 ^ 15) × (m ≤ big + 2 ^ 15)

module _ (u : ℕ) (bits : u < 2 ^ 32) (finite : u % 2 ^ 31 < 0x7f80_0000) where
  abbrev pub rounded : ℕ → ℕ
  rounded rm = float_to_bf16_soft_rm u rm

  ties_to_even :
      Nearest (magnitude (rounded 0)) (u % 2 ^ 31)
      × (((magnitude (rounded 0) < u % 2 ^ 31 + 2 ^ 15)
            × (u % 2 ^ 31 < magnitude (rounded 0) + 2 ^ 15))
          ⊎ (rounded 0 % 2 ≡ 0))
  ties_to_even = rw (finite_lem u 0 bits finite) (ground (arith, bit_and_low 1 (u / 2 ^ 16)))

  toward_zero : Down (magnitude (rounded 1)) (u % 2 ^ 31)
  toward_zero = rw (finite_lem u 1 bits finite) (ground arith)

  downwards :
      ((u / 2 ^ 31 ≡ 0) × Down (magnitude (rounded 2)) (u % 2 ^ 31))
      ⊎ ((u / 2 ^ 31 ≡ 1) × Up (magnitude (rounded 2)) (u % 2 ^ 31))
  downwards = rw (finite_lem u 2 bits finite) (ground arith)

  upwards :
      ((u / 2 ^ 31 ≡ 0) × Up (magnitude (rounded 3)) (u % 2 ^ 31))
      ⊎ ((u / 2 ^ 31 ≡ 1) × Down (magnitude (rounded 3)) (u % 2 ^ 31))
  upwards = rw (finite_lem u 3 bits finite) (ground arith)

  ties_away :
      (magnitude (rounded 4) ≤ u % 2 ^ 31 + 2 ^ 15) × (u % 2 ^ 31 < magnitude (rounded 4) + 2 ^ 15)
  ties_away = rw (finite_lem u 4 bits finite) (ground arith)

-- For a finite float, the conversion keeps the sign and rounds the size by the mode: mode 0 to
-- nearest, to an even result unless one is strictly nearest; mode 1 towards 0; mode 2 downwards
-- and mode 3 upwards, which is towards 0 or away from it by the sign; mode 4 to nearest, ties
-- away from 0. The size may round to that of infinity.
pub float_to_bf16_soft_rm-Nearest :
    (u : ℕ)
    → u < 2 ^ 32
    → u % 2 ^ 31 < 0x7f80_0000
    → let rounded : ℕ → ℕ = λ rm. float_to_bf16_soft_rm u rm in
      let m = u % 2 ^ 31 in
      ((rm : ℕ) → rounded rm / 2 ^ 15 ≡ u / 2 ^ 31)
      × (Nearest (magnitude (rounded 0)) m
          × (((magnitude (rounded 0) < m + 2 ^ 15) × (m < magnitude (rounded 0) + 2 ^ 15))
              ⊎ (rounded 0 % 2 ≡ 0)))
      × Down (magnitude (rounded 1)) m
      × (((u / 2 ^ 31 ≡ 0) × Down (magnitude (rounded 2)) m)
          ⊎ ((u / 2 ^ 31 ≡ 1) × Up (magnitude (rounded 2)) m))
      × (((u / 2 ^ 31 ≡ 0) × Up (magnitude (rounded 3)) m)
          ⊎ ((u / 2 ^ 31 ≡ 1) × Down (magnitude (rounded 3)) m))
      × ((magnitude (rounded 4) ≤ m + 2 ^ 15) × (m < magnitude (rounded 4) + 2 ^ 15))
float_to_bf16_soft_rm-Nearest u bits finite = (
  λ rm.
      rw (finite_lem u rm bits finite)
        (sign_stays (increment_of rm (u / 2 ^ 16) (u % 2 ^ 16) (u / 2 ^ 31))),
  ties_to_even u bits finite,
  toward_zero u bits finite,
  downwards u bits finite,
  upwards u bits finite,
  ties_away u bits finite,
)
  where
    sign_stays : (b : Bool) → (u / 2 ^ 16 + (if b then 1 else 0)) / 2 ^ 15 ≡ u / 2 ^ 31
    sign_stays b = ground arith

-- In every mode, an infinity stays that infinity, and a NaN stays a NaN with its sign, now
-- quiet: bit 6 is set.
pub float_to_bf16_soft_rm_special :
    (u rm : ℕ)
    → u < 2 ^ 32
    → 0x7f80_0000 ≤ u % 2 ^ 31
    → (bf16_is_inf (float_to_bf16_soft_rm u rm) ≡ is_inf u)
      × (bf16_is_nan (float_to_bf16_soft_rm u rm) ≡ is_nan u)
      × (bf16_get_sign (float_to_bf16_soft_rm u rm) ≡ get_sign u)
      × (is_nan u ≡ (float_to_bf16_soft_rm u rm / 2 ^ 6 % 2 == 1))
float_to_bf16_soft_rm_special u rm bits special =
    let r = float_to_bf16_soft_rm u rm in
    let e = special_lem u rm bits special in
    (
      ground (arith, e, bf16_is_inf_lem r, is_inf_lem u),
      ground (arith, e, bf16_is_nan_lem r, is_nan_lem u),
      ground (arith, e, bf16_get_sign_lem r, get_sign_lem u),
      ground (arith, e, is_nan_lem u),
    )

-- Where no bits are dropped, no mode adds one.
nothing_lost : (rm hi sign : ℕ) → increment_of rm hi 0 sign ≡ false
nothing_lost rm hi sign = ground arith

-- Widening loses nothing: converted back in any mode, every bfloat16 but a NaN is as it was, and a
-- NaN is made quiet.
pub float_to_bf16_soft_rm-bf16_to_float_soft :
    (bf rm : ℕ)
    → bf < 2 ^ 16
    → float_to_bf16_soft_rm (bf16_to_float_soft bf) rm
      ≡ (if bf16_is_nan bf then bit_or bf 0x40 else bf)
unfolding bf16_to_float_soft
float_to_bf16_soft_rm-bf16_to_float_soft bf rm bits = elim (Bool-cases (ltb (bf % 2 ^ 15) 0x7f80)) [
  | inl finite ↦ ground (
    arith,
    finite_lem (bf * 2 ^ 16) rm,
    bf16_is_nan_lem bf,
    wide,
    nothing_lost rm (bf * 2 ^ 16 / 2 ^ 16) (bf * 2 ^ 16 / 2 ^ 31),
  )
  | inr special ↦
      ground (arith, special_lem (bf * 2 ^ 16) rm, bf16_is_nan_lem bf, quiet_lem bf, wide)
]
  where
    wide : bf * 2 ^ 16 % 2 ^ 32 ≡ bf * 2 ^ 16
    wide = omega arith

-- The comparisons of the tests accept what the reference returns: for every float and mode, and
-- for every bfloat16.
pub bf16_matches_float_conversion_lem :
    (u rm bf : ℕ)
    → u < 2 ^ 32
    → bf < 2 ^ 16
    → (bf16_matches_float_conversion u (float_to_bf16_soft_rm u rm) (float_to_bf16_soft_rm u rm)
        ≡ true)
      × (float_matches_bf16_conversion bf (bf16_to_float_soft bf) ≡ true)
unfolding bf16_matches_float_conversion float_matches_bf16_conversion bf16_to_float_soft
bf16_matches_float_conversion_lem u rm bf bits bits' = (
  ground (arith, float_to_bf16_soft_rm_special u rm bits, is_nan_lem u, is_inf_lem u),
  ground (arith, bf16_is_nan_lem bf, is_nan_lem (bf * 2 ^ 16 % 2 ^ 32)),
)
