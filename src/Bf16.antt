-- ===== src/Bf16.antt =====
-- The conversions between float and bfloat16 in software, tests/bf16/bf16.c: the reference that
-- the conversion instructions are tested against. A float is its 32 bits (float_bits), and a
-- conversion of a number to uint16_t keeps 16 of them.
pub mod Ame
pub mod Fields
pub mod Rounding
mod Tests
use nexus_am_ame.Base.{
  ℕ, ◌+◌, ◌*◌, ◌/◌, ◌%◌, ◌^◌, bit_and, bit_or, Bool, true, false, ltb, leb, ◌==◌, ◌&&◌, ◌||◌,
  if◌then◌else◌, not,
}

abbrev pub sign_of : ℕ → ℕ
sign_of u = bit_and (u / 2 ^ 31) 0x1

abbrev pub exponent_of : ℕ → ℕ
exponent_of u = bit_and (u / 2 ^ 23) 0xff

abbrev pub mantissa_of : ℕ → ℕ
mantissa_of u = bit_and u 0x7f_ffff

abbrev pub bf16_sign : ℕ → ℕ
bf16_sign bf = bit_and (bf / 2 ^ 15) 0x1

abbrev pub bf16_exponent : ℕ → ℕ
bf16_exponent bf = bit_and (bf / 2 ^ 7) 0xff

abbrev pub bf16_mantissa : ℕ → ℕ
bf16_mantissa bf = bit_and bf 0x7f

-- What `case 0` and `default` say: to nearest, ties to even.
abbrev pub nearest_even : ℕ → ℕ → Bool
nearest_even hi lo = ltb 0x8000 lo || ((lo == 0x8000) && not (bit_and hi 1 == 0))

-- The switch on the rounding mode.
abbrev pub increment_of : ℕ → ℕ → ℕ → ℕ → Bool
increment_of rm hi lo sign =
    if rm == 0
    then nearest_even hi lo
    else (if rm == 1
        then false
        else (if rm == 2
            then not (sign == 0) && not (lo == 0)
            else (if rm == 3
                then (sign == 0) && not (lo == 0)
                else (if rm == 4 then leb 0x8000 lo else nearest_even hi lo))))

pub float_to_bf16_soft_rm : ℕ → ℕ → ℕ
float_to_bf16_soft_rm u rm =
    let abs = bit_and u 0x7fff_ffff in
    let hi = u / 2 ^ 16 in
    let lo = bit_and u 0xffff in
    let sign = u / 2 ^ 31 in
    let bf = u / 2 ^ 16 % 2 ^ 16 in
    if bit_and abs 0x7f80_0000 == 0x7f80_0000
    then (if bit_and abs 0x7f_ffff == 0 then bf else bit_or bf 0x40)
    else (hi + (if increment_of rm hi lo sign then 1 else 0)) % 2 ^ 16

pub float_to_bf16_soft : ℕ → ℕ
float_to_bf16_soft u = float_to_bf16_soft_rm u 0

pub bf16_to_float_soft : ℕ → ℕ
bf16_to_float_soft bf = bf * 2 ^ 16 % 2 ^ 32

pub is_inf : ℕ → Bool
is_inf x = (exponent_of x == 0xff) && (mantissa_of x == 0)

pub is_nan : ℕ → Bool
is_nan x = (exponent_of x == 0xff) && not (mantissa_of x == 0)

pub get_sign : ℕ → ℕ
get_sign x = sign_of x

pub my_fabs : ℕ → ℕ
my_fabs x = bit_and x 0x7fff_ffff

pub bf16_is_inf : ℕ → Bool
bf16_is_inf bf = (bf16_exponent bf == 0xff) && (bf16_mantissa bf == 0)

pub bf16_is_nan : ℕ → Bool
bf16_is_nan bf = (bf16_exponent bf == 0xff) && not (bf16_mantissa bf == 0)

pub bf16_get_sign : ℕ → ℕ
bf16_get_sign bf = bf16_sign bf

pub bf16_matches_float_conversion : ℕ → ℕ → ℕ → Bool
bf16_matches_float_conversion input actual expected =
    if is_nan input
    then bf16_is_nan actual
    else (if is_inf input
        then bf16_is_inf actual && (bf16_get_sign actual == get_sign input)
        else actual == expected)

pub float_matches_bf16_conversion : ℕ → ℕ → Bool
float_matches_bf16_conversion input actual =
    if bf16_is_nan input then is_nan actual else actual == input * 2 ^ 16 % 2 ^ 32
