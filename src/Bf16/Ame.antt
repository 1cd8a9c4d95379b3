-- ===== src/Bf16/Ame.antt =====
-- The same conversions as tests/ame-bf16/bf16.c has them.
pub mod Agreement
use nexus_am_ame.Base.{ℕ, ◌+◌, ◌*◌, ◌/◌, ◌%◌, ◌^◌, bit_and, bit_or, ◌==◌, if◌then◌else◌}
use nexus_am_ame.Bf16.{sign_of, exponent_of, mantissa_of, bf16_sign, bf16_exponent, bf16_mantissa}

-- `(sign << 15) | (exponent << 7) | mantissa`
abbrev pub pack : ℕ → ℕ → ℕ → ℕ
pack sign exponent mantissa = bit_or (bit_or (sign * 2 ^ 15) (exponent * 2 ^ 7)) mantissa

-- The mantissa with its carry.
abbrev pub round_mantissa : ℕ → ℕ
round_mantissa mantissa =
    let rounding = bit_and (mantissa / 2 ^ 15) 1 in
    let sticky : ℕ = if bit_and mantissa 0x7fff == 0 then 0 else 1 in
    mantissa / 2 ^ 16 + bit_and rounding sticky

pub float_to_bf16_soft : ℕ → ℕ
float_to_bf16_soft u =
    let sign = sign_of u in
    let exponent = exponent_of u in
    let mantissa = mantissa_of u in
    let rounded = round_mantissa mantissa in
    if exponent == 0xff
    then bit_or (bit_or (sign * 2 ^ 15) 0x7f80) (mantissa / 2 ^ 16) % 2 ^ 16
    else (if exponent == 0
        then sign * 2 ^ 15 % 2 ^ 16
        else (if rounded == 0x80
            then pack sign (exponent + 1) 0 % 2 ^ 16
            else pack sign exponent rounded % 2 ^ 16))

pub bf16_to_float_soft : ℕ → ℕ
bf16_to_float_soft bf =
    let sign = bf16_sign bf in
    let exponent = bf16_exponent bf in
    let mantissa = bf16_mantissa bf in
    if exponent == 0xff
    then bit_or (bit_or (sign * 2 ^ 31) 0x7f80_0000) (mantissa * 2 ^ 16)
    else (if exponent == 0
        then bit_or (sign * 2 ^ 31) (mantissa * 2 ^ 16)
        else bit_or (bit_or (sign * 2 ^ 31) (exponent * 2 ^ 23)) (mantissa * 2 ^ 16))
