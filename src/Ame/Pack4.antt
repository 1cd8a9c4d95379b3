-- ===== src/Ame/Pack4.antt =====
-- apps/ame-fp2pack4/main.c: a product of a matrix of bytes and one of packed two-bit integers.
-- A matrix is a function of its indices, a loop that fills one its entries, and an int32_t its 32
-- bits. The indices are below 128, so the unsigned arithmetic on them does not wrap.
pub mod Lanes
pub mod Laws
use nexus_am_ame.Base.{
  ℕ, zero, suc, ◌+◌, ◌-◌, ◌*◌, ◌/◌, ◌%◌, ◌^◌, ltb, ◌==◌, if◌then◌else◌, bit_and, bit_or, holds_upto,
}

abbrev matrix_m : ℕ
matrix_m = 128

abbrev matrix_n : ℕ
matrix_n = 128

abbrev pub matrix_k : ℕ
matrix_k = 64

abbrev packed_b_row_bytes : ℕ
packed_b_row_bytes = matrix_k / 4

abbrev pub Matrix : Type 0
Matrix = ℕ → ℕ → ℕ

-- `matrix_a`, `matrix_b` and `matrix_c`
pub record Matrices : Type 0 where
  pub a : Matrix
  pub b : Matrix
  pub c : Matrix

abbrev pub make_a_value : Matrix
make_a_value m k = if m % matrix_k == k then (if ltb m matrix_k then 1 else 2 ^ 32 - 3) else 0

abbrev pub make_b_code : Matrix
make_b_code n k =
    let byte = k / 4 in
    let rotation =
      if ltb byte 4
      then bit_and (n / 2 ^ (2 * byte)) 3
      else bit_and (n + 3 * byte + n / 2 ^ bit_and byte 7) 3 in
    bit_and (bit_and k 3 + rotation) 3

abbrev pub decode_i2 : ℕ → ℕ
decode_i2 code =
    let low = bit_and code 3 in if bit_and low 2 == 0 then low else (low + 2 ^ 32 - 4) % 2 ^ 32

abbrev pub initial_c_value : Matrix
initial_c_value m n = ((m * 19 + n * 23 + 7) % 257 + 2 ^ 32 - 128) % 2 ^ 32

-- The loops of `|=`.
unfoldable pub or_upto : ℕ → (ℕ → ℕ) → ℕ
or_upto zero f = 0
or_upto (suc n) f = bit_or (or_upto n f) (f n)

abbrev pub packed : Matrix
packed n byte = or_upto 4 (λ lane. make_b_code n (byte * 4 + lane) * 2 ^ (2 * lane) % 2 ^ 8)

abbrev seen_codes : ℕ
seen_codes = or_upto matrix_n (λ n.
    or_upto packed_b_row_bytes (λ byte. or_upto 4 (λ lane. 2 ^ make_b_code n (byte * 4 + lane))))

abbrev pub initialize_matrices : Matrices
initialize_matrices = record { a = make_a_value; b = packed; c = initial_c_value }

-- What it returns.
abbrev pub initialize_status : ℕ
initialize_status = if seen_codes == 0x0f then 0 else 1

-- `expected`
abbrev pub expected : Matrices → Matrix
expected ms m n =
    let k = m % matrix_k in
    let code = bit_and (ms.b n (k / 4) / 2 ^ (2 * bit_and k 3)) 3 in
    (initial_c_value m n + ms.a m k * decode_i2 code) % 2 ^ 32

pub verify_result : Matrices → ℕ
verify_result ms =
    if holds_upto (λ m. holds_upto (λ n. ms.c m n == expected ms m n) matrix_n) matrix_m
    then 0
    else 1

-- `run` is what run_matrix_multiply does to the matrices.
pub main : (Matrices → Matrices) → ℕ
main run =
    if initialize_status == 0
    then (if verify_result (run initialize_matrices) == 0 then 0 else 1)
    else 1
