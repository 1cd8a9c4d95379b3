-- ===== src/Ame/Pack4/Lanes.antt =====
-- Packing the two-bit integers of a row, four to a byte, and unpacking them.
use nexus_am_ame.Base.{
  ℕ, zero, suc, ◌+◌, ◌-◌, ◌*◌, ◌/◌, ◌%◌, ◌^◌, ◌<◌, ◌≡◌, arith, refl, ap, ◌∙◌, Bool, true, ◌==◌, ltb,
  ==_iff, if◌then◌else◌, bit_and, bit_or, bit_and_low, holds_upto, holds_upto-at,
}
use nexus_am_ame.Ame.Pack4.{Matrix, make_b_code, or_upto, packed}

-- The lane of two bits of a packed row, as the matrix unit reads it.
abbrev pub lane_of : Matrix → ℕ → ℕ → ℕ
lane_of b n k = b n (k / 4) / 2 ^ (2 * (k % 4)) % 4

-- The two-bit integer as an int32_t.
abbrev pub signed_lane : ℕ → ℕ
signed_lane code = if ltb code 2 then code else code + 2 ^ 32 - 4

-- Four codes in a byte do not touch each other.
abbrev pack : ℕ → ℕ → ℕ → ℕ → ℕ
pack c d e f =
    bit_or (bit_or (bit_or (bit_or 0 (c * 2 ^ 0 % 2 ^ 8)) (d * 2 ^ 2 % 2 ^ 8)) (e * 2 ^ 4 % 2 ^ 8))
      (f * 2 ^ 6 % 2 ^ 8)

abbrev pack_fits : ℕ → ℕ → ℕ → ℕ → Bool
pack_fits c d e f = pack c d e f == c + 4 * d + 16 * e + 64 * f

pack_table :
    holds_upto (λ c. holds_upto (λ d. holds_upto (λ e. holds_upto (pack_fits c d e) 4) 4) 4) 4
    ≡ true
unfolding holds_upto
pack_table = refl

pack_lem :
    (c d e f : ℕ) → c < 4 → d < 4 → e < 4 → f < 4 → pack c d e f ≡ c + 4 * d + 16 * e + 64 * f
pack_lem c d e f hc hd he hf = (==_iff (pack c d e f) (c + 4 * d + 16 * e + 64 * f)).0 (
    holds_upto-at (pack_fits c d e) 4
      (holds_upto-at (λ e. holds_upto (pack_fits c d e) 4) 4
        (holds_upto-at (λ d. holds_upto (λ e. holds_upto (pack_fits c d e) 4) 4) 4
          (holds_upto-at _ 4 pack_table c hc) d hd)
        e he)
      f hf)

code_small : (n k : ℕ) → make_b_code n k < 4
code_small n k = omega (arith, bit_and_low 2 (bit_and k 3 + rotation))
  where
    rotation : ℕ
    rotation =
        let byte = k / 4 in
        if ltb byte 4
        then bit_and (n / 2 ^ (2 * byte)) 3
        else bit_and (n + 3 * byte + n / 2 ^ bit_and byte 7) 3

packed_lem :
    (n byte : ℕ)
    → packed n byte
      ≡ make_b_code n (byte * 4 + 0)
        + 4 * make_b_code n (byte * 4 + 1)
        + 16 * make_b_code n (byte * 4 + 2)
        + 64 * make_b_code n (byte * 4 + 3)
unfolding or_upto
packed_lem n byte =
    pack_lem _ _ _ _ (code_small n (byte * 4 + 0)) (code_small n (byte * 4 + 1))
      (code_small n (byte * 4 + 2)) (code_small n (byte * 4 + 3))

module _ (code : ℕ → ℕ) (small : (k : ℕ) → code k < 4) (q : ℕ) where
  digit :
      (r : ℕ)
      → r < 4
      → (code (q * 4 + 0) + 4 * code (q * 4 + 1) + 16 * code (q * 4 + 2) + 64 * code (q * 4 + 3))
          / 2 ^ (2 * r)
          % 4
        ≡ code (q * 4 + r)
  digit zero h = omega (arith, small (q * 4 + 0))
  digit (suc zero) h = omega (arith, small (q * 4 + 0), small (q * 4 + 1))
  digit (suc (suc zero)) h = omega (arith, small (q * 4 + 0), small (q * 4 + 1), small (q * 4 + 2))
  digit (suc (suc (suc zero))) h =
      omega (arith, small (q * 4 + 0), small (q * 4 + 1), small (q * 4 + 2), small (q * 4 + 3))
  digit (suc (suc (suc (suc r)))) h = absurd (omega arith)

-- Unpacking a lane of the packed matrix gives the code that was put there.
pub lane_of-packed : (n k : ℕ) → lane_of packed n k ≡ make_b_code n k
lane_of-packed n k =
    ap (λ t. t / 2 ^ (2 * (k % 4)) % 4) (packed_lem n (k / 4))
    ∙ digit (make_b_code n) (code_small n) (k / 4) (k % 4) (omega arith)
    ∙ ap (make_b_code n) (the_index k)
  where
    the_index : (k : ℕ) → k / 4 * 4 + k % 4 ≡ k
    the_index k = omega arith
