-- ===== src/Ame/Pack4/Laws.antt =====
-- The one entry that the program computes for each element is the whole product.
use nexus_am_ame.Base.{
  ℕ, zero, suc, ◌+◌, ◌*◌, ◌/◌, ◌%◌, ◌^◌, ◌<◌, ◌≡◌, ◌≢◌, ◌↔◌, arith, refl, sym, ap, ◌∙◌, Bool,
  Bool-cases, inl, inr, true, false, ◌==◌, ==_iff, if◌then◌else◌, bit_and, bit_and_low, holds_upto,
  holds_upto-at,
}
use nexus_am_ame.Ame.Pack4.Lanes.{lane_of, signed_lane, lane_of-packed}
use nexus_am_ame.Ame.Pack4.{
  Matrix, Matrices, matrix_k, make_a_value, make_b_code, decode_i2, initial_c_value, or_upto,
  packed, initialize_matrices, initialize_status, expected, verify_result, main,
}

unfoldable pub sum : ℕ → (ℕ → ℕ) → ℕ
sum zero f = 0
sum (suc n) f = (sum n f + f n) % 2 ^ 32

-- The product of the matrices before packing, on top of the initial `matrix_c`.
abbrev pub product : Matrix
product m n =
    (initial_c_value m n + sum matrix_k (λ k. make_a_value m k * signed_lane (make_b_code n k)))
    % 2 ^ 32

sum-zero : (n : ℕ) (f : ℕ → ℕ) → ((k : ℕ) → k < n → f k ≡ 0) → sum n f ≡ 0
unfolding sum
sum-zero zero f h = refl
sum-zero (suc n) f h =
    omega (arith, sum-zero n f (λ k lt. h k (omega (arith, lt))), h n (omega arith))

-- A sum with one entry.
sum-one : (n : ℕ) (f : ℕ → ℕ) (j : ℕ) → j < n → ((k : ℕ) → k ≢ j → f k ≡ 0) → sum n f ≡ f j % 2 ^ 32
unfolding sum
sum-one zero f j lt h = absurd (omega arith)
sum-one (suc n) f j lt h = elim (Bool-cases (n == j)) [
  | inl last ↦
      let e = (==_iff n j).0 last in
      let before = sum-zero n f (λ k less. h k (λ same. omega (arith, less, same, e))) in
      omega (arith, before, ap f e)
  | inr later ↦
      let ne : n ≢ j = λ e. ground (arith, later, e) in
      omega (arith, sum-one n f j (omega (arith, ne)) h, h n ne)
]

decode_i2_lem : (code : ℕ) → code < 4 → decode_i2 code ≡ signed_lane code
decode_i2_lem zero h = refl
decode_i2_lem (suc zero) h = refl
decode_i2_lem (suc (suc zero)) h = refl
decode_i2_lem (suc (suc (suc zero))) h = refl
decode_i2_lem (suc (suc (suc (suc c)))) h = absurd (omega arith)

-- The entry that is not 0 in a row of `matrix_a`.
expected_lem : (m n : ℕ) → expected initialize_matrices m n ≡ product m n
expected_lem m n =
    let k = m % matrix_k in
    let lane : bit_and (packed n (k / 4) / 2 ^ (2 * bit_and k 3)) 3 ≡ lane_of packed n k =
      bit_and_low 2 (packed n (k / 4) / 2 ^ (2 * bit_and k 3))
      ∙ ap (λ t. packed n (k / 4) / 2 ^ (2 * t) % 4) (bit_and_low 2 k) in
    let decoded =
      ap decode_i2 lane
      ∙ decode_i2_lem (lane_of packed n k) (omega arith)
      ∙ ap signed_lane (lane_of-packed n k) in
    let entry =
      sum-one matrix_k (λ k'. make_a_value m k' * signed_lane (make_b_code n k')) k (omega arith)
        (λ k' other. zero_elsewhere k' other) in
    omega (arith, entry, ap (λ t. make_a_value m k * t) decoded)
  where
    zero_elsewhere :
        (k : ℕ) → k ≢ m % matrix_k → make_a_value m k * signed_lane (make_b_code n k) ≡ 0
    zero_elsewhere k other =
        let off : (m % matrix_k == k) ≡ false = ground (arith, other) in rw off (omega arith)

holds_upto-all :
    (test : ℕ → Bool) (top : ℕ) → ((i : ℕ) → i < top → test i ≡ true) → holds_upto test top ≡ true
unfolding holds_upto
holds_upto-all test zero h = refl
holds_upto-all test (suc top) h =
    let before = holds_upto-all test top (λ i lt. h i (omega (arith, lt))) in
    let last = h top (omega arith) in rw (before, last) refl

status_zero : initialize_status ≡ 0
unfolding or_upto
status_zero = refl

module _ (run : Matrices → Matrices)
    (keeps_a : (m k : ℕ) → (run initialize_matrices).a m k ≡ make_a_value m k)
    (keeps_b : (n byte : ℕ) → (run initialize_matrices).b n byte ≡ packed n byte) where
  after : Matrices
  after = run initialize_matrices

  still_expected : (m n : ℕ) → expected after m n ≡ product m n
  unfolding after
  still_expected m n =
      rw (keeps_a m (m % matrix_k), keeps_b n (m % matrix_k / 4)) (expected_lem m n)

  element : ℕ → ℕ → Bool
  element m n = after.c m n == expected after m n

  rows : ℕ → Bool
  rows m = holds_upto (element m) 128

  main-rows : main run ≡ (if holds_upto rows 128 then 0 else 1)
  unfolding main verify_result after element rows
  main-rows = rw status_zero (passes (holds_upto rows 128))
    where
      passes :
          (b : Bool) → (if (if b then 0 else 1) == 0 then 0 else 1) ≡ if◌then◌else◌ {A = ℕ} b 0 1
      passes true = refl
      passes false = refl

  -- If the matrix unit leaves its two factors alone, the program returns 0 exactly when every
  -- element of `matrix_c` is the initial one plus the product of the rows, with the codes as
  -- they were before packing.
  pub main_iff :
      (main run ≡ 0)
      ↔ ((m n : ℕ) → m < 128 → n < 128 → (run initialize_matrices).c m n ≡ product m n)
  unfolding after element rows
  main_iff = (
    λ ok m n hm hn.
        (==_iff (after.c m n) (expected after m n)).0
          (holds_upto-at (element m) 128 (holds_upto-at rows 128 (passed ok) m hm) n hn)
        ∙ still_expected m n,
    λ right.
        main-rows
        ∙ ap (λ b. if b then 0 else 1)
            (holds_upto-all rows 128 (λ m hm. holds_upto-all (element m) 128 (λ n hn.
              (==_iff (after.c m n) (expected after m n)).1
                (right m n hm hn ∙ sym (still_expected m n))))),
  )
    where
      passed : main run ≡ 0 → holds_upto rows 128 ≡ true
      passed ok = elim (Bool-cases (holds_upto rows 128)) [
        | inl all ↦ all
        | inr some_wrong ↦ ground (arith, ok, main-rows, some_wrong)
      ]
