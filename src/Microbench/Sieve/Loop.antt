-- ===== src/Microbench/Sieve/Loop.antt =====
-- apps/microbench/src/sieve/sieve.c: the loop over the rounds, whose last round is the first whose
-- square is above the size.
use nexus_am_ame.Base.{
  ℕ, zero, suc, ◌+◌, ◌*◌, ◌%◌, ◌^◌, ◌≤◌, ◌<◌, ◌≡◌, inl, inr, refl, sym, subst, arith, true, false,
  ◌==◌, if◌then◌else◌, Bool-cases,
}
use nexus_am_ame.Microbench.Sieve.{get, clear_multiples, sieve_from}
use nexus_am_ame.Microbench.Sieve.Rounds.{Crossed, skip_keeps, cross_keeps}
use native.Mathlib.Nat.{mul-le-mul, mul-le-mul_right}
use nexus_am_ame.Words.{int_less}
use native.Mathlib.Decide.{dec_lt}

-- The marks after round `i`.
abbrev next_marks : ℕ → ℕ → (ℕ → ℕ) → ℕ → ℕ
next_marks n i primes =
    if get primes i == 0 then primes else clear_multiples n n i ((i + i) % 2 ^ 32) primes

next_keeps :
    (n i : ℕ) (primes : ℕ → ℕ)
    → 2 ≤ i
    → i ≤ n
    → i ≤ 46340
    → n < 46340 * 46340
    → Crossed n i primes
    → Crossed n (i + 1) (next_marks n i primes)
next_keeps n i primes two le int_i int_n c = elim (Bool-cases (get primes i == 0)) [
  | inl e ↦
      subst
        (λ b.
          Crossed n (i + 1) (if b then primes else clear_multiples n n i ((i + i) % 2 ^ 32) primes))
        (sym e) (skip_keeps n i primes two le c (ground arith))
  | inr e ↦
      let exact : (i + i) % 2 ^ 32 ≡ i + i = omega arith in
      subst
        (λ b.
          Crossed n (i + 1) (if b then primes else clear_multiples n n i ((i + i) % 2 ^ 32) primes))
        (sym e)
        (subst (λ j. Crossed n (i + 1) (clear_multiples n n i j primes)) (sym exact)
          (cross_keeps n i primes two int_i int_n c))
]

square_above : (i n : ℕ) → 2 ≤ i → i * i ≤ n → i ≤ n
square_above i n two le = omega (arith, mul-le-mul_right i two)

-- No square that the loop tests overflows.
int_square : (i : ℕ) → i ≤ 46340 → i * i < 2 ^ 31
int_square i le = omega (arith, mul-le-mul le le)

square_below : (i n : ℕ) → n < 46340 * 46340 → i * i ≤ n → i < 46340
square_below i n int_n le = elim (dec_lt i 46340) [
  | yes below ↦ below
  | no above ↦
      let at : 46340 ≤ i = omega (arith, above) in
      absurd (omega (arith, mul-le-mul at at, int_n, le))
]

sieve_ends :
    (fuel n i : ℕ) (primes : ℕ → ℕ)
    → int_less n (i * i % 2 ^ 32) ≡ true
    → sieve_from (suc fuel) n i primes ≡ primes
unfolding sieve_from
sieve_ends fuel n i primes over = rw over refl

sieve_goes :
    (fuel n i : ℕ) (primes : ℕ → ℕ)
    → int_less n (i * i % 2 ^ 32) ≡ false
    → sieve_from (suc fuel) n i primes ≡ sieve_from fuel n (i + 1) (next_marks n i primes)
unfolding sieve_from
sieve_goes fuel n i primes under = rw under refl

pub sieve_from_lem :
    (fuel n i : ℕ) (primes : ℕ → ℕ)
    → 2 ≤ i
    → i ≤ 46340
    → n < 46340 * 46340
    → n < i + fuel
    → Crossed n i primes
    → (j : ℕ) × (n < j * j) × Crossed n j (sieve_from fuel n i primes)
unfolding sieve_from
sieve_from_lem zero n i primes two int_i int_n enough c =
    (i, omega (arith, mul-le-mul_right i two), c)
sieve_from_lem (suc fuel) n i primes two int_i int_n enough c =
    let square = int_square i int_i in
    elim (dec_lt n (i * i)) [
      | yes big ↦
          let over : int_less n (i * i % 2 ^ 32) ≡ true = ground (arith, big, square) in
          (i, big, subst (Crossed n i) (sym (sieve_ends fuel n i primes over)) c)
      | no small ↦
          let le : i * i ≤ n = omega (arith, small) in
          let under : int_less n (i * i % 2 ^ 32) ≡ false = ground (arith, le, square, int_n) in
          let (j, big, c') =
            sieve_from_lem fuel n (i + 1) (next_marks n i primes) (omega arith)
              (let below = square_below i n int_n le in omega (arith, below)) int_n (omega arith)
              (next_keeps n i primes two (square_above i n two le) int_i int_n c) in
          (j, big, subst (Crossed n j) (sym (sieve_goes fuel n i primes under)) c')
    ]
