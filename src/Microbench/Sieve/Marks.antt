-- ===== src/Microbench/Sieve/Marks.antt =====
-- The marks of the sieve as bits of words.
use nexus_am_ame.Base.{
  ℕ, zero, suc, ◌-◌, ◌/◌, ◌%◌, ◌^◌, ◌≤◌, ◌<◌, ◌≡◌, ◌≢◌, refl, sym, ap, ◌∙◌, arith, bit_and, Bool,
  true, ◌==◌, if◌then◌else◌, bit_and_low, bit_at, bit_at-bit_and, bit_at-lt, holds_upto,
  holds_upto-at, ==_iff,
}
use nexus_am_ame.Arrays.{put}
use nexus_am_ame.Microbench.Sieve.{get, clear, bench_sieve_prepare}
use native.Mathlib.Nat.{pow-succ', div-div-eq-div-mul}
use native.Mathlib.Decide.{ℕ_discrete}

mask_holds : ℕ → ℕ → Bool
mask_holds k i = bit_at (2 ^ 32 - 1 - 2 ^ k) i == (if i == k then 0 else 1)

all_masks : holds_upto (λ k. holds_upto (mask_holds k) 32) 32 ≡ true
unfolding mask_holds holds_upto
all_masks = refl

mask_bit : (k i : ℕ) → k < 32 → i < 32 → bit_at (2 ^ 32 - 1 - 2 ^ k) i ≡ (if i == k then 0 else 1)
unfolding mask_holds
mask_bit k i hk hi =
    let row = holds_upto-at (λ j. holds_upto (mask_holds j) 32) 32 all_masks k hk in
    let one = holds_upto-at (mask_holds k) 32 row i hi in
    (==_iff (bit_at (2 ^ 32 - 1 - 2 ^ k) i) (if i == k then 0 else 1)).0 one

set_holds : ℕ → Bool
set_holds i = bit_at 0xffff_ffff i == 1

all_set : holds_upto set_holds 32 ≡ true
unfolding set_holds holds_upto
all_set = refl

bit_at-div : (i x : ℕ) → bit_at x i ≡ x / 2 ^ i % 2
bit_at-div zero x = omega arith
bit_at-div (suc i) x =
    bit_at-div i (x / 2)
    ∙ ap (λ (t : ℕ). t % 2)
        (div-div-eq-div-mul x 2 (2 ^ i) ∙ ap (λ (t : ℕ). x / t) (sym (pow-succ' 2 i)))

pub get-bit_at : (primes : ℕ → ℕ) (n : ℕ) → get primes n ≡ bit_at (primes (n / 2 ^ 5)) (n % 32)
unfolding get
get-bit_at primes n =
    bit_and_low 1 (primes (n / 2 ^ 5) / 2 ^ (n % 32))
    ∙ sym (bit_at-div (n % 32) (primes (n / 2 ^ 5)))

-- clear takes one mark away.
pub get-clear :
    (primes : ℕ → ℕ) (n k : ℕ) → get (clear primes n) k ≡ (if k == n then 0 else get primes k)
unfolding clear
get-clear primes n k =
    let small = bit_at-lt (k % 32) (primes (k / 2 ^ 5)) in
    get-bit_at (clear primes n) k
    ∙ at
    ∙ ap (λ (t : ℕ). if k == n then 0 else t) (sym (get-bit_at primes k))
  where
    at :
        bit_at
          (put primes
            (n / 2 ^ 5)
            (bit_and (primes (n / 2 ^ 5)) (2 ^ 32 - 1 - 2 ^ (n % 32)))
            (k / 2 ^ 5))
          (k % 32)
        ≡ (if k == n then 0 else bit_at (primes (k / 2 ^ 5)) (k % 32))
    at = elim (ℕ_discrete (k / 2 ^ 5) (n / 2 ^ 5)) [
      | yes same ↦
          let byte : put primes (n / 2 ^ 5)
                (bit_and (primes (n / 2 ^ 5)) (2 ^ 32 - 1 - 2 ^ (n % 32))) (k / 2 ^ 5)
              ≡ bit_and (primes (n / 2 ^ 5)) (2 ^ 32 - 1 - 2 ^ (n % 32)) =
            ground arith in
          let e = bit_at-bit_and (k % 32) (primes (n / 2 ^ 5)) (2 ^ 32 - 1 - 2 ^ (n % 32)) in
          let mask = mask_bit (n % 32) (k % 32) (omega arith) (omega arith) in
          let small = bit_at-lt (k % 32) (primes (n / 2 ^ 5)) in
          let old : bit_at (primes (n / 2 ^ 5)) (k % 32) ≡ bit_at (primes (k / 2 ^ 5)) (k % 32) =
            ap (λ (t : ℕ). bit_at (primes t) (k % 32)) (sym same) in
          ap (λ t. bit_at t (k % 32)) byte ∙ e ∙ elim (ℕ_discrete k n) [
            | yes eq ↦ let low : k % 32 ≡ n % 32 = ap (λ (t : ℕ). t % 32) eq in ground arith
            | no ne ↦ let low : k % 32 ≢ n % 32 = (λ x. ne (omega arith)) in ground arith
          ]
      | no other ↦ ground arith
    ]

pub get-prepare : (size k : ℕ) → k ≤ size → get (bench_sieve_prepare size) k ≡ 1
unfolding bench_sieve_prepare set_holds
get-prepare size k le =
    let one = holds_upto-at set_holds 32 all_set (k % 32) (omega arith) in
    let word : bench_sieve_prepare size (k / 2 ^ 5) ≡ 0xffff_ffff = ground arith in
    get-bit_at (bench_sieve_prepare size) k
    ∙ ap (λ t. bit_at t (k % 32)) word
    ∙ (==_iff (bit_at 0xffff_ffff (k % 32)) 1).0 one
