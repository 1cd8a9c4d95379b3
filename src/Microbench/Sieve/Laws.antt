-- ===== src/Microbench/Sieve/Laws.antt =====
-- The sieve leaves the marks of the primes, and counts them.
use nexus_am_ame.Base.{
  ℕ, zero, suc, ◌+◌, ◌-◌, ◌*◌, ◌≤◌, ◌<◌, ◌≡◌, ◌≢◌, inl, inr, refl, sym, ap, ◌∙◌, arith, true, not,
  ◌==◌, if◌then◌else◌, Bool-cases,
}
use nexus_am_ame.Cputest.Programs.Goldbach.{is_prime}
use nexus_am_ame.Cputest.Primes.{IsPrime, is_prime-IsPrime}
use nexus_am_ame.Microbench.Sieve.{
  get, bench_sieve_prepare, all_marked, sieve_from, count_from, bench_sieve_run,
}
use nexus_am_ame.Microbench.Sieve.Marks.{get-prepare}
use nexus_am_ame.Microbench.Sieve.Rounds.{Crossed, small_divisor}
use nexus_am_ame.Microbench.Sieve.Loop.{sieve_from_lem}
use native.Mathlib.Decide.{ℕ_discrete}

-- The number of primes up to `n`.
abbrev pub primes_upto : ℕ → ℕ
primes_upto zero = 0
primes_upto (suc n) = primes_upto n + (if is_prime (suc n) then 1 else 0)

-- At the end of the rounds a number is marked exactly if it is a prime.
prime_mark :
    (n j : ℕ) (primes : ℕ → ℕ) (k : ℕ)
    → Crossed n j primes
    → n < j * j
    → 2 ≤ k
    → k ≤ n
    → (get primes k == 0) ≡ not (is_prime k)
prime_mark n j primes k c big tk kn = elim (ℕ_discrete (get primes k) 0) [
  | yes z ↦ elim (Bool-cases (is_prime k)) [
    | inr composite ↦ ground arith
    | inl prime ↦
        let (d, td, dj, dk, e) = c.sound k tk kn z in
        absurd (((is_prime-IsPrime k).0 prime).1 d td dk e)
  ]
  | no nz ↦
      let prime : IsPrime k =
        (tk, λ d td dk e. nz (c.complete k tk kn (small_divisor n j k d big kn tk td dk e))) in
      let accepted = (is_prime-IsPrime k).1 prime in ground arith
]

count_from_lem :
    (left m n ans : ℕ) (primes : ℕ → ℕ)
    → m + left ≡ n
    → 1 ≤ m
    → ans ≡ primes_upto m
    → ((k : ℕ) → 2 ≤ k → k ≤ n → (get primes k == 0) ≡ not (is_prime k))
    → count_from left (suc m) primes ans ≡ primes_upto n
unfolding count_from
count_from_lem zero m n ans primes e pos start marks =
    let same : m ≡ n = omega arith in start ∙ ap primes_upto same
count_from_lem (suc left) m n ans primes e pos start marks =
    let here = marks (suc m) (omega arith) (omega arith) in
    let next : suc m + 1 ≡ suc (suc m) = omega arith in
    let more : (if get primes (suc m) == 0 then ans else ans + 1) ≡ primes_upto (suc m) =
      ground arith in
    ap (λ i. count_from left i primes (if get primes (suc m) == 0 then ans else ans + 1)) next
    ∙ count_from_lem left (suc m) n (if get primes (suc m) == 0 then ans else ans + 1) primes
        (omega arith) (omega arith) more marks

all_marked_lem :
    (left i : ℕ) (primes : ℕ → ℕ)
    → ((k : ℕ) → k < i + left → get primes k ≡ 1)
    → all_marked left i primes ≡ true
unfolding all_marked
all_marked_lem zero i primes h = refl
all_marked_lem (suc left) i primes h =
    let rest = all_marked_lem left (i + 1) primes (λ k lt. h k (omega arith)) in
    let here = h i (omega arith) in ground arith

fresh_Crossed : (n : ℕ) → Crossed n 2 (bench_sieve_prepare n)
fresh_Crossed n = record {
  sound = λ k tk kn e. absurd (marked k kn e);
  complete = λ k tk kn d. absurd (none_below d.1 d.2);
}
  where
    marked : (k : ℕ) → k ≤ n → get (bench_sieve_prepare n) k ≢ 0
    marked k kn e = let one = get-prepare n k kn in ground arith

    none_below : {d : ℕ} → 2 ≤ d → ¬ (d < 2)
    none_below a b = omega arith

one_is_none : primes_upto 1 ≡ 0
unfolding is_prime
one_is_none = refl

-- For every size below 46340 * 46340, where no int of the program overflows, the sieve, run on the array that it prepares, ends with the number of primes up to
-- the size.
pub bench_sieve_run_lem :
    (n : ℕ) → n < 46340 * 46340 → bench_sieve_run n (bench_sieve_prepare n) ≡ primes_upto n
unfolding bench_sieve_run count_from
bench_sieve_run_lem n int_n =
    ap (λ b. if b then count_from (n - 1) 2 (sieve_from n n 2 (bench_sieve_prepare n)) 0 else 0)
      (all_marked_lem n 1 (bench_sieve_prepare n) (λ k lt. get-prepare n k (omega arith)))
    ∙ counted n int_n
  where
    counted :
        (n : ℕ)
        → n < 46340 * 46340
        → count_from (n - 1) 2 (sieve_from n n 2 (bench_sieve_prepare n)) 0 ≡ primes_upto n
    counted zero int_n = refl
    counted (suc m) int_n =
        let n : ℕ = suc m in
        let (j, big, c) =
          sieve_from_lem n n 2 (bench_sieve_prepare n) (omega arith) (omega arith) int_n
            (omega arith) (fresh_Crossed n) in
        count_from_lem (n - 1) 1 n 0 (sieve_from n n 2 (bench_sieve_prepare n)) (omega arith)
          (omega arith) (sym one_is_none)
          (λ k tk kn. prime_mark n j (sieve_from n n 2 (bench_sieve_prepare n)) k c big tk kn)
