-- ===== src/Cputest/Primes.antt =====
-- goldbach.c of tests/cputest/tests: is_prime and goldbach decide what their names say.
use nexus_am_ame.Base.{
  ℕ, zero, suc, ◌+◌, ◌-◌, ◌%◌, ◌≤◌, ◌<◌, ◌≡◌, ◌≢◌, ◌↔◌, inl, inr, refl, subst, arith, true, ◌&&◌,
  Bool-cases, &&-both,
}
use nexus_am_ame.Cputest.Programs.Goldbach.{no_divisor, is_prime, sum_of_primes, goldbach}
use native.Mathlib.Decide.{ℕ_discrete}

abbrev pub IsPrime : ℕ → Type 0
IsPrime n = (2 ≤ n) × ((d : ℕ) → 2 ≤ d → d < n → n % d ≢ 0)

no_divisor_sound :
    (left i n : ℕ) → no_divisor left i n ≡ true → (d : ℕ) → i ≤ d → d < i + left → n % d ≢ 0
unfolding no_divisor
no_divisor_sound zero i n h d lo hi = absurd (omega arith)
no_divisor_sound (suc left) i n h d lo hi = elim (ℕ_discrete d i) [
  | yes e ↦ λ z. let z' : n % i ≡ 0 = subst (λ (t : ℕ). n % t ≡ 0) e z in ground arith
  | no ne ↦ no_divisor_sound left (i + 1) n (ground arith) d (omega arith) (omega arith)
]

no_divisor_complete :
    (left i n : ℕ) → ((d : ℕ) → i ≤ d → d < i + left → n % d ≢ 0) → no_divisor left i n ≡ true
unfolding no_divisor
no_divisor_complete zero i n h = refl
no_divisor_complete (suc left) i n h =
    let rest = no_divisor_complete left (i + 1) n (λ d lo hi. h d (omega arith) (omega arith)) in
    let here = h i (omega arith) (omega arith) in ground arith

pub is_prime-IsPrime : (n : ℕ) → (is_prime n ≡ true) ↔ IsPrime n
unfolding is_prime
is_prime-IsPrime n = (sound, complete)
  where
    sound : is_prime n ≡ true → IsPrime n
    sound h =
        let big : 2 ≤ n = ground arith in
        (big, λ d lo hi. no_divisor_sound (n - 2) 2 n (ground arith) d lo (omega arith))

    complete : IsPrime n → is_prime n ≡ true
    complete (big, h) =
        let all = no_divisor_complete (n - 2) 2 n (λ d lo hi. h d lo (omega arith)) in ground arith

abbrev SumFrom : ℕ → ℕ → ℕ → Type 0
SumFrom left i n =
    (p : ℕ) × (i ≤ p) × (p < i + left) × (is_prime p ≡ true) × (is_prime (n - p) ≡ true)

sum_of_primes_sound : (left i n : ℕ) → sum_of_primes left i n ≡ true → SumFrom left i n
unfolding sum_of_primes
sum_of_primes_sound zero i n h = cc
sum_of_primes_sound (suc left) i n h = elim (Bool-cases (is_prime i && is_prime (n - i))) [
  | inl found ↦
      let (a, b) = &&-both (is_prime i) (is_prime (n - i)) found in
      (i, omega arith, omega arith, a, b)
  | inr not_here ↦
      let (p, lo, hi, a, b) = sum_of_primes_sound left (i + 1) n (ground arith) in
      (p, omega arith, omega arith, a, b)
]

sum_of_primes_complete : (left i n : ℕ) → SumFrom left i n → sum_of_primes left i n ≡ true
unfolding sum_of_primes
sum_of_primes_complete zero i n (p, lo, hi, a, b) = absurd (omega arith)
sum_of_primes_complete (suc left) i n (p, lo, hi, a, b) = elim (ℕ_discrete p i) [
  | yes e ↦
      let a' = subst (λ t. is_prime t ≡ true) e a in
      let b' = subst (λ (t : ℕ). is_prime (n - t) ≡ true) e b in ground arith
  | no ne ↦
      let rest = sum_of_primes_complete left (i + 1) n (p, omega arith, omega arith, a, b) in
      ground arith
]

-- goldbach accepts a number exactly when it is the sum of two primes.
pub goldbach_lem :
    (n : ℕ) → (goldbach n ≡ true) ↔ ((p : ℕ) × (q : ℕ) × IsPrime p × IsPrime q × (p + q ≡ n))
unfolding goldbach
goldbach_lem n = (sound, complete)
  where
    sound : goldbach n ≡ true → (p : ℕ) × (q : ℕ) × IsPrime p × IsPrime q × (p + q ≡ n)
    sound h =
        let (p, lo, hi, a, b) = sum_of_primes_sound (n - 2) 2 n h in
        let q_prime = (is_prime-IsPrime (n - p)).0 b in
        (p, n - p, (is_prime-IsPrime p).0 a, q_prime, omega (arith, q_prime.0))

    complete : (p : ℕ) × (q : ℕ) × IsPrime p × IsPrime q × (p + q ≡ n) → goldbach n ≡ true
    complete (p, q, a, b, e) =
        let same : q ≡ n - p = omega arith in
        sum_of_primes_complete (n - 2) 2 n (
          p,
          a.0,
          omega (arith, a.0, b.0),
          (is_prime-IsPrime p).1 a,
          subst (λ t. is_prime t ≡ true) same ((is_prime-IsPrime q).1 b),
        )
