-- ===== src/Cputest/Programs/Goldbach.antt =====
-- goldbach.c of tests/cputest/tests.
use nexus_am_ame.Base.{
  ℕ, zero, suc, ◌+◌, ◌-◌, ◌*◌, ◌%◌, Bool, true, false, ◌&&◌, ◌==◌, ltb, if◌then◌else◌, Option, some,
  guard, holds_upto,
}

-- The loop of is_prime from `i` on, with `left` = n - i.
unfoldable pub no_divisor : ℕ → ℕ → ℕ → Bool
no_divisor zero i n = true
no_divisor (suc left) i n =
    let rest = no_divisor left (i + 1) n in if n % i == 0 then false else rest

unfoldable pub is_prime : ℕ → Bool
is_prime n = if ltb n 2 then false else no_divisor (n - 2) 2 n

-- The loop of goldbach from `i` on, with `left` = n - i.
unfoldable pub sum_of_primes : ℕ → ℕ → ℕ → Bool
sum_of_primes zero i n = false
sum_of_primes (suc left) i n =
    let rest = sum_of_primes left (i + 1) n in if is_prime i && is_prime (n - i) then true else rest

unfoldable pub goldbach : ℕ → Bool
goldbach n = sum_of_primes (n - 2) 2 n

unfoldable pub main : Option ℕ
main = guard (holds_upto (λ k. goldbach (4 + 2 * k)) 14) (some 0)
