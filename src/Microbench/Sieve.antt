-- ===== src/Microbench/Sieve.antt =====
-- apps/microbench/src/sieve/sieve.c, over an array of 32-bit words. An int is its 32 bits.
pub mod Marks
pub mod Rounds
pub mod Loop
pub mod Laws
use nexus_am_ame.Base.{
  ℕ, zero, suc, ◌+◌, ◌-◌, ◌*◌, ◌/◌, ◌%◌, ◌^◌, bit_and, Bool, true, false, ◌==◌, leb, if◌then◌else◌,
}
use nexus_am_ame.Arrays.{put}
use nexus_am_ame.Words.{int_less}

unfoldable pub get : (ℕ → ℕ) → ℕ → ℕ
get primes n = bit_and (primes (n / 2 ^ 5) / 2 ^ (n % 32)) 1

unfoldable pub clear : (ℕ → ℕ) → ℕ → ℕ → ℕ
clear primes n = put primes (n / 2 ^ 5) (bit_and (primes (n / 2 ^ 5)) (2 ^ 32 - 1 - 2 ^ (n % 32)))

-- bench_sieve_prepare; bench_alloc gives memory that is cleared.
unfoldable pub bench_sieve_prepare : ℕ → ℕ → ℕ
bench_sieve_prepare size i = if leb i (size / 32) then 0xffff_ffff else 0

-- The first loop: every number from `i` on is marked, `left` to go.
unfoldable pub all_marked : ℕ → ℕ → (ℕ → ℕ) → Bool
all_marked zero i primes = true
all_marked (suc left) i primes =
    let rest = all_marked left (i + 1) primes in if get primes i == 0 then false else rest

-- The loop over `j`, on fuel.
unfoldable pub clear_multiples : ℕ → ℕ → ℕ → ℕ → (ℕ → ℕ) → ℕ → ℕ
clear_multiples zero n i j primes = primes
clear_multiples (suc fuel) n i j primes =
    let rest = clear_multiples fuel n i ((j + i) % 2 ^ 32) (clear primes j) in
    if int_less n j then primes else rest

-- The loop over `i`, on fuel.
unfoldable pub sieve_from : ℕ → ℕ → ℕ → (ℕ → ℕ) → ℕ → ℕ
sieve_from zero n i primes = primes
sieve_from (suc fuel) n i primes =
    let rest =
      sieve_from fuel n (i + 1)
        (if get primes i == 0 then primes else clear_multiples n n i ((i + i) % 2 ^ 32) primes) in
    if int_less n (i * i % 2 ^ 32) then primes else rest

-- The last loop.
unfoldable pub count_from : ℕ → ℕ → (ℕ → ℕ) → ℕ → ℕ
count_from zero i primes ans = ans
count_from (suc left) i primes ans =
    count_from left (i + 1) primes (if get primes i == 0 then ans else ans + 1)

-- `ans` is 0 before. The loops move on by 1 at least as long as no int overflows, so the fuel
-- is enough.
unfoldable pub bench_sieve_run : ℕ → (ℕ → ℕ) → ℕ
bench_sieve_run n primes =
    if all_marked n 1 primes then count_from (n - 1) 2 (sieve_from n n 2 primes) 0 else 0
