-- ===== src/Microbench/Tests.antt =====
-- The benchmarks with the settings of mainargs "test".
use nexus_am_ame.Base.{
  ℕ, ◌+◌, ◌⊎◌, ◌<◌, ◌≤◌, ◌-◌, none, if◌then◌else◌, arith, ℕ, ◌≡◌, refl, true, some, ◌>>=◌,
}
use nexus_am_ame.Arrays.{Rearranges, Sorted}
use nexus_am_ame.Klib.Memory.{Memory, within}
use nexus_am_ame.Klib.Stdlib.{Area}
use nexus_am_ame.Klib.Stdlib.Heap.{rounded}
use nexus_am_ame.Microbench.Alloc.{bench_alloc_lem}
use nexus_am_ame.Microbench.Sieve.Laws.{primes_upto, bench_sieve_run_lem}
use nexus_am_ame.Microbench.Qsort.Laws.{myqsort_lem}
use nexus_am_ame.Cputest.Sorting.{int_order}
use nexus_am_ame.Microbench.Bench
use nexus_am_ame.Microbench.Qsort
use nexus_am_ame.Microbench.Queen
use nexus_am_ame.Microbench.Sieve
use nexus_am_ame.Microbench.Fib

qsort_passes :
    (Qsort.myqsort 100 0 100 (Qsort.bench_qsort_prepare 100) >>= λ d.
    some (Qsort.bench_qsort_validate 100 0x08467105 d))
    ≡ some true
unfolding Qsort.myqsort Qsort.divide Qsort.fill Qsort.bench_qsort_prepare Qsort.bench_qsort_validate
    Bench.bench_srand Bench.bench_rand Bench.checksum Bench.hash_words Bench.hash_byte Bench.mix
    int_order
qsort_passes = refl

queen_passes : Queen.bench_queen_run 8 ≡ some 0x5c
unfolding Queen.bench_queen_run Queen.dfs Queen.choose
queen_passes = refl

sieve_passes : Sieve.bench_sieve_run 100 (Sieve.bench_sieve_prepare 100) ≡ 0x19
unfolding Sieve.bench_sieve_run Sieve.bench_sieve_prepare Sieve.count_from Sieve.sieve_from
    Sieve.clear_multiples Sieve.all_marked Sieve.clear Sieve.get
sieve_passes = refl

fib_passes : Fib.bench_fib_run 2 ≡ 0x7cfeddf0
unfolding Fib.bench_fib_run Fib.powers Fib.assign Fib.mult Fib.each_place Fib.add_products
fib_passes = refl

myqsort_lem_example :
    (b : ℕ → ℕ) × (Qsort.myqsort 101 0 100 (Qsort.bench_qsort_prepare 100) ≡ some b)
    × Rearranges 0 99 (Qsort.bench_qsort_prepare 100) b
    × Sorted 0 99 b
myqsort_lem_example = myqsort_lem 101 0 100 (Qsort.bench_qsort_prepare 100) (omega arith)

abbrev heap : Area
heap = record { start = 0x1000; end = 0x2000 }

abbrev fresh : Bench.Bench
fresh = record { hbrk = 0x1000; mem = λ a. 7 }

bench_alloc_lem_example :
    ((0x1000 + rounded 20 < 0x2000)
      → (0x1000 + rounded 20 - 0x1000 ≤ 1024)
      → (m : Memory) × (Bench.bench_alloc heap 1024 20 fresh
          ≡ some (0x1000, record { hbrk = 0x1000 + rounded 20; mem = m }))
        × ((x : ℕ) → m x ≡ (if within 0x1000 (rounded 20) x then 0 else 7)))
    × ((0x2000 ≤ 0x1000 + rounded 20) ⊎ (1024 < 0x1000 + rounded 20 - 0x1000)
        → Bench.bench_alloc heap 1024 20 fresh ≡ none)
bench_alloc_lem_example =
    bench_alloc_lem heap 1024 20 fresh (omega arith) (omega arith) (omega arith) (omega arith)

bench_sieve_run_lem_example :
    Sieve.bench_sieve_run 100 (Sieve.bench_sieve_prepare 100) ≡ primes_upto 100
bench_sieve_run_lem_example = bench_sieve_run_lem 100 (omega arith)
