-- ===== src/Microbench.antt =====
-- apps/microbench: the library of src/bench.c, and four of the benchmarks. A `size` is that of a
-- setting in include/benchmark.h, and so is a checksum.
pub mod Bench
pub mod Alloc
pub mod Qsort
pub mod Queen
pub mod Sieve
pub mod Fib
mod Tests
