-- ===== src/Cputest.antt =====
-- tests/cputest: the sorting programs and the other programs of the directory.
pub mod Sort
pub mod Sorting
pub mod Programs
pub mod Primes
pub mod Depth
pub mod Bits
mod Tests
