-- ===== src/Microbench/Qsort.antt =====
-- apps/microbench/src/qsort/qsort.c.
pub mod Divide
pub mod Laws
use nexus_am_ame.Base.{
  ℕ, zero, suc, ◌+◌, ◌-◌, ◌*◌, ◌/◌, ◌%◌, ◌^◌, bit_or, Bool, true, false, ◌==◌, ltb, leb,
  if◌then◌else◌, Option, some, none, ◌>>=◌, guard,
}
use nexus_am_ame.Arrays.{Order, put, swap}
use nexus_am_ame.Microbench.Bench.{bench_srand, bench_rand, checksum}

-- The loop of bench_qsort_prepare, with `left` entries to go from `i` on.
unfoldable pub fill : ℕ → ℕ → ℕ → (ℕ → ℕ) → ℕ → ℕ
fill zero i seed values = values
fill (suc left) i seed values =
    let a = bench_rand seed in
    let b = bench_rand a.1 in
    fill left (i + 1) b.1 (put values i (bit_or (a.0 * 2 ^ 16 % 2 ^ 32) b.0))

-- bench_alloc gives memory that is cleared.
unfoldable pub bench_qsort_prepare : ℕ → ℕ → ℕ
bench_qsort_prepare size = fill size 0 (bench_srand 1) (λ i. 0)

module _ {ℓ} {A : Type ℓ} ⦃o : Order A⦄ where
  open o use {gt}

  -- The loop of myqsort, with `left` = r - j: `pivot` and the array at its end.
  unfoldable pub divide : ℕ → ℕ → A → ℕ → (ℕ → A) → ℕ × (ℕ → A)
  divide zero j p pivot a = (pivot, a)
  divide (suc left) j p pivot a =
      let less = gt p (a j) in
      divide left (j + 1) p (if less then pivot + 1 else pivot)
        (if less then swap a (pivot + 1) j else a)

  -- myqsort, on fuel for the depth of its calls.
  unfoldable pub myqsort : ℕ → ℕ → ℕ → (ℕ → A) → Option (ℕ → A)
  myqsort zero l r a = none
  myqsort (suc fuel) l r a =
      let d = divide (r - (l + 1)) (l + 1) (a l) l a in
      let sorted = myqsort fuel l d.0 (swap d.1 d.0 l) >>= λ b. myqsort fuel (d.0 + 1) r b in
      if ltb l r then sorted else some a

-- The bytes of an array of ints at the address 0.
abbrev pub bytes_of : (ℕ → ℕ) → ℕ → ℕ
bytes_of values i = values (i / 4) / 2 ^ (8 * (i % 4)) % 256

unfoldable pub bench_qsort_validate : ℕ → ℕ → (ℕ → ℕ) → Bool
bench_qsort_validate size expected values = checksum 0 (4 * size) (bytes_of values) == expected
