-- ===== src/Microbench/Alloc.antt =====
-- bench_alloc of bench.c: blocks that are cleared, inside the heap, or an assertion that fails.
use nexus_am_ame.Base.{
  ℕ, zero, suc, ◌+◌, ◌-◌, ◌*◌, ◌/◌, ◌%◌, ◌^◌, ◌≤◌, ◌<◌, ◌≡◌, ◌⊎◌, inl, inr, refl, arith, true, leb,
  if◌then◌else◌, some, none, le→leb, lt→ltb, leb-false,
}
use nexus_am_ame.Klib.Memory.{Memory, store_bytes, store_bytes_at, byte_of, within}
use nexus_am_ame.Klib.Stdlib.{Area, roundup}
use nexus_am_ame.Klib.Stdlib.Heap.{rounded, roundup_lem}
use nexus_am_ame.Microbench.Bench.{Bench, clear_words, bench_alloc}
use native.Mathlib.Decide.{dec_lt}

byte_of_none : (i : ℕ) → byte_of 0 i ≡ 0
unfolding byte_of
byte_of_none zero = refl
byte_of_none (suc i) = byte_of_none i

abbrev Cleared : ℕ → ℕ → Memory → Memory → Type 0
Cleared p n m m' = (x : ℕ) → m' x ≡ (if within p n x then 0 else m x)

clear_words_lem :
    (left p : ℕ) (m : Memory)
    → p % 8 ≡ 0
    → (m' : Memory) × (clear_words left p m ≡ some m') × Cleared p (8 * left) m m'
unfolding clear_words
clear_words_lem zero p m aligned = (m, refl, λ x. ground arith)
clear_words_lem (suc left) p m aligned =
    let first = store_bytes 8 p 0 m in
    let (m', e, cleared) = clear_words_lem left (p + 8) first (omega arith) in
    (
      m',
      ground arith,
      λ x.
          let h = cleared x in
          let s = store_bytes_at 8 p 0 m x in let z = byte_of_none (x - p) in ground arith,
    )

-- From an aligned break not below the heap, for a size that can be rounded up and a block that ends
-- below 2 ^ 64: where the rounded block ends before the heap does and within the limit of memory, bench_alloc returns the break and moves it behind the block; every
-- byte of the block is 0, and every other byte as before. Where it ends behind the heap or above the
-- limit, an assertion halts the program.
pub bench_alloc_lem :
    (heap : Area) (mlim n : ℕ) (s : Bench)
    → s.hbrk % 8 ≡ 0
    → heap.start ≤ s.hbrk
    → s.hbrk + rounded n < 2 ^ 64
    → n + 7 < 2 ^ 64
    → ((s.hbrk + rounded n < heap.end)
        → (s.hbrk + rounded n - heap.start ≤ mlim)
        → (m : Memory) × (bench_alloc heap mlim n s
            ≡ some (s.hbrk, record { hbrk = s.hbrk + rounded n; mem = m }))
          × ((x : ℕ) → m x ≡ (if within s.hbrk (rounded n) x then 0 else s.mem x)))
      × ((heap.end ≤ s.hbrk + rounded n) ⊎ (mlim < s.hbrk + rounded n - heap.start)
          → bench_alloc heap mlim n s ≡ none)
unfolding bench_alloc
bench_alloc_lem heap mlim n s aligned low room small = (granted, refused)
  where
    size : roundup n ≡ rounded n
    size = roundup_lem n small

    moved : (s.hbrk + roundup n) % 2 ^ 64 ≡ s.hbrk + rounded n
    moved = omega (arith, size)

    count : (s.hbrk + rounded n + 2 ^ 64 - s.hbrk) % 2 ^ 64 / 8 ≡ (n + 7) / 8
    count = omega arith

    above : leb heap.start (s.hbrk + rounded n) ≡ true
    above = le→leb heap.start (s.hbrk + rounded n) (omega arith)

    granted :
        (s.hbrk + rounded n < heap.end)
        → (s.hbrk + rounded n - heap.start ≤ mlim)
        → (m : Memory) × (bench_alloc heap mlim n s
            ≡ some (s.hbrk, record { hbrk = s.hbrk + rounded n; mem = m }))
          × ((x : ℕ) → m x ≡ (if within s.hbrk (rounded n) x then 0 else s.mem x))
    granted fits limit =
        let (m, e, cleared) = clear_words_lem ((n + 7) / 8) s.hbrk s.mem aligned in
        (
          m,
          simp
              (
                moved,
                count,
                above,
                lt→ltb (s.hbrk + rounded n) heap.end fits,
                e,
                le→leb (s.hbrk + rounded n - heap.start) mlim limit,
              )
              refl,
          λ x. let h = cleared x in ground arith,
        )

    refused :
        (heap.end ≤ s.hbrk + rounded n) ⊎ (mlim < s.hbrk + rounded n - heap.start)
        → bench_alloc heap mlim n s ≡ none
    refused (inl full) = ground (arith, size)
    refused (inr over) = elim (dec_lt (s.hbrk + rounded n) heap.end) [
      | no full ↦ ground (arith, size)
      | yes fits ↦
          let (m, e, cleared) = clear_words_lem ((n + 7) / 8) s.hbrk s.mem aligned in
          simp
            (
              moved,
              count,
              above,
              lt→ltb (s.hbrk + rounded n) heap.end fits,
              e,
              leb-false (s.hbrk + rounded n - heap.start) mlim over,
            )
            refl
    ]
