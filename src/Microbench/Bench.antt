-- ===== src/Microbench/Bench.antt =====
-- The library of apps/microbench/src/bench.c: memory, random numbers, checksums and scores.
use nexus_am_ame.Base.{
  ℕ, zero, suc, ◌+◌, ◌-◌, ◌*◌, ◌/◌, ◌%◌, ◌^◌, bit_and, bit_xor, Bool, ◌&&◌, ◌==◌, ltb, leb,
  if◌then◌else◌, Option, some, ◌>>=◌, guard,
}
use nexus_am_ame.Klib.Memory.{Memory, store}
use nexus_am_ame.Klib.Stdlib.{Area, roundup}
use nexus_am_ame.Words.{arith_shift}

-- `hbrk`, and the memory.
pub record Bench : Type 0 where
  pub hbrk : ℕ
  pub mem : Memory

unfoldable pub bench_reset : Area → Bench → Bench
bench_reset heap s = record s { hbrk = roundup heap.start }

-- `none` for the message.
unfoldable pub bench_check : Area → ℕ → Bool
bench_check heap mlim = leb mlim (heap.end - heap.start)

-- The loop that clears, with `left` words to go from `p` on.
unfoldable pub clear_words : ℕ → ℕ → Memory → Option Memory
clear_words zero p m = some m
clear_words (suc left) p m = store 8 p 0 m >>= λ m'. clear_words left (p + 8) m'

-- The old `hbrk` and the state. An assertion that fails halts the program: `none`.
unfoldable pub bench_alloc : Area → ℕ → ℕ → Bench → Option (ℕ × Bench)
bench_alloc heap mlim size s =
    let size' = roundup size in
    let hbrk' = (s.hbrk + size') % 2 ^ 64 in
    guard (leb heap.start hbrk' && ltb hbrk' heap.end) (
      clear_words ((hbrk' + 2 ^ 64 - s.hbrk) % 2 ^ 64 / 8) s.hbrk s.mem >>= λ m.
      guard (leb (hbrk' - heap.start) mlim) (some (s.hbrk, record { hbrk = hbrk'; mem = m })))

unfoldable pub bench_srand : ℕ → ℕ
bench_srand seed = bit_and seed 0x7fff

-- The number, and `seed` after it.
unfoldable pub bench_rand : ℕ → ℕ × ℕ
bench_rand seed =
    let next = (seed * 214013 + 2531011) % 2 ^ 32 in (bit_and (next / 2 ^ 16) 0x7fff, next)

unfoldable pub hash_byte : ℕ → ℕ → ℕ
hash_byte h1 byte = bit_xor h1 byte * 16777619 % 2 ^ 32

-- The loop of checksum on fuel, for bytes from `p` to `end`.
unfoldable pub hash_words : ℕ → ℕ → ℕ → ℕ → Memory → ℕ
hash_words zero p end h1 m = h1
hash_words (suc fuel) p end h1 m =
    let next =
      hash_byte (hash_byte (hash_byte (hash_byte h1 (m p)) (m (p + 1))) (m (p + 2))) (m (p + 3)) in
    let rest = hash_words fuel (p + 4) end next m in if ltb (p + 4) end then rest else h1

unfoldable pub mix : ℕ → ℕ
mix h0 =
    let h1 = (h0 + h0 * 2 ^ 13) % 2 ^ 32 in
    let h2 = bit_xor h1 (arith_shift h1 7) in
    let h3 = (h2 + h2 * 2 ^ 3) % 2 ^ 32 in
    let h4 = bit_xor h3 (arith_shift h3 17) in (h4 + h4 * 2 ^ 5) % 2 ^ 32

-- Each round moves 4 bytes on, so the fuel is enough.
unfoldable pub checksum : ℕ → ℕ → Memory → ℕ
checksum start end m = mix (hash_words (end - start) start end 2166136261 m)

-- `REF_SCORE / 1000 * ref / msec`
unfoldable pub score : ℕ → ℕ → ℕ
score ref msec = if msec == 0 then 0 else 100000 / 1000 * ref % 2 ^ 64 / msec
