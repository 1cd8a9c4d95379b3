-- ===== src/Klib/Block/Copied.antt =====
-- What a block copy is meant to do: the memory after it, byte by byte, and how copies of
-- adjacent blocks join.
use nexus_am_ame.Base.{ℕ, ◌+◌, ◌-◌, ◌≤◌, ◌≡◌, arith, ◌⊎◌, fun_ext, if◌then◌else◌}
use nexus_am_ame.Klib.Memory.{Memory, IsBytes, within}

-- The memory `m` after the `n` bytes from `s` are put at `d`.
abbrev pub copied : Memory → ℕ → ℕ → ℕ → Memory
copied m d s n x = if within d n x then m (s + (x - d)) else m x

-- The memory after the `n` bytes from `d` are made `c`.
abbrev pub filled : Memory → ℕ → ℕ → ℕ → Memory
filled m d n c x = if within d n x then c else m x

-- A copy upwards does not overwrite what it has yet to read.
abbrev pub IsForward : ℕ → ℕ → ℕ → Type 0
IsForward d s n = (d ≤ s) ⊎ (s + n ≤ d)

pub copied-IsBytes : (m : Memory) (d s n : ℕ) → IsBytes m → IsBytes (copied m d s n)
copied-IsBytes m d s n b x = ground (arith, b x, b (s + (x - d)))

pub copied_join :
    (m : Memory) (d s i n : ℕ)
    → IsForward d s (i + n)
    → copied (copied m d s i) (d + i) (s + i) n ≡ copied m d s (i + n)
copied_join m d s i n fwd = fun_ext λ x. ground (arith, offset x)
  where
    offset : (x : ℕ) → d + i ≤ x → s + i + (x - (d + i)) ≡ s + (x - d)
    offset x h = omega arith
