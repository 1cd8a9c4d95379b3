-- ===== src/Klib/Stdlib.antt =====
-- rand, srand, abs, atoi, malloc and free of libs/klib/src/stdlib.c. An `int` is its bit pattern
-- of 32 bits. The messages that malloc prints are left out.
pub mod Random
pub mod Numbers
pub mod Heap
use nexus_am_ame.Base.{ℕ, zero, suc, ◌+◌, ◌-◌, ◌*◌, ◌/◌, ◌%◌, ◌^◌, true, false, ◌&&◌, bit_and}
use nexus_am_ame.Base.{Option, none, some, leb, ltb, ◌==◌, if◌then◌else◌, ◌>>=◌, guard}
use nexus_am_ame.Klib.Memory.{Memory}

-- The number, and the state `next` behind it.
pub rand : ℕ → ℕ × ℕ
rand next =
    let next' = (next * 1103515245 + 12345) % 2 ^ 64 in (next' / 65536 % 2 ^ 32 % 32768, next')

pub srand : ℕ → ℕ
srand seed = seed

pub abs : ℕ → ℕ
abs x = if leb (2 ^ 31) x then (2 ^ 32 - x) % 2 ^ 32 else x

-- `while (*nptr == ' ') nptr ++;`
pub skip_spaces : ℕ → ℕ → Memory → Option ℕ
skip_spaces zero p m = none
skip_spaces (suc fuel) p m = elim (m p == b' ') [
  | true ↦ skip_spaces fuel (p + 1) m
  | false ↦ some p
]

pub read_digits : ℕ → ℕ → ℕ → Memory → Option ℕ
read_digits zero x p m = none
read_digits (suc fuel) x p m = elim (leb b'0' (m p) && leb (m p) b'9') [
  | true ↦ read_digits fuel ((x * 10 + m p + 2 ^ 32 - b'0') % 2 ^ 32) (p + 1) m
  | false ↦ some x
]

pub atoi : ℕ → ℕ → Memory → Option ℕ
atoi fuel nptr m = skip_spaces fuel nptr m >>= λ p. read_digits fuel 0 p m

-- `last` and `malloc_lock`.
pub record Allocator : Type 0 where
  pub ptr : ℕ
  pub size : ℕ
  pub malloc_lock : ℕ

-- lock: `none` if the lock is held, where a lone hart would spin for ever.
pub acquire : Allocator → Option Allocator
acquire st = guard (st.malloc_lock == 0) (some (record st { malloc_lock = 1 }))

pub release : Allocator → Allocator
release st = record st { malloc_lock = 0 }

-- ROUNDUP(a, 8)
pub roundup : ℕ → ℕ
roundup a = bit_and ((a + 8 - 1) % 2 ^ 64) (2 ^ 64 - 8)

-- `_heap`
pub record Area : Type 0 where
  pub start : ℕ
  pub end : ℕ

pub first_use : Area → Allocator → Allocator
first_use heap st = if st.ptr == 0 then record st { ptr = heap.start } else st

-- The result 0 is NULL.
pub take_block : Area → ℕ → Allocator → ℕ × Allocator
take_block heap size st =
    let ptr = (st.ptr + st.size) % 2 ^ 64 in
    if leb heap.end ((ptr + size) % 2 ^ 64)
    then (0, release (record st { ptr = ptr }))
    else (ptr, release (record st { ptr = ptr; size = size }))

pub malloc : Area → ℕ → Allocator → Option (ℕ × Allocator)
malloc heap size st =
    acquire st >>= λ st'. some (take_block heap (roundup size) (first_use heap st'))

pub free : ℕ → Allocator → Option Allocator
free ptr st =
    acquire st >>= λ st'. some (release (if ptr == st'.ptr then record st' { size = 0 } else st'))
