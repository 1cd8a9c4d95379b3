-- ===== src/Klib/Tests.antt =====
-- Runs of the functions of libs/klib, and its theorems at concrete inputs.
use nexus_am_ame.Base.{ℕ, ◌+◌, ◌%◌, ◌<◌, ◌≡◌, ◌↔◌, refl, arith, [], ◌∷◌, get_or, some}
use nexus_am_ame.Base.{pos, ◌⊎◌, inl, ◌^◌}
use nexus_am_ame.Klib.Memory.{Memory, IsBytes}
use nexus_am_ame.Klib.Block.{memcpy, memmove, memset}
use nexus_am_ame.Klib.Block.Copied.{copied, filled}
use nexus_am_ame.Klib.Block.Moves.{memmove-copied, memcpy-copied}
use nexus_am_ame.Klib.Block.Fill.{memset-filled}
use nexus_am_ame.Klib.Strings.{strcmp}
use nexus_am_ame.Klib.Strings.Laws.{SameBytes}
use nexus_am_ame.Klib.Strings.Equal.{strcmp-zero_iff}
use nexus_am_ame.Klib.Stdlib.{abs, Allocator, Area, malloc}
use nexus_am_ame.Klib.Stdlib.Numbers.{abs_lem}
use nexus_am_ame.Klib.Stdlib.Heap.{frontier, rounded, taken, IsValid, mallocs, bump}
use nexus_am_ame.Klib.Stdlib.Heap.{mallocs-bump, malloc_failure_leaks}

-- Each address holds its own low byte.
abbrev counting : Memory
counting a = a % 256

counting-IsBytes : IsBytes counting
counting-IsBytes a = omega arith

-- "ab", "abc" and " 42x".
abbrev texts : Memory
texts a =
    get_or (97 ∷ 98 ∷ 0 ∷ 0 ∷ 0 ∷ 0 ∷ 0 ∷ 0 ∷ 97 ∷ 98 ∷ 99 ∷ 0 ∷ 32 ∷ 52 ∷ 50 ∷ 120 ∷ 0 ∷ []) a 0

abbrev heap : Area
heap = record { start = 0x1000; end = 0x2000 }

abbrev fresh : Allocator
fresh = record { ptr = 0; size = 0; malloc_lock = 0 }

fresh-IsValid : IsValid heap fresh
fresh-IsValid = record {
  unlocked = refl;
  unused = λ e. refl;
  inside = omega arith;
  nonzero = omega arith;
}

memmove-copied_example : memmove 1008 1000 40 counting ≡ some (copied counting 1008 1000 40)
memmove-copied_example =
    memmove-copied counting 1008 1000 40 counting-IsBytes (omega arith) (omega arith)

memcpy-copied_example : memcpy 1000 1008 70 counting ≡ some (copied counting 1000 1008 70)
memcpy-copied_example =
    memcpy-copied counting 1000 1008 70 counting-IsBytes (inl (omega arith)) (omega arith)
      (omega arith)

memset-filled_example : memset 1003 0x141 70 counting ≡ some (filled counting 1003 70 0x41)
memset-filled_example = memset-filled counting 1003 0x141 70

strcmp-zero_iff_example :
    (strcmp 10 0 8 texts ≡ some (pos 0)) ↔ (◌≡◌ {A = ℕ} 2 3 × SameBytes texts 0 8 2)
strcmp-zero_iff_example = strcmp-zero_iff 2 3 10 0 8 texts (omega arith) (omega arith) (omega arith)

abs_lem_example :
    (abs 0xffff_fffe < 2 ^ 31)
    × ((abs 0xffff_fffe ≡ 0xffff_fffe) ⊎ (abs 0xffff_fffe + 0xffff_fffe ≡ 2 ^ 32))
abs_lem_example = abs_lem 0xffff_fffe (omega arith) (omega arith)

mallocs-bump_example :
    (st' : Allocator) × (mallocs heap (13 ∷ 8 ∷ 1 ∷ []) fresh
      ≡ some (bump 0x1000 (13 ∷ 8 ∷ 1 ∷ []), st'))
    × IsValid heap st'
    × (frontier heap st' ≡ 0x1020)
mallocs-bump_example =
    mallocs-bump (13 ∷ 8 ∷ 1 ∷ []) heap fresh fresh-IsValid (omega arith) (omega arith)
      (omega arith)

malloc_failure_leaks_example :
    (malloc heap 0x400 (taken 0x1000 0x800) ≡ some (0x1800, taken 0x1800 (rounded 0x400)))
    × (malloc heap 0x1000 (taken 0x1000 0x800) ≡ some (0, taken 0x1800 0x800))
    × (malloc heap 0x400 (taken 0x1800 0x800) ≡ some (0, taken 0x2000 0x800))
malloc_failure_leaks_example =
    malloc_failure_leaks heap 0x1000 0x400 0x1000 0x800 (omega arith) (omega arith) (omega arith)
      (omega arith) (omega arith) (omega arith) (omega arith)
