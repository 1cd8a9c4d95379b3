-- ===== src/Klib/Stdlib/Heap.antt =====
-- malloc and free hand out the heap from its start to its end.
use nexus_am_ame.Base.{ℕ, ◌+◌, ◌-◌, ◌*◌, ◌/◌, ◌%◌, ◌^◌, ◌≤◌, ◌<◌, ◌≡◌, ◌≢◌, arith, refl, ◌∙◌}
use nexus_am_ame.Base.{
  Option, some, inl, inr, ◌>>=◌, ◌==◌, if◌then◌else◌, bit_and_low, bit_and_high,
}
use nexus_am_ame.Base.{List, [], ◌∷◌, leb, leb→le, Bool-cases}
use nexus_am_ame.Klib.Stdlib.{
  Allocator, Area, roundup, acquire, release, first_use, take_block, malloc, free,
}

-- The size that malloc sets aside: the next multiple of 8.
abbrev pub rounded : ℕ → ℕ
rounded n = (n + 7) / 8 * 8

pub roundup_lem : (n : ℕ) → n + 7 < 2 ^ 64 → roundup n ≡ rounded n
unfolding roundup
roundup_lem n h = ground (
  arith,
  bit_and_high 3 ((n + 8 - 1) % 2 ^ 64) (2 ^ 61 - 1),
  bit_and_low 61 ((n + 8 - 1) % 2 ^ 64 / 2 ^ 3),
)

-- The first byte that no block has taken.
abbrev pub frontier : Area → Allocator → ℕ
frontier heap st = if st.ptr == 0 then heap.start else st.ptr + st.size

-- The lock is free, and the last block lies in the heap.
pub record IsValid (heap : Area) (st : Allocator) : Type 0 where
  pub unlocked : st.malloc_lock ≡ 0
  pub unused : st.ptr ≡ 0 → st.size ≡ 0
  pub inside : frontier heap st ≤ heap.end
  pub nonzero : 0 < heap.start

module _ (heap : Area) (n : ℕ) (st : Allocator) (v : IsValid heap st)
    (fits : heap.end + rounded n < 2 ^ 64) where
  -- Where the request fits, malloc returns the frontier, which is not NULL, and records the block.
  malloc-some :
      frontier heap st + rounded n < heap.end
      → malloc heap n st
        ≡ some
            (frontier heap st, record { ptr = frontier heap st; size = rounded n; malloc_lock = 0 })
  unfolding malloc acquire release first_use take_block
  malloc-some h = ground (arith, roundup_lem n)

  malloc_none :
      heap.end ≤ frontier heap st + rounded n
      → malloc heap n st
        ≡ some (0, record { ptr = frontier heap st; size = st.size; malloc_lock = 0 })
  unfolding malloc acquire release first_use take_block
  malloc_none h = ground (arith, roundup_lem n)

-- One call of malloc on every path: where the rounded request ends before the heap does, the
-- result is the frontier and the block is recorded; otherwise the result is NULL. The lock is
-- free again in both cases.
pub malloc_lem :
    (heap : Area) (n : ℕ) (st : Allocator)
    → IsValid heap st
    → heap.end + rounded n < 2 ^ 64
    → malloc heap n st
      ≡ some (
          if leb heap.end (frontier heap st + rounded n)
          then (0, record { ptr = frontier heap st; size = st.size; malloc_lock = 0 })
          else (
            frontier heap st,
            record { ptr = frontier heap st; size = rounded n; malloc_lock = 0 },
          ))
malloc_lem heap n st v fits = elim (Bool-cases (leb heap.end (frontier heap st + rounded n))) [
  | inl full ↦ rw full (malloc_none heap n st v fits (leb→le _ _ full))
  | inr room ↦ rw room (malloc-some heap n st v fits (ground arith))
]

-- The requests of a program, in order, with the pointer that each returns.
abbrev pub mallocs : Area → List ℕ → Allocator → Option (List ℕ × Allocator)
mallocs heap [] st = some ([], st)
mallocs heap (n ∷ ns) st =
    malloc heap n st >>= λ r. mallocs heap ns r.1 >>= λ rs. some (r.0 ∷ rs.0, rs.1)

abbrev pub total : List ℕ → ℕ
total [] = 0
total (n ∷ ns) = rounded n + total ns

-- Blocks laid one behind the other from `f` on.
abbrev pub bump : ℕ → List ℕ → List ℕ
bump f [] = []
bump f (n ∷ ns) = f ∷ bump (f + rounded n) ns

-- After the block of `n` bytes at `f`.
abbrev pub taken : ℕ → ℕ → Allocator
taken f n = record { ptr = f; size = n; malloc_lock = 0 }

taken-IsValid :
    (heap : Area) (f n : ℕ)
    → 0 < heap.start
    → heap.start ≤ f
    → f + n ≤ heap.end
    → IsValid heap (taken f n)
taken-IsValid heap f n h p q = record {
  unlocked = refl;
  unused = λ e. absurd (omega arith);
  inside = ground arith;
  nonzero = h;
}

frontier-taken : (heap : Area) (f n : ℕ) → 0 < f → frontier heap (taken f n) ≡ f + n
frontier-taken heap f n h = ground arith

malloc_at :
    (heap : Area) (n f : ℕ) (st : Allocator)
    → IsValid heap st
    → heap.end + rounded n < 2 ^ 64
    → frontier heap st ≡ f
    → f + rounded n < heap.end
    → malloc heap n st ≡ some (f, taken f (rounded n))
malloc_at heap n f st v fits e room = ground (arith, malloc-some heap n st v fits)

mallocs_from :
    (ns : List ℕ) (heap : Area) (f : ℕ) (st : Allocator)
    → IsValid heap st
    → frontier heap st ≡ f
    → heap.start ≤ f
    → heap.end + total ns < 2 ^ 64
    → f + total ns < heap.end
    → (st' : Allocator) × (mallocs heap ns st ≡ some (bump f ns, st'))
      × IsValid heap st'
      × (frontier heap st' ≡ f + total ns)
mallocs_from [] heap f st v e low fits room = (st, refl, v, omega arith)
mallocs_from (n ∷ ns) heap f st v e low fits room =
    let (st', run, v', last) =
      mallocs_from ns heap (f + rounded n) (taken f (rounded n))
        (taken-IsValid heap f (rounded n) v.nonzero low (omega arith))
        (frontier-taken heap f (rounded n) (omega (arith, v.nonzero))) (omega arith) (omega arith)
        (omega arith) in
    (st', rw (malloc_at heap n f st v (omega arith) e (omega arith), run), v', omega arith)

-- Requests in a row, as long as the heap has room for all of them: malloc grants each, the blocks
-- lie one behind the other from the frontier on, so that no two of them overlap, and the
-- allocator stays well-formed.
pub mallocs-bump :
    (ns : List ℕ) (heap : Area) (st : Allocator)
    → IsValid heap st
    → heap.start ≤ frontier heap st
    → heap.end + total ns < 2 ^ 64
    → frontier heap st + total ns < heap.end
    → (st' : Allocator) × (mallocs heap ns st ≡ some (bump (frontier heap st) ns, st'))
      × IsValid heap st'
      × (frontier heap st' ≡ frontier heap st + total ns)
mallocs-bump ns heap st v low fits room =
    mallocs_from ns heap (frontier heap st) st v refl low fits room

free_last : (p n : ℕ) → free p (taken p n) ≡ some (taken p 0)
unfolding free acquire release
free_last p n = ground arith

-- Freeing the block that malloc has just returned gives it back: the next request that fits
-- gets the same address.
pub malloc-free-malloc :
    (heap : Area) (n k : ℕ) (st : Allocator)
    → IsValid heap st
    → heap.start ≤ frontier heap st
    → heap.end + rounded n < 2 ^ 64
    → heap.end + rounded k < 2 ^ 64
    → frontier heap st + rounded n < heap.end
    → frontier heap st + rounded k < heap.end
    → (p : ℕ) × (s1 : Allocator) × (s2 : Allocator) × (s3 : Allocator) × (malloc heap n st
        ≡ some (p, s1))
      × (free p s1 ≡ some s2)
      × (malloc heap k s2 ≡ some (p, s3))
malloc-free-malloc heap n k st v low fits fits' room room' =
    let f : ℕ = frontier heap st in
    (
      f,
      taken f (rounded n),
      taken f 0,
      taken f (rounded k),
      malloc_at heap n f st v fits refl room,
      free_last f (rounded n),
      malloc_at heap k f (taken f 0) (taken-IsValid heap f 0 v.nonzero low (omega arith)) fits'
          (frontier-taken heap f 0 (omega (arith, v.nonzero)) ∙ omega arith) room',
    )

-- Where the end of the block is not below that of the heap, malloc returns NULL.
refused :
    (heap : Area) (k f r : ℕ)
    → 0 < f
    → f + r + rounded k + 8 < 2 ^ 64
    → heap.end ≤ f + r + rounded k
    → malloc heap k (taken f r) ≡ some (0, taken (f + r) r)
unfolding malloc acquire release first_use take_block
refused heap k f r pos fits full = ground (arith, roundup_lem k)

-- Freeing any other pointer changes nothing: the block stays taken.
pub free_other : (p : ℕ) (st : Allocator) → st.malloc_lock ≡ 0 → p ≢ st.ptr → free p st ≡ some st
unfolding free acquire release
free_other p st h ne = ground arith

-- A request that fails has an effect: with a block of `r` bytes at `f` the last one taken, and `n`
-- bytes asked for and refused, the next call starts `r` bytes further on, so a request of `k`
-- bytes that would have been met is refused too.
pub malloc_failure_leaks :
    (heap : Area) (n k f r : ℕ)
    → 0 < heap.start
    → heap.start ≤ f
    → f + r ≤ heap.end
    → heap.end + r + r + rounded n + rounded k + 8 < 2 ^ 64
    → heap.end ≤ f + r + rounded n
    → f + r + rounded k < heap.end
    → heap.end ≤ f + r + r + rounded k
    → (malloc heap k (taken f r) ≡ some (f + r, taken (f + r) (rounded k)))
      × (malloc heap n (taken f r) ≡ some (0, taken (f + r) r))
      × (malloc heap k (taken (f + r) r) ≡ some (0, taken (f + r + r) r))
malloc_failure_leaks heap n k f r low inside in_heap fits full room leak = (
  malloc_at heap k (f + r) (taken f r) v (omega arith) e room,
  ground (arith, e, malloc_none heap n (taken f r) v (omega arith) (omega (arith, e))),
  second_failure,
)
  where
    v : IsValid heap (taken f r)
    v = taken-IsValid heap f r low inside in_heap

    e : frontier heap (taken f r) ≡ f + r
    e = frontier-taken heap f r (omega arith)

    second_failure : malloc heap k (taken (f + r) r) ≡ some (0, taken (f + r + r) r)
    second_failure = refused heap k (f + r) r (omega arith) (omega arith) (omega arith)
