-- ===== src/Klib/Atomic/Tests.antt =====
-- Two harts that want the lock at once, and the theorems there.
use nexus_am_ame.Base.{ℕ, ◌≡◌, ◌≢◌, refl, false, arith}
use nexus_am_ame.Klib.Atomic.{
  Lock, Steps, loading, inside, locks, loads, compares, stores, fails, checks, done, next, unlocked,
  load_reserved, compare_old, store_conditional, store_failed, check_result, move,
}
use nexus_am_ame.Klib.Atomic.Exclusion.{owns, lock-release}
use nexus_am_ame.Klib.Atomic.Progress.{OwnSteps, lock-progress}

-- Both call lock.
abbrev called : Lock
called = move 1 loading (move 0 loading unlocked)

called-Steps : Steps unlocked called
called-Steps = next (next done (locks 0 refl)) (locks 1 refl)

-- Both have read 0 and are before their `sc.d`.
abbrev both : Lock
both = compare_old 1 0 (compare_old 0 0 (load_reserved 0 (load_reserved 1 called)))

-- Hart 0 wins, and the `sc.d` of hart 1 fails.
abbrev one_inside : Lock
one_inside = store_failed 1 (check_result 0 0 (store_conditional 0 both))

both-Steps : Steps unlocked both
unfolding load_reserved compare_old
both-Steps =
    next (next (next (next called-Steps (loads 1 refl)) (loads 0 refl)) (compares 0 0 refl))
      (compares 1 0 refl)

one_inside-Steps : Steps unlocked one_inside
unfolding load_reserved compare_old store_conditional check_result store_failed
one_inside-Steps =
    next (next (next both-Steps (stores 0 refl refl)) (checks 0 0 refl)) (fails 1 refl)

-- Hart 1 has lost its reservation.
reservation_lost : (store_conditional 0 both).reserved 1 ≡ false
unfolding load_reserved compare_old store_conditional
reservation_lost = refl

hart_inside : one_inside.place 0 ≡ inside
unfolding load_reserved compare_old store_conditional check_result store_failed
hart_inside = refl

lock-release_example : ◌≡◌ {A = ℕ} 0 0
lock-release_example = lock-release one_inside one_inside-Steps 0 0 hart_inside hart_inside

nobody_inside : (k : ℕ) → owns (called.place k) ≡ false
nobody_inside k = ground arith

lock-progress_example :
    (t : Lock) × OwnSteps 1 called t
    × (t.place 1 ≡ inside)
    × ((k : ℕ) → k ≢ 1 → t.place k ≡ called.place k)
lock-progress_example = lock-progress called called-Steps nobody_inside 1 refl
