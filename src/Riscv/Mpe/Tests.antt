-- ===== src/Riscv/Mpe/Tests.antt =====
-- Runs of the calls of mpe.c, and the theorems on the barrier at concrete inputs.
use nexus_am_ame.Base.{ℕ, ◌≤◌, ◌<◌, ◌≢◌, refl, arith}
use nexus_am_ame.Riscv.Mpe.{
  outside, World, flip, add_one, atomic_add, clear, raise, Step, flips, adds, clears, raises, Steps,
  done, next, start,
}
use nexus_am_ame.Riscv.Mpe.Safety.{returns, barrier_waits, barrier_moves}

-- Two harts: hart 1 comes second, ends the round and is back while hart 0 still waits.
abbrev late : World
late = raise 1 (clear 1 (add_one 2 1 (flip 1 (add_one 2 0 (flip 0 start)))))

reached : Steps 2 start late
unfolding raise clear add_one atomic_add flip
reached =
    next
      (next
        (next
          (next (next (next done (flips 0 (omega arith) refl)) (adds 0 (omega arith) refl))
            (flips 1 (omega arith) refl))
          (adds 1 (omega arith) refl))
        (clears 1 (omega arith) refl))
      (raises 1 (omega arith) refl)

barrier_waits_example : returns (late.hart 1).place (late.hart 1).calls ≤ (late.hart 0).calls
barrier_waits_example =
    barrier_waits 2 1 0 (omega arith) (omega arith) reached (omega arith) (omega arith)

-- Hart 1 calls again.
again : Steps 2 start (flip 1 late)
unfolding raise clear add_one atomic_add flip
again = next reached (flips 1 (omega arith) refl)

inside : (h : ℕ) → h < 2 → ((flip 1 late).hart h).place ≢ outside
unfolding raise clear add_one atomic_add flip
inside h lt e = ground arith

barrier_moves_example : (t : World) × Step 2 (flip 1 late) t
barrier_moves_example = barrier_moves 2 (omega arith) (omega arith) again inside
