-- ===== src/Klib/Atomic/Progress.antt =====
-- A lock that no hart has can be taken.
use nexus_am_ame.Base.{
  Bool-cases, ap, not, inl, inr, ◌∙◌, ◌≢◌, ℕ, Bool, true, false, ◌==◌, ◌≡◌, arith, refl,
}
use nexus_am_ame.Klib.Atomic.{
  Place, outside, loading, testing, storing, checking, inside, Lock, Step, Steps, locks, loads,
  compares, stores, fails, checks, releases, unlocked, load_reserved, compare_old,
  store_conditional, store_failed, check_result,
}
use nexus_am_ame.Klib.Atomic.Exclusion.{owns, Steps-IsValid, unlocked-IsValid, put_same}

-- The hart that makes a step.
abbrev pub hart : {s t : Lock} → Step s t → ℕ
hart (locks h at) = h
hart (loads h at) = h
hart (compares h value at) = h
hart (stores h at r) = h
hart (fails h at) = h
hart (checks h check at) = h
hart (releases h at) = h

-- Steps of one hart and of no other.
pub data OwnSteps (h : ℕ) : Lock → Lock → Type 0 where
  own_done : {s : Lock} → OwnSteps h s s
  own_next : {s t u : Lock} → (step : Step s t) → hart step ≡ h → OwnSteps h t u → OwnSteps h s u

-- From the call of lock until the `sc.d` that succeeds.
abbrev pub waits : Place → Bool
waits loading = true
waits (testing value) = true
waits storing = true
waits (checking check) = not (check == 0)
waits _ = false

-- The hart gets the lock by its own steps, and the other harts stay where they are.
abbrev pub Wins : ℕ → Lock → Type 0
Wins h s =
    (t : Lock) × OwnSteps h s t × (t.place h ≡ inside) × ((k : ℕ) → k ≢ h → t.place k ≡ s.place k)

Wins-step :
    (h : ℕ) (s t : Lock) (step : Step s t)
    → hart step ≡ h
    → ((k : ℕ) → k ≢ h → t.place k ≡ s.place k)
    → Wins h t
    → Wins h s
Wins-step h s t step own same (u, steps, won, rest) =
    (u, own_next step own steps, won, λ k other. rest k other ∙ same k other)

module _ (h : ℕ) where
  Wins-stored : (s : Lock) → s.place h ≡ checking 0 → Wins h s
  unfolding check_result
  Wins-stored s at =
      Wins-step h s (check_result h 0 s) (checks h 0 at) refl (λ k other. ground arith)
        (check_result h 0 s, own_done, put_same s.place h inside, λ k other. refl)

  Wins-reserved : (s : Lock) → s.place h ≡ storing → s.reserved h ≡ true → Wins h s
  unfolding store_conditional
  Wins-reserved s at r =
      Wins-step h s (store_conditional h s) (stores h at r) refl (λ k other. ground arith)
        (Wins-stored (store_conditional h s) (put_same s.place h (checking 0)))

  Wins-loading : (s : Lock) → s.word ≡ 0 → s.place h ≡ loading → Wins h s
  unfolding load_reserved compare_old
  Wins-loading s free at =
      Wins-step h s loaded (loads h at) refl (λ k other. ground arith)
        (Wins-step h loaded (compare_old h s.word loaded)
          (compares h s.word (put_same s.place h (testing s.word))) refl (λ k other. ground arith)
          (Wins-reserved (compare_old h s.word loaded) (ground (arith, free))
            (put_same s.reserved h true)))
    where
      loaded : Lock
      loaded = load_reserved h s

  Wins-failed : (s : Lock) (check : ℕ) → s.word ≡ 0 → s.place h ≡ checking check → Wins h s
  unfolding check_result
  Wins-failed s check free at = elim (Bool-cases (check == 0)) [
    | inl zero_check ↦ Wins-stored s (at ∙ ap checking (ground (arith, zero_check)))
    | inr failed ↦
        Wins-step h s (check_result h check s) (checks h check at) refl (λ k other. ground arith)
          (Wins-loading (check_result h check s) free (ground (arith, failed)))
  ]

  Wins-storing : (s : Lock) → s.word ≡ 0 → s.place h ≡ storing → Wins h s
  unfolding store_failed
  Wins-storing s free at = elim (Bool-cases (s.reserved h)) [
    | inl r ↦ Wins-reserved s at r
    | inr lost ↦
        Wins-step h s (store_failed h s) (fails h at) refl (λ k other. ground arith)
          (Wins-failed (store_failed h s) 1 free (put_same s.place h (checking 1)))
  ]

  Wins-testing : (s : Lock) (value : ℕ) → s.word ≡ 0 → s.place h ≡ testing value → Wins h s
  unfolding compare_old
  Wins-testing s value free at =
      Wins-step h s (compare_old h value s) (compares h value at) refl (λ k other. ground arith)
        (elim (Bool-cases (value == 0)) [
          | inl same ↦ Wins-storing (compare_old h value s) free (ground (arith, same))
          | inr other ↦ Wins-failed (compare_old h value s) 1 free (ground (arith, other))
        ])

  Wins-from : (s : Lock) (p : Place) → s.word ≡ 0 → s.place h ≡ p → waits p ≡ true → Wins h s
  Wins-from s outside free at w = absurd (ground (arith, w))
  Wins-from s loading free at w = Wins-loading s free at
  Wins-from s (testing value) free at w = Wins-testing s value free at
  Wins-from s storing free at w = Wins-storing s free at
  Wins-from s (checking check) free at w = Wins-failed s check free at
  Wins-from s inside free at w = absurd (ground (arith, w))

-- Nothing is lost: where no hart has the lock, a hart that waits for it, at whatever step of the
-- loop, gets it by its own steps alone, while the other harts stay where they are.
pub lock-progress :
    (s : Lock)
    → Steps unlocked s
    → ((k : ℕ) → owns (s.place k) ≡ false)
    → (h : ℕ) → waits (s.place h) ≡ true
    → (t : Lock) × OwnSteps h s t × (t.place h ≡ inside) × ((k : ℕ) → k ≢ h → t.place k ≡ s.place k)
lock-progress s run free h w = Wins-from h s (s.place h) word_free refl w
  where
    word_free : s.word ≡ 0
    word_free = elim (Steps-IsValid unlocked s unlocked-IsValid run).held [
      | inl e ↦ e
      | inr (k, o) ↦ ground (arith, free k)
    ]
