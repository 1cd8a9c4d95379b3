-- ===== src/Klib/Atomic/Exclusion.antt =====
-- The lock admits one hart at a time.
use nexus_am_ame.Base.{◌⊎◌, inl, inr, ◌∙◌, ℕ, Bool, true, false, ◌==◌, ◌≡◌, arith, refl}
use nexus_am_ame.Klib.Atomic.{
  Place, outside, loading, testing, storing, checking, inside, Lock, Step, Steps, locks, loads,
  compares, stores, fails, checks, releases, done, next, unlocked, load_reserved, compare_old,
  store_conditional, store_failed, check_result, release, move, put,
}

-- From the `sc.d` that succeeds to the store of release.
abbrev pub owns : Place → Bool
owns (checking check) = check == 0
owns inside = true
owns _ = false

-- What a hart with a reservation knows of the word.
abbrev pub agrees : Place → ℕ → Bool
agrees (testing value) word = value == word
agrees storing word = word == 0
agrees _ word = true

-- A lock that is taken has an owner.
abbrev pub Held : Lock → Type 0
Held s = (s.word ≡ 0) ⊎ ((h : ℕ) × (owns (s.place h) ≡ true))

pub record IsValid (s : Lock) : Type 0 where
  pub locked : (h : ℕ) → owns (s.place h) ≡ true → s.word ≡ 1
  pub unique : (h k : ℕ) → owns (s.place h) ≡ true → owns (s.place k) ≡ true → h ≡ k
  pub current : (h : ℕ) → s.reserved h ≡ true → agrees (s.place h) s.word ≡ true
  pub held : Held s

pub unlocked-IsValid : IsValid unlocked
unlocked-IsValid = record {
  locked = λ h e. ground arith;
  unique = λ h k e f. ground arith;
  current = λ h e. ground arith;
  held = inl refl;
}

-- It stays held while its owners stay.
Held-on :
    (s t : Lock)
    → Held s
    → t.word ≡ s.word
    → ((h : ℕ) → owns (s.place h) ≡ true → owns (t.place h) ≡ true)
    → Held t
Held-on s t (inl free) e keep = inl (e ∙ free)
Held-on s t (inr (h, o)) e keep = inr (h, keep h o)

module _ (s : Lock) (v : IsValid s) where
  open v use {locked, unique, current, held}

  load_reserved-IsValid : (h : ℕ) → s.place h ≡ loading → IsValid (load_reserved h s)
  unfolding load_reserved
  load_reserved-IsValid h at = record {
    locked = λ k e. ground (arith, locked k);
    unique = λ k l e f. ground (arith, unique k l);
    current = λ k e. ground (arith, current k);
    held = Held-on s (load_reserved h s) held refl (λ k o. ground arith);
  }

  compare_old-IsValid : (h value : ℕ) → s.place h ≡ testing value → IsValid (compare_old h value s)
  unfolding compare_old
  compare_old-IsValid h value at = record {
    locked = λ k e. ground (arith, locked k);
    unique = λ k l e f. ground (arith, unique k l);
    current = λ k e. ground (arith, current k);
    held = Held-on s (compare_old h value s) held refl (λ k o. ground arith);
  }

  store_conditional-IsValid :
      (h : ℕ) → s.place h ≡ storing → s.reserved h ≡ true → IsValid (store_conditional h s)
  unfolding store_conditional
  store_conditional-IsValid h at r = record {
    locked = λ k e. refl;
    unique = λ k l e f. ground (arith, current h r, locked k, locked l);
    current = λ k e. ground arith;
    held = inr (h, ground arith);
  }

  store_failed-IsValid : (h : ℕ) → s.place h ≡ storing → IsValid (store_failed h s)
  unfolding store_failed
  store_failed-IsValid h at = record {
    locked = λ k e. ground (arith, locked k);
    unique = λ k l e f. ground (arith, unique k l);
    current = λ k e. ground (arith, current k);
    held = Held-on s (store_failed h s) held refl (λ k o. ground arith);
  }

  check_result-IsValid :
      (h check : ℕ) → s.place h ≡ checking check → IsValid (check_result h check s)
  unfolding check_result
  check_result-IsValid h check at = record {
    locked = λ k e. ground (arith, locked k);
    unique = λ k l e f. ground (arith, unique k l);
    current = λ k e. ground (arith, current k);
    held = Held-on s (check_result h check s) held refl (λ k o. ground arith);
  }

  release-IsValid : (h : ℕ) → s.place h ≡ inside → IsValid (release h s)
  unfolding release
  release-IsValid h at = record {
    locked = λ k e. ground (arith, unique k h);
    unique = λ k l e f. ground (arith, unique k l);
    current = λ k e. ground arith;
    held = inl refl;
  }

  locks-IsValid : (h : ℕ) → s.place h ≡ outside → IsValid (move h loading s)
  locks-IsValid h at = record {
    locked = λ k e. ground (arith, locked k);
    unique = λ k l e f. ground (arith, unique k l);
    current = λ k e. ground (arith, current k);
    held = Held-on s (move h loading s) held refl (λ k o. ground arith);
  }

Step-IsValid : (s t : Lock) → IsValid s → Step s t → IsValid t
Step-IsValid s t v (locks h at) = locks-IsValid s v h at
Step-IsValid s t v (loads h at) = load_reserved-IsValid s v h at
Step-IsValid s t v (compares h value at) = compare_old-IsValid s v h value at
Step-IsValid s t v (stores h at r) = store_conditional-IsValid s v h at r
Step-IsValid s t v (fails h at) = store_failed-IsValid s v h at
Step-IsValid s t v (checks h check at) = check_result-IsValid s v h check at
Step-IsValid s t v (releases h at) = release-IsValid s v h at

pub Steps-IsValid : (s t : Lock) → IsValid s → Steps s t → IsValid t
Steps-IsValid s _ v done = v
Steps-IsValid s t v (next {t = between} run step) =
    Step-IsValid between t (Steps-IsValid s between v run) step

pub put_same {ℓ} : {A : Type ℓ} (f : ℕ → A) (h : ℕ) (x : A) → put f h x h ≡ x
put_same f h x = ground arith

-- However the harts interleave, no two of them are between the return of lock and release.
pub lock-release :
    (s : Lock) → Steps unlocked s → (h k : ℕ) → s.place h ≡ inside → s.place k ≡ inside → h ≡ k
lock-release s run h k at at' =
    (Steps-IsValid unlocked s unlocked-IsValid run).unique h k (ground arith) (ground arith)
