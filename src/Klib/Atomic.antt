-- ===== src/Klib/Atomic.antt =====
-- The lock of libs/klib/src/atomic.c, taken by any number of harts in any order. One step is one
-- access to memory or one test. `lr.d` takes a reservation on the word. `sc.d` may fail at any
-- time, and only succeeds with a reservation, which a store to the word takes away from
-- every hart: that is what the architecture says of them. Accesses are in one order for all
-- harts, as the fences are there to ensure, and the interrupt bit is left out.
pub mod Exclusion
pub mod Progress
mod Tests
use nexus_am_ame.Base.{ℕ, Bool, true, false, ◌==◌, ◌≡◌, if◌then◌else◌}

-- Where a hart stands, with the variables that are live there.
pub data Place : Type 0 where
  outside : Place
  loading : Place  -- before the `lr.d` of compare_and_swap
  testing : (value : ℕ) → Place  -- before `value != old_val`
  storing : Place  -- before the `sc.d`
  checking : (check : ℕ) → Place  -- the result, before the test of `while`
  inside : Place  -- after lock, until release

-- The word at `addr`, and each hart.
pub record Lock : Type 0 where
  pub word : ℕ
  pub place : ℕ → Place
  pub reserved : ℕ → Bool

abbrev pub put {ℓ} : {A : Type ℓ} → (ℕ → A) → ℕ → A → ℕ → A
put f h x k = if k == h then x else f k

abbrev pub move : ℕ → Place → Lock → Lock
move h p s = record s { place = put s.place h p }

-- A store to the word.
abbrev pub store : ℕ → ℕ → Place → Lock → Lock
store val h p s = record { word = val; place = put s.place h p; reserved = λ k. false }

abbrev pub old_val : ℕ
old_val = 0

abbrev pub new_val : ℕ
new_val = 1

-- `lr.d value, (addr)`
pub load_reserved : ℕ → Lock → Lock
load_reserved h s = record s {
  place = put s.place h (testing s.word);
  reserved = put s.reserved h true;
}

-- `if (value != old_val) return 1;`
pub compare_old : ℕ → ℕ → Lock → Lock
compare_old h value s = move h (if value == old_val then storing else checking 1) s

-- `sc.d check, new_val, (addr)`, when it succeeds.
pub store_conditional : ℕ → Lock → Lock
store_conditional h s = store new_val h (checking 0) s

-- The same, when it fails.
pub store_failed : ℕ → Lock → Lock
store_failed h s = record s {
  place = put s.place h (checking 1);
  reserved = put s.reserved h false;
}

-- `while (compare_and_swap(addr, 0, 1));`
pub check_result : ℕ → ℕ → Lock → Lock
check_result h check s = move h (if check == 0 then inside else loading) s

pub release : ℕ → Lock → Lock
release h s = store 0 h outside s

-- One step of one hart. It calls release only after lock.
pub data Step (s : Lock) : Lock → Type 0 where
  locks : (h : ℕ) → s.place h ≡ outside → Step s (move h loading s)
  loads : (h : ℕ) → s.place h ≡ loading → Step s (load_reserved h s)
  compares : (h value : ℕ) → s.place h ≡ testing value → Step s (compare_old h value s)
  stores : (h : ℕ) → s.place h ≡ storing → s.reserved h ≡ true → Step s (store_conditional h s)
  fails : (h : ℕ) → s.place h ≡ storing → Step s (store_failed h s)
  checks : (h check : ℕ) → s.place h ≡ checking check → Step s (check_result h check s)
  releases : (h : ℕ) → s.place h ≡ inside → Step s (release h s)

pub data Steps (s : Lock) : Lock → Type 0 where
  done : Steps s s
  next : {t u : Lock} → Steps s t → Step t u → Steps s u

-- Nobody has the lock, and nobody has called it.
abbrev pub unlocked : Lock
unlocked = record { word = 0; place = λ h. outside; reserved = λ h. false }
