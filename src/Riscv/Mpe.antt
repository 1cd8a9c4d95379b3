-- ===== src/Riscv/Mpe.antt =====
-- The multiprocessing calls of am/src/xs/isa/riscv/mpe.c. _barrier is taken by any number of
-- harts in any order: one step is one access to `count` or `sense`, with the test of what it
-- read. Accesses are in one order for all harts, as the fences are there to ensure.
pub mod Tally
pub mod Barrier
pub mod Rounds
pub mod Inductive
pub mod Safety
mod Tests
use nexus_am_ame.Base.{
  ℕ, ◌+◌, ◌-◌, ◌<◌, ◌≤◌, ◌%◌, ◌^◌, Bool, true, false, not, ◌&&◌, ltb, leb, ◌==◌, ◌≡◌, if◌then◌else◌,
  Option, some, none, ◌>>=◌, guard,
}
use nexus_am_ame.Klib.Memory.{Memory}
use nexus_am_ame.Klib.Stdlib.{atoi}

-- MAX_CPU of am/include/riscv.h.
abbrev pub max_cpu : ℕ
max_cpu = 2

-- _mpe_setncpu, with `arg` at address `p`: `__am_ncpu`. `fuel` bounds the bytes that atoi reads.
pub mpe_setncpu : ℕ → ℕ → Memory → Option ℕ
mpe_setncpu fuel p m =
    (if m p == 0 then some 1 else atoi fuel p m) >>= λ n. guard (ltb 0 n && leb n max_cpu) (some n)

-- _atomic_xchg and _atomic_add: what is returned, and the word after it.
pub atomic_xchg : ℕ → ℕ → ℕ × ℕ
atomic_xchg word newval = (word, newval)

pub atomic_add : ℕ → ℕ → ℕ × ℕ
atomic_add word adder = (word, (word + adder) % 2 ^ 64)

-- Where a hart stands.
pub data Place : Type 0 where
  outside : Place
  adding : Place  -- before the `_atomic_add`
  clearing : Place  -- before `count = 0`
  raising : Place  -- before `sense = threadsense`
  waiting : Place  -- in the loop

-- `calls` is the number of calls of _barrier that the hart has begun, and is no variable of the code.
pub record Hart : Type 0 where
  pub place : Place
  pub threadsense : Bool
  pub calls : ℕ

pub record World : Type 0 where
  pub sense : Bool
  pub count : ℕ
  pub hart : ℕ → Hart

abbrev pub put {ℓ} : {A : Type ℓ} → (ℕ → A) → ℕ → A → ℕ → A
put f h x k = if k == h then x else f k

abbrev pub move : ℕ → Place → World → World
move h p s = record s { hart = put s.hart h (record (s.hart h) { place = p }) }

-- `threadsense = !threadsense`
pub flip : ℕ → World → World
flip h s = record s {
  hart = put s.hart h (record {
    place = adding;
    threadsense = not (s.hart h).threadsense;
    calls = (s.hart h).calls + 1;
  });
}

-- `_atomic_add(&count, 1) == _ncpu() - 1`
pub add_one : ℕ → ℕ → World → World
add_one ncpu h s =
    let r = atomic_add s.count 1 in
    record (move h (if r.0 == ncpu - 1 then clearing else waiting) s) { count = r.1 }

-- `count = 0`
pub clear : ℕ → World → World
clear h s = record (move h raising s) { count = 0 }

-- `sense = threadsense`
pub raise : ℕ → World → World
raise h s = record (move h outside s) { sense = (s.hart h).threadsense }

-- One step of one of the `ncpu` harts; the steps of the loop that change nothing are left out.
pub data Step (ncpu : ℕ) (s : World) : World → Type 0 where
  flips : (h : ℕ) → h < ncpu → (s.hart h).place ≡ outside → Step ncpu s (flip h s)
  adds : (h : ℕ) → h < ncpu → (s.hart h).place ≡ adding → Step ncpu s (add_one ncpu h s)
  clears : (h : ℕ) → h < ncpu → (s.hart h).place ≡ clearing → Step ncpu s (clear h s)
  raises : (h : ℕ) → h < ncpu → (s.hart h).place ≡ raising → Step ncpu s (raise h s)
  leaves :
      (h : ℕ)
      → h < ncpu
      → (s.hart h).place ≡ waiting
      → s.sense ≡ (s.hart h).threadsense
      → Step ncpu s (move h outside s)

pub data Steps (ncpu : ℕ) (s : World) : World → Type 0 where
  done : Steps ncpu s s
  next : {t u : World} → Steps ncpu s t → Step ncpu t u → Steps ncpu s u

-- The variables as the program starts.
abbrev pub start : World
start = record {
  sense = false;
  count = 0;
  hart = λ h. record { place = outside; threadsense = false; calls = 0 };
}
