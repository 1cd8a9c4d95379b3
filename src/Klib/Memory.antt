-- ===== src/Klib/Memory.antt =====
-- Byte-addressed memory, as libs/klib/src/string.c reads and writes it. An access to a word of
-- `w` bytes faults (`none`) unless its address is a multiple of `w`: the code is careful to
-- make aligned accesses only. Words are little-endian.
use nexus_am_ame.Base.{
  ℕ, zero, suc, ◌+◌, ◌-◌, ◌*◌, ◌/◌, ◌%◌, ◌<◌, ◌≡◌, arith, refl, ap, Option, some, Bool,
}
use nexus_am_ame.Base.{◌&&◌, leb, ltb, ◌==◌, if◌then◌else◌, guard}

abbrev pub Memory : Type 0
Memory = ℕ → ℕ

abbrev pub IsBytes : Memory → Type 0
IsBytes m = (a : ℕ) → m a < 256

abbrev pub write : Memory → ℕ → ℕ → Memory
write m a v x = if x == a then v else m x

-- The byte `i` of a number.
unfoldable pub byte_of : ℕ → ℕ → ℕ
byte_of v zero = v % 256
byte_of v (suc i) = byte_of (v / 256) i

unfoldable pub load_bytes : ℕ → ℕ → Memory → ℕ
load_bytes zero a m = 0
load_bytes (suc w) a m = m a + 256 * load_bytes w (a + 1) m

unfoldable pub store_bytes : ℕ → ℕ → ℕ → Memory → Memory
store_bytes zero a v m = m
store_bytes (suc w) a v m = store_bytes w (a + 1) (v / 256) (write m a (v % 256))

abbrev pub load : ℕ → ℕ → Memory → Option ℕ
load w a m = guard (a % w == 0) (some (load_bytes w a m))

abbrev pub store : ℕ → ℕ → ℕ → Memory → Option Memory
store w a v m = guard (a % w == 0) (some (store_bytes w a v m))

-- The address `x` lies in the `n` bytes from `a`.
abbrev pub within : ℕ → ℕ → ℕ → Bool
within a n x = leb a x && ltb x (a + n)

pub byte_of-load_bytes :
    (w i a : ℕ) (m : Memory) → IsBytes m → i < w → byte_of (load_bytes w a m) i ≡ m (a + i)
unfolding byte_of load_bytes
byte_of-load_bytes zero i a m b h = absurd (omega arith)
byte_of-load_bytes (suc w) zero a m b h = ground (arith, b a, add_zero a)
  where
    add_zero : (a : ℕ) → m (a + 0) ≡ m a
    add_zero a = ap m (omega arith)
byte_of-load_bytes (suc w) (suc i) a m b h =
    rw (rest (m a) (load_bytes w (a + 1) m) (b a))
      (rw (byte_of-load_bytes w i (a + 1) m b (omega arith)) (ap m (omega arith)))
  where
    rest : (x y : ℕ) → x < 256 → (x + 256 * y) / 256 ≡ y
    rest x y h = omega arith

byte_of_zero : (v k : ℕ) → k ≡ 0 → byte_of v k ≡ v % 256
unfolding byte_of
byte_of_zero v zero h = refl
byte_of_zero v (suc k) h = absurd (omega arith)

byte_of_pos : (v k : ℕ) → 0 < k → byte_of v k ≡ byte_of (v / 256) (k - 1)
unfolding byte_of
byte_of_pos v zero h = absurd (omega arith)
byte_of_pos v (suc k) h = let e : k ≡ suc k - 1 = omega arith in ap (byte_of (v / 256)) e

pub store_bytes_at :
    (w a v : ℕ) (m : Memory) (x : ℕ)
    → store_bytes w a v m x ≡ (if within a w x then byte_of v (x - a) else m x)
unfolding store_bytes
store_bytes_at zero a v m x = ground arith
store_bytes_at (suc w) a v m x = ground (
  arith,
  store_bytes_at w (a + 1) (v / 256) (write m a (v % 256)) x,
  byte_of_zero v (x - a),
  byte_of_pos v (x - a),
  sub_sub x a,
)
  where
    sub_sub : (x a : ℕ) → x - a - 1 ≡ x - (a + 1)
    sub_sub x a = omega arith
