-- ===== src/Klib/Strings/Compare.antt =====
-- strcmp, strncmp and memcmp: the first place where they stop decides.
use nexus_am_ame.Base.{ℕ, zero, suc, ◌+◌, ◌^◌, ◌≤◌, ◌<◌, ◌≡◌, ◌≢◌, refl, ap, arith}
use nexus_am_ame.Base.{Option, some, not, ◌&&◌, ◌⊎◌, inl, inr, Bool-cases}
use nexus_am_ame.Base.{◌==◌, ℤ, pos, sub_ℕ}
use nexus_am_ame.Klib.Memory.{Memory}
use nexus_am_ame.Klib.Strings.{strncmp, memcmp, dec_size}
use nexus_am_ame.Klib.Strings.Laws.{SameBytes}

-- A loop that has compared its way to byte `k` returns the difference of the two bytes there.
abbrev pub Returns : Memory → ℕ → ℕ → ℕ → Option ℤ → Type 0
Returns m a b k r = SameBytes m a b k × (r ≡ some (sub_ℕ (m (a + k)) (m (b + k))))

byte_zero : (m : Memory) (a : ℕ) → m (a + 0) ≡ m a
byte_zero m a = ap m (omega arith)

byte_suc : (m : Memory) (a k : ℕ) → m (a + suc k) ≡ m (a + 1 + k)
byte_suc m a k = ap m (omega arith)

Returns-zero : (m : Memory) (a b : ℕ) → Returns m a b 0 (some (sub_ℕ (m a) (m b)))
Returns-zero m a b = (tt, ground (arith, byte_zero m a, byte_zero m b))

Returns-suc :
    (m : Memory) (a b k : ℕ) (r : Option ℤ)
    → m a ≡ m b
    → Returns m (a + 1) (b + 1) k r
    → Returns m a b (suc k) r
Returns-suc m a b k r e (same, result) =
    ((e, same), ground (arith, result, byte_suc m a k, byte_suc m b k))

-- `-- n` from a counter that is not 0 does not wrap.
dec_size-suc : (n : ℕ) → suc n < 2 ^ 64 → dec_size (suc n) ≡ n
dec_size-suc n h = omega arith

module _ (m : Memory) (a b n fuel : ℕ) where
  memcmp_more :
      suc (suc n) < 2 ^ 64
      → m a ≡ m b
      → memcmp (suc fuel) a b (suc (suc n)) m ≡ memcmp fuel (a + 1) (b + 1) (suc n) m
  unfolding memcmp
  memcmp_more h e = ground (arith, dec_size-suc (suc n) h)

  memcmp_stop :
      (dec_size n ≡ 0) ⊎ (m a ≢ m b) → memcmp (suc fuel) a b n m ≡ some (sub_ℕ (m a) (m b))
  unfolding memcmp
  memcmp_stop h = ground arith

  strncmp_more :
      suc (suc n) < 2 ^ 64
      → m a ≢ 0
      → m a ≡ m b
      → strncmp (suc fuel) a b (suc (suc n)) m ≡ strncmp fuel (a + 1) (b + 1) (suc n) m
  unfolding strncmp
  strncmp_more h p e = ground (arith, dec_size-suc (suc n) h)

  strncmp_stop :
      (dec_size n ≡ 0) ⊎ ((m a ≡ 0) ⊎ (m a ≢ m b))
      → strncmp (suc fuel) a b n m ≡ some (sub_ℕ (m a) (m b))
  unfolding strncmp
  strncmp_stop h = ground arith

-- Why a comparison of `n` bytes stops at byte `k`.
abbrev pub BlockEnd : Memory → ℕ → ℕ → ℕ → ℕ → Type 0
BlockEnd m a b n k = (suc k ≡ n) ⊎ (m (a + k) ≢ m (b + k))

BlockEnd-suc :
    (m : Memory) (a b n k : ℕ) → BlockEnd m (a + 1) (b + 1) n k → BlockEnd m a b (suc n) (suc k)
BlockEnd-suc m a b n k h = ground (arith, byte_suc m a k, byte_suc m b k)

-- memcmp of `n` bytes, `n` not 0, returns the difference of the first two bytes that differ, or
-- of the last two if none differ before.
pub memcmp-Returns :
    (n fuel a b : ℕ) (m : Memory)
    → 0 < n
    → n < 2 ^ 64
    → n ≤ fuel
    → (k : ℕ) × (k < n) × BlockEnd m a b n k × Returns m a b k (memcmp fuel a b n m)
memcmp-Returns zero fuel a b m p q f = absurd (omega arith)
memcmp-Returns (suc n) zero a b m p q f = absurd (omega arith)
memcmp-Returns (suc zero) (suc fuel) a b m p q f =
    (0, omega arith, inl refl, rw (memcmp_stop m a b 1 fuel (inl refl)) (Returns-zero m a b))
memcmp-Returns (suc (suc n)) (suc fuel) a b m p q f = elim (Bool-cases (m a == m b)) [
  | inl same ↦
      let e : m a ≡ m b = ground arith in
      let (k, lt, why, back) =
        memcmp-Returns (suc n) fuel (a + 1) (b + 1) m (omega arith) (omega arith) (omega arith) in
      (
        suc k,
        omega arith,
        BlockEnd-suc m a b (suc n) k why,
        rw (memcmp_more m a b n fuel q e) (Returns-suc m a b k _ e back),
      )
  | inr differ ↦
      let e : m a ≢ m b = ground arith in
      (
        0,
        omega arith,
        inr (ground (arith, byte_zero m a, byte_zero m b)),
        rw (memcmp_stop m a b (suc (suc n)) fuel (inr e)) (Returns-zero m a b),
      )
]

-- Why a comparison of at most `n` bytes of two strings stops at byte `k`.
abbrev pub StringEnd : Memory → ℕ → ℕ → ℕ → ℕ → Type 0
StringEnd m a b n k = (suc k ≡ n) ⊎ ((m (a + k) ≡ 0) ⊎ (m (a + k) ≢ m (b + k)))

StringEnd-suc :
    (m : Memory) (a b n k : ℕ) → StringEnd m (a + 1) (b + 1) n k → StringEnd m a b (suc n) (suc k)
StringEnd-suc m a b n k h = ground (arith, byte_suc m a k, byte_suc m b k)

StringEnd-zero : (m : Memory) (a b n : ℕ) → (m a ≡ 0) ⊎ (m a ≢ m b) → StringEnd m a b n 0
StringEnd-zero m a b n h = ground (arith, byte_zero m a, byte_zero m b)

-- strncmp of at most `n` bytes, `n` not 0, returns the difference of the first two bytes that
-- differ or of the terminators, or of the last two of the `n` if it meets none of these before.
pub strncmp-Returns :
    (n fuel a b : ℕ) (m : Memory)
    → 0 < n
    → n < 2 ^ 64
    → n ≤ fuel
    → (k : ℕ) × (k < n) × StringEnd m a b n k × Returns m a b k (strncmp fuel a b n m)
strncmp-Returns zero fuel a b m p q f = absurd (omega arith)
strncmp-Returns (suc n) zero a b m p q f = absurd (omega arith)
strncmp-Returns (suc zero) (suc fuel) a b m p q f =
    (0, omega arith, inl refl, rw (strncmp_stop m a b 1 fuel (inl refl)) (Returns-zero m a b))
strncmp-Returns (suc (suc n)) (suc fuel) a b m p q f =
    elim (Bool-cases (not (m a == 0) && (m a == m b))) [
      | inl same ↦
          let e : m a ≡ m b = ground arith in
          let (k, lt, why, back) =
            strncmp-Returns (suc n) fuel (a + 1) (b + 1) m (omega arith) (omega arith)
              (omega arith) in
          (
            suc k,
            omega arith,
            StringEnd-suc m a b (suc n) k why,
            rw (strncmp_more m a b n fuel q (ground arith) e) (Returns-suc m a b k _ e back),
          )
      | inr stops ↦
          let e : (m a ≡ 0) ⊎ (m a ≢ m b) = ground arith in
          (
            0,
            omega arith,
            StringEnd-zero m a b (suc (suc n)) e,
            rw (strncmp_stop m a b (suc (suc n)) fuel (inr e)) (Returns-zero m a b),
          )
    ]

-- With `n` 0 neither comparison is empty: both still compare the first two bytes, so where
-- those differ the result is not 0.
pub zero_length_compares :
    (fuel a b : ℕ) (m : Memory)
    → m a ≢ m b
    → (memcmp (suc fuel) a b 0 m ≢ some (pos 0)) × (strncmp (suc fuel) a b 0 m ≢ some (pos 0))
unfolding memcmp strncmp
zero_length_compares fuel a b m h = (ground arith, ground arith)
