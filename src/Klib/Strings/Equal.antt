-- ===== src/Klib/Strings/Equal.antt =====
-- strcmp decides whether two strings are equal.
use nexus_am_ame.Base.{ℕ, zero, suc, ◌+◌, ◌<◌, ◌≡◌, ◌≢◌, refl, ap, ◌∙◌, sym, arith}
use nexus_am_ame.Base.{some, ◌↔◌, ◌==◌, Bool-cases, inl, inr, pos}
use nexus_am_ame.Klib.Memory.{Memory}
use nexus_am_ame.Klib.Strings.{strcmp}
use nexus_am_ame.Klib.Strings.Laws.{IsString, SameBytes}

module _ (m : Memory) (a b fuel : ℕ) where
  strcmp_more : m a ≢ 0 → m a ≡ m b → strcmp (suc fuel) a b m ≡ strcmp fuel (a + 1) (b + 1) m
  unfolding strcmp
  strcmp_more h e = ground arith

  strcmp_end : m a ≡ 0 → m b ≡ 0 → strcmp (suc fuel) a b m ≡ some (pos 0)
  unfolding strcmp
  strcmp_end h k = ground arith

  strcmp_differ : m a ≢ m b → strcmp (suc fuel) a b m ≢ some (pos 0)
  unfolding strcmp
  strcmp_differ h = ground arith

-- For two strings of `j` and `k` bytes, strcmp returns 0 exactly when the lengths and the bytes
-- agree.
pub strcmp-zero_iff :
    (j k fuel a b : ℕ) (m : Memory)
    → IsString m a j
    → IsString m b k
    → j < fuel
    → (strcmp fuel a b m ≡ some (pos 0)) ↔ ((j ≡ k) × SameBytes m a b j)
strcmp-zero_iff j k zero a b m ha hb lt = absurd (omega arith)
strcmp-zero_iff zero zero (suc fuel) a b m ha hb lt =
    (λ _. (refl, tt), λ _. strcmp_end m a b fuel ha hb)
strcmp-zero_iff zero (suc k) (suc fuel) a b m ha (hb, rest) lt =
    (λ e. absurd (strcmp_differ m a b fuel (ground arith) e), λ e. absurd (omega (arith, e.0)))
strcmp-zero_iff (suc j) zero (suc fuel) a b m (ha, rest) hb lt =
    (λ e. absurd (strcmp_differ m a b fuel (ground arith) e), λ e. absurd (omega (arith, e.0)))
strcmp-zero_iff (suc j) (suc k) (suc fuel) a b m (ha, more) (hb, rest) lt =
    elim (Bool-cases (m a == m b)) [
      | inl same ↦
          let e : m a ≡ m b = ground arith in
          let (out, back) = strcmp-zero_iff j k fuel (a + 1) (b + 1) m more rest (omega arith) in
          (
            λ z. let (l, s) = out (sym (strcmp_more m a b fuel ha e) ∙ z) in (ap suc l, (e, s)),
            λ z. strcmp_more m a b fuel ha e ∙ back (omega arith, z.1.1),
          )
      | inr differ ↦
          let e : m a ≢ m b = ground arith in
          (λ z. absurd (strcmp_differ m a b fuel e z), λ z. absurd (e z.1.0))
    ]
