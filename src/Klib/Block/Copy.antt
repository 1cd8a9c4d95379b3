-- ===== src/Klib/Block/Copy.antt =====
-- The loops of memcpy, from a state reached after `i` bytes of the whole copy.
use nexus_am_ame.Base.{ℕ, zero, suc, ◌+◌, ◌-◌, ◌*◌, ◌%◌, ◌≤◌, ◌<◌, ◌≡◌, refl, ◌∙◌, ap, subst, arith}
use nexus_am_ame.Base.{fun_ext, some, inl, inr, Bool-cases}
use nexus_am_ame.Base.{leb, eq→==, leb→le}
use nexus_am_ame.Klib.Memory.{Memory, IsBytes, write, load_bytes, store_bytes}
use native.Mathlib.Nat.{add-mul-mod_self_right}
use nexus_am_ame.Klib.Memory.{store_bytes_at, byte_of-load_bytes}
use nexus_am_ame.Klib.Block.{Cursor, copy_bytes, copy_words, copy_chunks}
use nexus_am_ame.Klib.Block.Copied.{copied, IsForward, copied-IsBytes, copied_join}

cursor_ext :
    (a b : Cursor) → a.dst ≡ b.dst → a.src ≡ b.src → a.left ≡ b.left → a.mem ≡ b.mem → a ≡ b
cursor_ext a b p q r t = λ i. record { dst = p i; src = q i; left = r i; mem = t i }

-- A word that is loaded whole and then stored copies its bytes, also when the two overlap.
word_copied :
    (w d s : ℕ) (m : Memory) → IsBytes m → store_bytes w d (load_bytes w s m) m ≡ copied m d s w
word_copied w d s m b = fun_ext λ x.
    ground (arith, store_bytes_at w d (load_bytes w s m) m x, byte_of-load_bytes w (x - d) s m b)

chunks_more :
    (w k chunk fuel : ℕ) (c c' : Cursor)
    → chunk ≤ c.left
    → copy_words w k c ≡ some c'
    → copy_chunks w k chunk (suc fuel) c
      ≡ copy_chunks w k chunk fuel (record c' { left = c'.left - chunk })
unfolding copy_chunks
chunks_more w k chunk fuel c c' h e = ground arith

chunks_done :
    (w k chunk fuel : ℕ) (c : Cursor) → c.left < chunk → copy_chunks w k chunk (suc fuel) c ≡ some c
unfolding copy_chunks
chunks_done w k chunk fuel c h = ground arith

module _ (m : Memory) (d s : ℕ) where
  -- The variables after `i` bytes, with `l` left to do.
  abbrev pub at : ℕ → ℕ → Cursor
  at i l = record { dst = d + i; src = s + i; left = l; mem = copied m d s i }

  pub at_start : (n : ℕ) → record { dst = d; src = s; left = n; mem = m } ≡ at 0 n
  at_start n = cursor_ext _ (at 0 n) (omega arith) (omega arith) refl (fun_ext λ x. ground arith)

  byte_copied :
      (i : ℕ)
      → IsForward d s (i + 1)
      → write (copied m d s i) (d + i) (copied m d s i (s + i)) ≡ copied m d s (i + 1)
  byte_copied i fwd = fun_ext λ x. ground (arith, offset x)
    where
      offset : (x : ℕ) → x ≡ d + i → m (s + (x - d)) ≡ m (s + i)
      offset x h = ap m (omega arith)

  pub copy_bytes-at : (k i l : ℕ) → IsForward d s (i + k) → copy_bytes k (at i l) ≡ at (i + k) l
  unfolding copy_bytes
  copy_bytes-at zero i l fwd = let e : i ≡ i + 0 = omega arith in ap (λ j. at j l) e
  copy_bytes-at (suc k) i l fwd =
      ap (copy_bytes k)
        (cursor_ext _ (at (i + 1) l) (omega arith) (omega arith) refl (byte_copied i (omega arith)))
      ∙ copy_bytes-at k (i + 1) l (omega arith)
      ∙ (let e : i + 1 + k ≡ i + suc k = omega arith in ap (λ j. at j l) e)

  -- Both pointers stand at a multiple of `w` after `i` bytes.
  abbrev pub IsAligned : ℕ → ℕ → Type 0
  IsAligned w i = ((d + i) % w ≡ 0) × ((s + i) % w ≡ 0)

  IsAligned-add : (w k i : ℕ) → IsAligned w i → IsAligned w (i + k * w)
  IsAligned-add w k i (p, q) = (
    omega (arith, add-mul-mod_self_right (d + i) k w, regroup d),
    omega (arith, add-mul-mod_self_right (s + i) k w, regroup s),
  )
    where
      regroup : (a : ℕ) → (a + (i + k * w)) % w ≡ (a + i + k * w) % w
      regroup a = ap (λ (t : ℕ). t % w) (omega arith)

  copy_word_at :
      (w k i l : ℕ)
      → IsBytes m
      → IsAligned w i
      → IsForward d s (i + w)
      → copy_words w (suc k) (at i l) ≡ copy_words w k (at (i + w) l)
  unfolding copy_words
  copy_word_at w k i l b (p, q) fwd =
      rw (eq→== ((s + i) % w) 0 q, eq→== ((d + i) % w) 0 p)
        (ap (copy_words w k) (
          cursor_ext _ (at (i + w) l) (omega arith) (omega arith) refl (
            word_copied w (d + i) (s + i) (copied m d s i) (copied-IsBytes m d s i b)
            ∙ copied_join m d s i w fwd)))

  pub copy_words-at :
      (w k i l : ℕ)
      → IsBytes m
      → IsAligned w i
      → IsForward d s (i + k * w)
      → copy_words w k (at i l) ≡ some (at (i + k * w) l)
  copy_words-at w zero i l b a fwd =
      unfold copy_words in (let e : i ≡ i + 0 * w = omega arith in ap (λ j. some (at j l)) e)
  copy_words-at w (suc k) i l b a fwd =
      copy_word_at w k i l b a (omega arith)
      ∙ copy_words-at w k (i + w) l b (one a) (omega arith)
      ∙ (let e : i + w + k * w ≡ i + suc k * w = omega arith in ap (λ j. some (at j l)) e)
    where
      one : IsAligned w i → IsAligned w (i + w)
      one a =
          let e : i + 1 * w ≡ i + w = omega arith in subst (IsAligned w) e (IsAligned-add w 1 i a)

  -- The loop ends with fewer than `chunk` bytes left, and both pointers as aligned as before.
  pub copy_chunks-at :
      (w k chunk fuel i l : ℕ)
      → IsBytes m
      → chunk ≡ k * w
      → 0 < chunk
      → l < fuel
      → IsAligned w i
      → IsForward d s (i + l)
      → (j : ℕ) × (r : ℕ) × (copy_chunks w k chunk fuel (at i l) ≡ some (at j r))
        × (j + r ≡ i + l)
        × IsAligned w j
        × (r < chunk)
  copy_chunks-at w k chunk zero i l b e pos enough a fwd = absurd (omega arith)
  copy_chunks-at w k chunk (suc fuel) i l b e pos enough a fwd = elim (Bool-cases (leb chunk l)) [
    | inl more ↦
        let fits : chunk ≤ l = leb→le _ _ more in
        let (j, r, run, total, aligned, small) =
          copy_chunks-at w k chunk fuel (i + k * w) (l - chunk) b e pos (omega arith)
            (IsAligned-add w k i a) (omega arith) in
        (
          j,
          r,
          chunks_more w k chunk fuel (at i l) (at (i + k * w) l) fits
                (copy_words-at w k i l b a (omega arith))
              ∙ run,
          omega arith,
          aligned,
          small,
        )
    | inr less ↦
        let small : l < chunk = ground arith in
        (i, l, chunks_done w k chunk fuel (at i l) small, refl, a, small)
  ]
