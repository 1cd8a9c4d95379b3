-- ===== src/Klib/Block/Fill.antt =====
-- memset fills the block, whatever path of aligned words and bytes it takes.
use nexus_am_ame.Base.{Bool, ℕ, zero, suc, ◌+◌, ◌-◌, ◌*◌, ◌%◌, ◌≤◌, ◌<◌, ◌≡◌, refl, ◌∙◌, ap, arith}
use nexus_am_ame.Base.{fun_ext, some, Bool-cases, inl, inr, true, leb, leb→le, ◌==◌, ==_iff}
use nexus_am_ame.Base.{holds_upto, holds_upto-at, bit_and_low, eq→==}
use nexus_am_ame.Klib.Memory.{Memory, store_bytes, store_bytes_at, byte_of}
use nexus_am_ame.Klib.Block.{Filler, fill_bytes, fill_words, fill_chunks, fill_aligned, padding}
use nexus_am_ame.Klib.Block.{threshold, repeat_byte, memset}
use nexus_am_ame.Klib.Block.Copied.{filled}

filler_ext : (a b : Filler) → a.dst ≡ b.dst → a.left ≡ b.left → a.mem ≡ b.mem → a ≡ b
filler_ext a b p q r = λ i. record { dst = p i; left = q i; mem = r i }

abbrev repeats : ℕ → ℕ → Bool
repeats c i = byte_of (repeat_byte c) i == c

byte_table : holds_upto (λ c. holds_upto (repeats c) 8) 256 ≡ true
unfolding holds_upto byte_of repeat_byte
byte_table = refl

byte_of-repeat_byte : (c i : ℕ) → c < 256 → i < 8 → byte_of (repeat_byte c) i ≡ c
byte_of-repeat_byte c i hc hi =
    let row = holds_upto-at (λ c. holds_upto (repeats c) 8) 256 byte_table c hc in
    (==_iff (byte_of (repeat_byte c) i) c).0 (holds_upto-at (repeats c) 8 row i hi)

filled_join :
    (m : Memory) (d i n c : ℕ) → filled (filled m d i c) (d + i) n c ≡ filled m d (i + n) c
filled_join m d i n c = fun_ext λ x. ground arith

word_filled : (d c : ℕ) (m : Memory) → c < 256 → store_bytes 8 d (repeat_byte c) m ≡ filled m d 8 c
word_filled d c m h =
    fun_ext
      λ x. ground (arith, store_bytes_at 8 d (repeat_byte c) m x, byte_of-repeat_byte c (x - d))

chunks_more :
    (v k chunk fuel : ℕ) (f f' : Filler)
    → chunk ≤ f.left
    → fill_words v k f ≡ some f'
    → fill_chunks v k chunk (suc fuel) f
      ≡ fill_chunks v k chunk fuel (record f' { left = f'.left - chunk })
unfolding fill_chunks
chunks_more v k chunk fuel f f' h e = ground arith

chunks_done :
    (v k chunk fuel : ℕ) (f : Filler) → f.left < chunk → fill_chunks v k chunk (suc fuel) f ≡ some f
unfolding fill_chunks
chunks_done v k chunk fuel f h = ground arith

module _ (m : Memory) (d c : ℕ) where
  -- The variables after `i` bytes, with `l` left to do.
  abbrev at : ℕ → ℕ → Filler
  at i l = record { dst = d + i; left = l; mem = filled m d i c }

  at_start : (n : ℕ) → record { dst = d; left = n; mem = m } ≡ at 0 n
  at_start n = filler_ext _ (at 0 n) (omega arith) refl (fun_ext λ x. ground arith)

  fill_bytes-at : (k i l : ℕ) → fill_bytes c k (at i l) ≡ at (i + k) l
  unfolding fill_bytes
  fill_bytes-at zero i l = let e : i ≡ i + 0 = omega arith in ap (λ j. at j l) e
  fill_bytes-at (suc k) i l =
      ap (fill_bytes c k)
        (filler_ext _ (at (i + 1) l) (omega arith) refl (fun_ext λ x. ground arith))
      ∙ fill_bytes-at k (i + 1) l
      ∙ (let e : i + 1 + k ≡ i + suc k = omega arith in ap (λ j. at j l) e)

  module _ (byte : c < 256) where
    fill_word_at :
        (k i l : ℕ)
        → (d + i) % 8 ≡ 0
        → fill_words (repeat_byte c) (suc k) (at i l) ≡ fill_words (repeat_byte c) k (at (i + 8) l)
    unfolding fill_words
    fill_word_at k i l a = rw (eq→== ((d + i) % 8) 0 a) (
        ap (fill_words (repeat_byte c) k) (
          filler_ext _ (at (i + 8) l) (omega arith) refl
            (word_filled (d + i) c (filled m d i c) byte ∙ filled_join m d i 8 c)))

    fill_words-at :
        (k i l : ℕ)
        → (d + i) % 8 ≡ 0
        → fill_words (repeat_byte c) k (at i l) ≡ some (at (i + k * 8) l)
    fill_words-at zero i l a =
        unfold fill_words in (let e : i ≡ i + 0 * 8 = omega arith in ap (λ j. some (at j l)) e)
    fill_words-at (suc k) i l a =
        fill_word_at k i l a
        ∙ fill_words-at k (i + 8) l (omega arith)
        ∙ (let e : i + 8 + k * 8 ≡ i + suc k * 8 = omega arith in ap (λ j. some (at j l)) e)

    -- The loop ends with fewer than `chunk` bytes left and the pointer still aligned.
    fill_chunks-at :
        (k chunk fuel i l : ℕ)
        → chunk ≡ k * 8
        → 0 < chunk
        → l < fuel
        → (d + i) % 8 ≡ 0
        → (j : ℕ) × (r : ℕ) × (fill_chunks (repeat_byte c) k chunk fuel (at i l) ≡ some (at j r))
          × (j + r ≡ i + l)
          × ((d + j) % 8 ≡ 0)
          × (r < chunk)
    fill_chunks-at k chunk zero i l e pos enough a = absurd (omega arith)
    fill_chunks-at k chunk (suc fuel) i l e pos enough a = elim (Bool-cases (leb chunk l)) [
      | inl more ↦
          let fits : chunk ≤ l = leb→le _ _ more in
          let (j, r, run, total, aligned, small) =
            fill_chunks-at k chunk fuel (i + k * 8) (l - chunk) e pos (omega arith) (omega arith) in
          (
            j,
            r,
            chunks_more (repeat_byte c) k chunk fuel (at i l) (at (i + k * 8) l) fits
                  (fill_words-at k i l a)
                ∙ run,
            omega arith,
            aligned,
            small,
          )
      | inr less ↦
          let small : l < chunk = ground arith in
          (i, l, chunks_done (repeat_byte c) k chunk fuel (at i l) small, refl, a, small)
    ]

    fill_aligned-at :
        (n : ℕ)
        → 32 ≤ n
        → (j : ℕ) × (r : ℕ) × (fill_aligned c (repeat_byte c) (at 0 n) ≡ some (at j r))
          × (j + r ≡ n)
    unfolding fill_aligned
    fill_aligned-at n long =
        let pad : ℕ = padding 8 (d + 0) in
        let (j, r, run, sum, ready, less) =
          fill_chunks-at 4 32 (suc n) (0 + pad) (n - pad) refl (omega arith) (omega arith)
            (omega arith) in
        let (j', r', run', sum', ready', less') =
          fill_chunks-at 1 8 (suc r) j r refl (omega arith) (omega arith) ready in
        (j', r', rw (fill_bytes-at pad 0 (n - pad), run) run', omega arith)

-- memset leaves the low byte of `x` at each of the `n` bytes from `d`, keeps every other byte,
-- and stores no word out of alignment.
pub memset-filled : (m : Memory) (d x n : ℕ) → memset d x n m ≡ some (filled m d n (x % 256))
unfolding memset
memset-filled m d x n = rw (bit_and_low 8 x) (elim (Bool-cases (leb threshold n)) [
  | inl long ↦
      let (j, r, run, sum) = fill_aligned-at m d c small n (leb→le _ _ long) in
      rw (long, at_start m d c n, run) (finish j r sum)
  | inr short ↦ rw (short, at_start m d c n) (finish 0 n (omega arith))
])
  where
    c : ℕ
    c = x % 256

    small : c < 256
    small = omega arith

    finish :
        (j r : ℕ)
        → j + r ≡ n
        → some (Filler.mem (fill_bytes c r (at m d c j r))) ≡ some (filled m d n c)
    finish j r sum =
        ap (λ f. some (Filler.mem f)) (fill_bytes-at m d c r j r)
        ∙ ap (λ k. some (filled m d k c)) sum
