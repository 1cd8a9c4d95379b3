-- ===== src/Klib/Block/Moves.antt =====
-- memcpy and memmove copy the block, whatever path of aligned words and bytes they take.
use nexus_am_ame.Base.{ℕ, zero, suc, ◌+◌, ◌-◌, ◌*◌, ◌%◌, ◌^◌, ◌≤◌, ◌<◌, ◌≡◌, refl, ◌∙◌, ap, arith}
use nexus_am_ame.Base.{fun_ext, Option, some, Bool-cases, inl, inr, true, ◌&&◌, leb, ltb}
use nexus_am_ame.Klib.Memory.{Memory, IsBytes, write}
use nexus_am_ame.Klib.Block.{Cursor, copy_bytes, copy_chunks, copy_aligned, copy_block, padding}
use nexus_am_ame.Klib.Block.{threshold, is_align, memcpy, memmove, copy_back}
use nexus_am_ame.Klib.Block.Copied.{copied, IsForward}
use nexus_am_ame.Klib.Block.Copy.{at, IsAligned, at_start, copy_bytes-at, copy_chunks-at}

-- Padding one pointer aligns the other, if they differ by a multiple of the word.
abbrev Pads : ℕ → Type 0
Pads w =
    (a b : ℕ)
    → a ≤ 2 ^ 64
    → b ≤ 2 ^ 64
    → (a + 2 ^ 64 - b) % 2 ^ 64 % w ≡ 0
    → ((a + padding w a) % w ≡ 0) × ((b + padding w a) % w ≡ 0) × (padding w a < w)

Pads-eight : Pads 8
Pads-eight a b ha hb h = omega arith

Pads-four : Pads 4
Pads-four a b ha hb h = omega arith

mod_regroup : (a i p w : ℕ) → (a + (i + p)) % w ≡ (a + i + p) % w
mod_regroup a i p w = ap (λ (t : ℕ). t % w) (omega arith)

aligned_run :
    (w k : ℕ) (c c1 c2 : Cursor) (o : Option Cursor)
    → copy_bytes (padding w c.dst) (record c { left = c.left - padding w c.dst }) ≡ c1
    → copy_chunks w k threshold (suc c.left) c1 ≡ some c2
    → copy_chunks w 1 w (suc c2.left) c2 ≡ o
    → copy_aligned w k c ≡ o
unfolding copy_aligned
aligned_run w k c c1 c2 o p q r = rw (p, q) r

memcpy_run :
    (out from n : ℕ) (m : Memory) (c c' : Cursor)
    → copy_block 8 4 (record { dst = out; src = from; left = n; mem = m }) ≡ some c
    → copy_block 4 8 c ≡ some c'
    → memcpy out from n m ≡ some (copy_bytes c'.left c').mem
unfolding memcpy
memcpy_run out from n m c c' p q = rw (p, q)

module _ (m : Memory) (d s n : ℕ) (b : IsBytes m) (fwd : IsForward d s n) (d_fits : d + n ≤ 2 ^ 64)
    (s_fits : s + n ≤ 2 ^ 64) where
  -- The copy is somewhere on its way.
  abbrev OnTheWay : Option Cursor → Type 0
  OnTheWay c = (j : ℕ) × (r : ℕ) × (c ≡ some (at m d s j r)) × (j + r ≡ n)

  copy_aligned-at :
      (w k i l : ℕ)
      → Pads w
      → k * w ≡ 32
      → 0 < w
      → w ≤ 32
      → i + l ≡ n
      → 32 ≤ l
      → is_align w (at m d s i l) ≡ true
      → OnTheWay (copy_aligned w k (at m d s i l))
  copy_aligned-at w k i l pads e pos small total long aligned =
      let (p, q, below) = pads (d + i) (s + i) (omega arith) (omega arith) (ground arith) in
      let pad : ℕ = padding w (d + i) in
      let start = copy_bytes-at m d s pad i (l - pad) (omega arith) in
      let ready : IsAligned m d s w (i + pad) =
        (mod_regroup d i pad w ∙ p, mod_regroup s i pad w ∙ q) in
      let (j, r, run, sum, ready', less) =
        copy_chunks-at m d s w k 32 (suc l) (i + pad) (l - pad) b (omega arith) (omega arith)
          (omega arith) ready (omega arith) in
      let (j', r', run', sum', ready'', less') =
        copy_chunks-at m d s w 1 w (suc r) j r b (omega arith) pos (omega arith) ready'
          (omega arith) in
      (
        j',
        r',
        aligned_run w k (at m d s i l) (at m d s (i + pad) (l - pad)) (at m d s j r)
            (some (at m d s j' r')) start run run',
        omega arith,
      )

  copy_block-at :
      (w k i l : ℕ)
      → Pads w
      → k * w ≡ 32
      → 0 < w
      → w ≤ 32
      → i + l ≡ n
      → OnTheWay (copy_block w k (at m d s i l))
  unfolding copy_block
  copy_block-at w k i l pads e pos small total =
      elim (Bool-cases (leb threshold l && is_align w (at m d s i l))) [
        | inl takes ↦
            rw takes (copy_aligned-at w k i l pads e pos small total (ground arith) (ground arith))
        | inr skips ↦ (i, l, rw skips, total)
      ]

  pub memcpy_copies : memcpy d s n m ≡ some (copied m d s n)
  memcpy_copies =
      let (j, r, run, sum) =
        copy_block-at 8 4 0 n Pads-eight refl (omega arith) (omega arith) (omega arith) in
      let (j', r', run', sum') =
        copy_block-at 4 8 j r Pads-four refl (omega arith) (omega arith) sum in
      memcpy_run d s n m (at m d s j r) (at m d s j' r')
        (ap (copy_block 8 4) (at_start m d s n) ∙ run) run'
      ∙ ap (λ c. some (Cursor.mem c)) (copy_bytes-at m d s r' j' r' (omega arith))
      ∙ ap (λ k. some (copied m d s k)) sum'

-- The backward loop reads each byte before it overwrites it, if the block moves up.
copy_back-copied : (k d s : ℕ) (m : Memory) → s ≤ d → copy_back k (d + k) (s + k) m ≡ copied m d s k
unfolding copy_back
copy_back-copied zero d s m h = fun_ext λ x. ground arith
copy_back-copied (suc k) d s m h =
    ap (λ t. copy_back k t (s + suc k - 1) (write m t (m (s + suc k - 1)))) (pred_add d)
    ∙ ap (λ t. copy_back k (d + k) t (write m (d + k) (m t))) (pred_add s)
    ∙ copy_back-copied k d s (write m (d + k) (m (s + k))) h
    ∙ fun_ext λ x. ground (arith, offset x)
  where
    pred_add : (a : ℕ) → a + suc k - 1 ≡ a + k
    pred_add a = omega arith

    offset : (x : ℕ) → x ≡ d + k → m (s + (x - d)) ≡ m (s + k)
    offset x e = ap m (omega arith)

-- Under every overlap of the two blocks, memmove leaves at `d` the bytes that stood at `s`, keeps
-- every other byte, and makes no access that is out of alignment. The blocks lie within the
-- address space.
pub memmove-copied :
    (m : Memory) (d s n : ℕ)
    → IsBytes m
    → d + n ≤ 2 ^ 64
    → s + n ≤ 2 ^ 64
    → memmove d s n m ≡ some (copied m d s n)
unfolding memmove
memmove-copied m d s n b hd hs = elim (Bool-cases (ltb d (s + n) && ltb s d)) [
  | inl up ↦ rw (up, copy_back-copied n d s m (ground arith))
  | inr not_up ↦ rw not_up (memcpy_copies m d s n b (ground arith) hd hs)
]

-- Where the destination does not start inside the source block, memcpy leaves at `d` the bytes
-- that stood at `s`, keeps every other byte, and makes no access that is out of alignment. The
-- blocks lie within the address space.
pub memcpy-copied :
    (m : Memory) (d s n : ℕ)
    → IsBytes m
    → IsForward d s n
    → d + n ≤ 2 ^ 64
    → s + n ≤ 2 ^ 64
    → memcpy d s n m ≡ some (copied m d s n)
memcpy-copied m d s n b fwd hd hs = memcpy_copies m d s n b fwd hd hs
