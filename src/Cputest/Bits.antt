-- ===== src/Cputest/Bits.antt =====
-- bit.c of tests/cputest/tests: what setbit writes, getbit reads.
use nexus_am_ame.Base.{
  ℕ, zero, suc, ◌-◌, ◌*◌, ◌/◌, ◌%◌, ◌^◌, ◌<◌, ◌≡◌, ◌≢◌, refl, sym, ap, ◌∙◌, arith, bit_and, bit_or,
  Bool, true, false, ◌==◌, if◌then◌else◌, List, get_or, set, length, get_or-set_self, get_or-set_ne,
  bit_at, bit_at-bit_and, bit_at-bit_or, bit_at-two_pow, bit_at-lt, bit_and_step, bit_and-zero,
  holds_upto, holds_upto-at, ==_iff,
}
use nexus_am_ame.Cputest.Programs.Bit.{getbit, setbit}
use native.Mathlib.Nat.{pow-suc, one-le-pow}
use native.Mathlib.Decide.{ℕ_discrete}

-- `&` with one bit is that bit.
bit_and-two_pow : (k x : ℕ) → bit_and x (2 ^ k) ≡ bit_at x k * 2 ^ k
bit_and-two_pow zero x = omega (arith, bit_and_step x 1, bit_and-zero (x / 2))
bit_and-two_pow (suc k) x =
    let half : 2 ^ suc k / 2 ≡ 2 ^ k = omega (arith, pow-suc 2 k) in
    let even : 2 ^ suc k % 2 ≡ 0 = omega (arith, pow-suc 2 k) in
    let ih = bit_and-two_pow k (x / 2) in
    let same : bit_and (x / 2) (2 ^ suc k / 2) ≡ bit_and (x / 2) (2 ^ k) =
      ap (bit_and (x / 2)) half in
    omega (
      arith,
      bit_and_step x (2 ^ suc k),
      pow-suc 2 k,
      ap (λ (t : ℕ). bit_at (x / 2) k * t) (pow-suc 2 k),
    )

getbit-bit_at : (buf : List ℕ) (k : ℕ) → getbit buf k ≡ (bit_at (get_or buf (k / 8) 0) (k % 8) == 1)
unfolding getbit
getbit-bit_at buf k =
    let b = bit_at (get_or buf (k / 8) 0) (k % 8) in
    let small = bit_at-lt (k % 8) (get_or buf (k / 8) 0) in
    let e = bit_and-two_pow (k % 8) (get_or buf (k / 8) 0) in
    let pos = one-le-pow (k % 8) 2 (omega arith) in
    elim (ℕ_discrete b 0) [
      | yes z ↦
          let none_set : bit_and (get_or buf (k / 8) 0) (2 ^ (k % 8)) ≡ 0 =
            e ∙ ap (λ (t : ℕ). t * 2 ^ (k % 8)) z ∙ omega arith in
          ground arith
      | no nz ↦
          let one : b ≡ 1 = omega arith in
          let set_bit : bit_and (get_or buf (k / 8) 0) (2 ^ (k % 8)) ≡ 2 ^ (k % 8) =
            e ∙ ap (λ (t : ℕ). t * 2 ^ (k % 8)) one ∙ omega arith in
          ground arith
    ]

-- The mask of setbit(..., 0).
mask_holds : ℕ → ℕ → Bool
mask_holds i k = bit_at (255 - 2 ^ k) i == (if i == k then 0 else 1)

all_masks : holds_upto (λ i. holds_upto (mask_holds i) 8) 8 ≡ true
unfolding mask_holds holds_upto
all_masks = refl

mask_bit : (i k : ℕ) → i < 8 → k < 8 → bit_at (255 - 2 ^ k) i ≡ (if i == k then 0 else 1)
unfolding mask_holds
mask_bit i k hi hk =
    let row = holds_upto-at (λ j. holds_upto (mask_holds j) 8) 8 all_masks i hi in
    let one = holds_upto-at (mask_holds i) 8 row k hk in
    (==_iff (bit_at (255 - 2 ^ k) i) (if i == k then 0 else 1)).0 one

new_bit :
    (p i k : ℕ) (bit : Bool)
    → i < 8
    → k < 8
    → bit_at (if bit then bit_or p (2 ^ k) else bit_and p (255 - 2 ^ k)) i
      ≡ (if i == k then (if bit then 1 else 0) else bit_at p i)
new_bit p i k true hi hk =
    let e = bit_at-bit_or i p (2 ^ k) in
    let two = bit_at-two_pow i k in let small = bit_at-lt i p in ground arith
new_bit p i k false hi hk =
    let e = bit_at-bit_and i p (255 - 2 ^ k) in
    let two = mask_bit i k hi hk in let small = bit_at-lt i p in ground arith

-- After setbit in a byte of the buffer, getbit reads the bit that was set at its offset, and at
-- every other offset what it read before.
pub setbit-getbit :
    (buf : List ℕ) (offset k : ℕ) (bit : Bool)
    → offset / 8 < length buf
    → getbit (setbit buf offset bit) k ≡ (if k == offset then bit else getbit buf k)
unfolding setbit
setbit-getbit buf offset k bit inside = elim (ℕ_discrete (k / 8) (offset / 8)) [
  | yes same ↦
      let read : get_or (set buf (offset / 8) v) (k / 8) 0 ≡ v =
        ap (λ t. get_or (set buf (offset / 8) v) t 0) same
        ∙ get_or-set_self buf (offset / 8) v 0 inside in
      let bit_new =
        ap (λ t. bit_at t (k % 8)) read
        ∙ new_bit (get_or buf (offset / 8) 0) (k % 8) (offset % 8) bit (omega arith)
            (omega arith) in
      let old : get_or buf (k / 8) 0 ≡ get_or buf (offset / 8) 0 = ap (λ t. get_or buf t 0) same in
      getbit-bit_at (set buf (offset / 8) v) k
      ∙ ap (λ t. t == 1) bit_new
      ∙ by_offset (bit_at (get_or buf (k / 8) 0) (k % 8)) (ap (λ t. bit_at t (k % 8)) (sym old))
          same
  | no other ↦
      getbit-bit_at (set buf (offset / 8) v) k
      ∙ ap (λ t. bit_at t (k % 8) == 1)
          (get_or-set_ne buf (offset / 8) (k / 8) v 0 (λ e. other (sym e)))
      ∙ sym (getbit-bit_at buf k)
      ∙ ground arith
]
  where
    v : ℕ
    v =
        if bit
        then bit_or (get_or buf (offset / 8) 0) (2 ^ (offset % 8))
        else bit_and (get_or buf (offset / 8) 0) (255 - 2 ^ (offset % 8))

    by_offset :
        (b : ℕ)
        → bit_at (get_or buf (offset / 8) 0) (k % 8) ≡ b
        → k / 8 ≡ offset / 8
        → ((if k % 8 == offset % 8
              then (if bit then 1 else 0)
              else bit_at (get_or buf (offset / 8) 0) (k % 8))
            == 1)
          ≡ (if k == offset then bit else getbit buf k)
    by_offset b e same = elim (ℕ_discrete k offset) [
      | yes eq ↦ let low : k % 8 ≡ offset % 8 = ap (λ (t : ℕ). t % 8) eq in ground arith
      | no ne ↦
          let low : k % 8 ≢ offset % 8 = (λ x. ne (omega arith)) in
          let g = getbit-bit_at buf k in
          let o : bit_at (get_or buf (k / 8) 0) (k % 8) ≡ b =
            ap (λ t. bit_at (get_or buf t 0) (k % 8)) same ∙ e in
          ground arith
    ]
