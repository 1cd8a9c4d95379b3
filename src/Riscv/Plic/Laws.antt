-- ===== src/Riscv/Plic/Laws.antt =====
-- What the calls do to the enable bits and to the bits of the interrupt generator.
use nexus_am_ame.Base.{
  ℕ, zero, suc, ◌+◌, ◌-◌, ◌*◌, ◌/◌, ◌%◌, ◌^◌, ◌≤◌, ◌<◌, ◌≡◌, ◌≢◌, arith, refl, ap,
}
use nexus_am_ame.Base.{◌==◌, ◌&&◌, if◌then◌else◌, bit_or, bit_xor}
use nexus_am_ame.Base.{
  bit_at, bit_at-bit_and, bit_at-bit_or, bit_at-bit_xor, bit_at-two_pow, bit_at-mod, bit_at-lt,
}
use nexus_am_ame.Riscv.Plic.{
  Mmio, read_word, write_word, enable_word, plic_enable, plic_disable, plic_disable_word,
  plic_enable_base,
}
use nexus_am_ame.Riscv.Plic.{
  intr_reg_addr, ext_intr, plic_set_intr, plic_clear_intr, set_intr, clear_intr, clear_bit,
  extract_bit,
}

-- The bit that says whether context `c` is interrupted by source `intr`.
abbrev pub enabled : ℕ → ℕ → Mmio → ℕ
enabled c intr m = bit_at (m (enable_word c intr)) (intr % 32)

-- The bit of source `intr`, counted from 1, in the interrupt generator.
abbrev pub raised : ℕ → Mmio → ℕ
raised intr m = bit_at (m (intr_reg_addr (intr - 1))) ((intr - 1) % 32)

-- Bits of one word after a bit is set, flipped, or cleared.
module _ (w i j : ℕ) (i_low : i < 32) where
  set_at : bit_at (bit_or w (1 * 2 ^ j) % 2 ^ 32) i ≡ (if i == j then 1 else bit_at w i)
  set_at = ground (
    arith,
    bit_at-mod i 32 (bit_or w (1 * 2 ^ j)),
    bit_at-bit_or i w (1 * 2 ^ j),
    ap (λ t. bit_at t i) (one_mul (2 ^ j)),
    bit_at-two_pow i j,
    bit_at-lt i w,
  )
    where
      one_mul : (t : ℕ) → 1 * t ≡ t
      one_mul t = omega arith

  flip_at :
      bit_at (bit_xor w (1 * 2 ^ j) % 2 ^ 32) i ≡ (if i == j then 1 - bit_at w i else bit_at w i)
  flip_at = ground (
    arith,
    bit_at-mod i 32 (bit_xor w (1 * 2 ^ j)),
    bit_at-bit_xor i w (1 * 2 ^ j),
    ap (λ t. bit_at t i) (one_mul (2 ^ j)),
    bit_at-two_pow i j,
    bit_at-lt i w,
  )
    where
      one_mul : (t : ℕ) → 1 * t ≡ t
      one_mul t = omega arith

  clear_at : bit_at (clear_bit w j % 2 ^ 32) i ≡ (if i == j then 0 else bit_at w i)
  clear_at = ground (
    arith,
    bit_at-mod i 32 (clear_bit w j),
    bit_at-bit_xor i w (extract_bit w j),
    bit_at-bit_and i w (1 * 2 ^ j),
    ap (λ t. bit_at t i) (one_mul (2 ^ j)),
    bit_at-two_pow i j,
    bit_at-lt i w,
  )
    where
      one_mul : (t : ℕ) → 1 * t ≡ t
      one_mul t = omega arith

-- plic_enable turns the bit of the source on, and plic_disable flips it; both leave the bit of
-- every other source of every context as it is. The sources are below 1024, as many as the
-- words of a context hold.
pub plic_enable_lem :
    (c intr d other : ℕ) (m : Mmio)
    → intr < 1024
    → other < 1024
    → (enabled d other (plic_enable c intr m)
        ≡ (if (d == c) && (other == intr) then 1 else enabled d other m))
      × (enabled d other (plic_disable c intr m)
          ≡ (if (d == c) && (other == intr) then 1 - enabled d other m else enabled d other m))
unfolding plic_enable plic_disable write_word read_word
plic_enable_lem c intr d other m hi ho = (
  ground (arith, set_at (m (enable_word c intr)) (other % 32) (intr % 32)),
  ground (arith, flip_at (m (enable_word c intr)) (other % 32) (intr % 32)),
)

-- plic_set_intr raises the source and plic_clear_intr lowers it, whatever they were, and both
-- leave every other source as it is. The external sources count from 1.
pub plic_set_intr_lem :
    (intr other : ℕ) (m : Mmio)
    → 0 < intr
    → intr < 2 ^ 32
    → 0 < other
    → (raised other (plic_set_intr intr m) ≡ (if other == intr then 1 else raised other m))
      × (raised other (plic_clear_intr intr m) ≡ (if other == intr then 0 else raised other m))
unfolding plic_set_intr plic_clear_intr set_intr clear_intr write_word read_word
plic_set_intr_lem intr other m pos small pos' =
    let e : ext_intr intr ≡ intr - 1 = omega arith in
    rw e (
      ground (arith, set_at (m (intr_reg_addr (intr - 1))) ((other - 1) % 32) ((intr - 1) % 32)),
      ground (arith, clear_at (m (intr_reg_addr (intr - 1))) ((other - 1) % 32) ((intr - 1) % 32)),
    )

bit_at-zero : (i : ℕ) → bit_at 0 i ≡ 0
bit_at-zero zero = refl
bit_at-zero (suc i) = bit_at-zero i

-- plic_disable_word disables the 32 sources of the word if `intr` is one of the first eight of
-- them, and changes no other.
pub plic_disable_word_lem :
    (c intr d other : ℕ) (m : Mmio)
    → intr < 1024
    → other < 1024
    → intr % 32 < 8
    → enabled d other (plic_disable_word c intr m)
      ≡ (if (d == c) && (other / 32 == intr / 32) then 0 else enabled d other m)
unfolding plic_disable_word write_word
plic_disable_word_lem c intr d other m hi ho first = ground (arith, bit_at-zero (other % 32))

-- For a source that is not among the first eight of its word, plic_disable_word stores a word at
-- an address that is no multiple of 4.
pub plic_disable_word_misaligned :
    (c intr : ℕ) (m : Mmio)
    → 8 ≤ intr % 32
    → (addr : ℕ) × (plic_disable_word c intr m ≡ write_word addr 0 m) × (addr % 4 ≢ 0)
unfolding plic_disable_word
plic_disable_word_misaligned c intr m h = (plic_enable_base c + intr / 8, refl, omega arith)

-- plic_disable of a source that is not enabled enables it.
pub plic_disable_enables :
    (c intr : ℕ) (m : Mmio)
    → intr < 1024
    → enabled c intr m ≡ 0
    → enabled c intr (plic_disable c intr m) ≡ 1
plic_disable_enables c intr m small off = ground (arith, plic_enable_lem c intr c intr m)
