-- ===== src/Riscv/Vme/Entry.antt =====
-- Page table entries as numbers: the valid bit, the flags and the page number.
use Prim.Native.Nat.{bit_or-bitwise}
use nexus_am_ame.Base.{ℕ, ◌+◌, ◌-◌, ◌*◌, ◌/◌, ◌%◌, ◌^◌, ◌<◌, ◌≡◌, arith, ◌∙◌, ap}
use nexus_am_ame.Base.{bit_or, bit_and_low, bit_and_high, bit_or_high, bit_or_step, ◌==◌}
use nexus_am_ame.Riscv.Vme.{vpn, pte_addr, pointer_pte, leaf_pte, pte_v, is_valid}

bit_or_left_zero : (x : ℕ) → bit_or 0 x ≡ x
bit_or_left_zero x = bit_or-bitwise 0 x

-- The index of a level is a field of nine bits.
pub vpn_lem : (va level : ℕ) → vpn va level ≡ va / 2 ^ (12 + 9 * level) % 512
unfolding vpn
vpn_lem va level = bit_and_low 9 (va / 2 ^ (12 + 9 * level))

pub is_valid_lem : (pte : ℕ) → is_valid pte ≡ (pte % 2 == 1)
is_valid_lem pte = ap (λ t. t == 1) (bit_and_low 1 pte)

pub pte_addr_lem : (pte : ℕ) → pte < 2 ^ 64 → pte_addr pte ≡ pte / 2 ^ 10 * 2 ^ 12 % 2 ^ 64
unfolding pte_addr
pte_addr_lem pte h = ground (arith, bit_and_high 10 pte (2 ^ 54 - 1), bit_and_low 54 (pte / 2 ^ 10))

module _ (flags n : ℕ) (small : flags < 2 ^ 10) where
  with_page : bit_or flags (n * 2 ^ 10) ≡ n * 2 ^ 10 + flags
  with_page =
      bit_or_high 10 flags n
      ∙ ground (arith, bit_or_left_zero n, ap (λ t. bit_or t n) (no_high flags small))
    where
      no_high : (f : ℕ) → f < 2 ^ 10 → f / 2 ^ 10 ≡ 0
      no_high f h = omega arith

pub pointer_pte_lem : (p : ℕ) → p < 2 ^ 64 → pointer_pte p ≡ p / 2 ^ 12 * 2 ^ 10 + 1
unfolding pointer_pte
pointer_pte_lem p h =
    let fits : p / 2 ^ 12 * 2 ^ 10 % 2 ^ 64 ≡ p / 2 ^ 12 * 2 ^ 10 = omega arith in
    ap (bit_or 1) fits ∙ with_page 1 (p / 2 ^ 12) (omega arith)

-- The flags of a leaf: those asked for, and the valid bit.
abbrev pub leaf_flags : ℕ → ℕ
leaf_flags prot = prot / 2 * 2 + 1

pub leaf_pte_lem :
    (pa prot : ℕ)
    → pa < 2 ^ 64
    → prot < 2 ^ 10
    → leaf_pte pa prot ≡ pa / 2 ^ 12 * 2 ^ 10 + leaf_flags prot
unfolding leaf_pte
leaf_pte_lem pa prot h small =
    let fits : pa / 2 ^ 12 * 2 ^ 10 % 2 ^ 64 ≡ pa / 2 ^ 12 * 2 ^ 10 = omega arith in
    let flags : bit_or pte_v prot ≡ leaf_flags prot =
      omega (arith, bit_or_step 1 prot, bit_or_left_zero (prot / 2)) in
    ap (bit_or (bit_or pte_v prot)) fits
    ∙ ap (λ t. bit_or t (pa / 2 ^ 12 * 2 ^ 10)) flags
    ∙ with_page (leaf_flags prot) (pa / 2 ^ 12) (omega arith)
