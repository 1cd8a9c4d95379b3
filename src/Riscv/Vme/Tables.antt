-- ===== src/Riscv/Vme/Tables.antt =====
-- The tables on the path of an address: what `_map` expects of them, and what it makes.
use nexus_am_ame.Base.{
  ℕ, zero, suc, ◌+◌, ◌*◌, ◌/◌, ◌%◌, ◌^◌, ◌≤◌, ◌<◌, ◌≡◌, ◌≢◌, arith, refl, sym, ◌∙◌, ap,
}
use native.Mathlib.Numerals.{towards_suc}
use native.Mathlib.Nat.{div-div-eq-div-mul}
use nexus_am_ame.Base.{List, [], ◌∷◌, length, ◌⊎◌, inr, false, ◌==◌, eq→==}
use nexus_am_ame.Riscv.Vme.{
  Words, Paging, page_number, entry_addr, put_word, clear_page, pointer_pte,
}
use nexus_am_ame.Riscv.Vme.Entry.{vpn_lem, pointer_pte_lem}
use nexus_am_ame.Riscv.Vme.Walk.{Apart, AreAligned}
use nexus_am_ame.Riscv.Vme.Sv39.{ppn, entry_of, leaf, is_fault, is_reserved_pointer, from_table}

-- The pages that the allocator will give are whole pages of a 56-bit address space, no two of
-- them the same.
abbrev pub AreFresh : List ℕ → Type 0
AreFresh [] = Unit {0}
AreFresh (p ∷ ps) = ((p % 4096 ≡ 0) × (p < 2 ^ 56) × Apart p ps) × AreFresh ps

pub AreFresh-AreAligned : (ps : List ℕ) → AreFresh ps → AreAligned ps
AreFresh-AreAligned [] h = tt
AreFresh-AreAligned (p ∷ ps) (h, hs) = (h.0, AreFresh-AreAligned ps hs)

-- The entry is a valid pointer to a table.
abbrev pub IsPointer : ℕ → Type 0
IsPointer pte = ((pte % 16 ≡ 1) × (pte / 2 ^ 4 % 2 ≡ 0) × (pte / 2 ^ 6 % 4 ≡ 0)) × (pte < 2 ^ 54)

-- The tables on the path of an address, from the table `base` of a level down: `base` lies in no
-- page that the allocator will give, its entry leads on or is invalid with as many pages at hand
-- as tables are missing, and the entry of level 0 is invalid.
abbrev pub IsReady : ℕ → ℕ → ℕ → Words → List ℕ → Type 0
IsReady va zero base m ps = (base % 4096 ≡ 0) × Apart base ps × (m (entry_of base va 0) % 2 ≡ 0)
IsReady va (suc level) base m ps =
    let pte = m (entry_of base va (suc level)) in
    (base % 4096 ≡ 0)
    × Apart base ps
    × ((IsPointer pte × IsReady va level (ppn pte * 2 ^ 12) m ps)
        ⊎ ((pte % 2 ≡ 0) × (level < length ps)))

pub put_word-other : (m : Words) (a x v : ℕ) → x ≢ a → put_word m a v x ≡ m x
put_word-other m a x v ne = ground arith

pub eq-false : (x : ℕ) → x ≢ 0 → (x == 0) ≡ false
eq-false x h = ground arith

pub from_table-leaf :
    (m : Words) (base va val : ℕ)
    → m (entry_of base va 0) ≡ val
    → val % 2 ≡ 1
    → val / 2 % 8 ≢ 0
    → val / 2 % 4 ≢ 2
    → val < 2 ^ 54
    → from_table m 0 base va ≡ leaf val va 0
unfolding from_table
from_table-leaf m base va val e odd access readable small =
    let fine : is_fault val ≡ false = ground (arith, odd, readable, small) in
    rw e (rw (fine, eq-false (val / 2 % 8) access) refl)

pub from_table-pointer :
    (m : Words) (level base va v : ℕ)
    → m (entry_of base va (suc level)) ≡ v
    → IsPointer v
    → from_table m (suc level) base va ≡ from_table m level (ppn v * 2 ^ 12) va
unfolding from_table
from_table-pointer m level base va v e ((pointer, user, used), small) =
    let fine : is_fault v ≡ false = ground (arith, pointer, small) in
    let plain : is_reserved_pointer v ≡ false = ground (arith, user, used) in
    rw e (rw (fine, eq→== (v / 2 % 8) 0 (omega (arith, pointer)), plain) refl)

pub eight_times : (k n : ℕ) → n ≡ k + 3 → 2 ^ n ≡ 8 * 2 ^ k
eight_times k n e = ap (λ t. 2 ^ t) e ∙ simp towards_suc (omega arith)

pub page_pow : (k : ℕ) → 2 ^ (12 + k) ≡ 2 ^ 12 * 2 ^ k
page_pow k = omega (
  arith,
  eight_times k (k + 3) refl,
  eight_times (k + 3) (k + 6) (omega arith),
  eight_times (k + 6) (k + 9) (omega arith),
  eight_times (k + 9) (12 + k) (omega arith),
)

-- The bytes of one page have the same entries.
pub entry_of-offset :
    (base va off level : ℕ)
    → va % 4096 ≡ 0
    → off < 4096
    → entry_of base (va + off) level ≡ entry_of base va level
entry_of-offset base va off level al h =
    ap (λ i. base + 8 * (i % 512))
      (split (va + off) ∙ ap (λ t. t / 2 ^ (9 * level)) same ∙ sym (split va))
  where
    same : (va + off) / 2 ^ 12 ≡ va / 2 ^ 12
    same = omega arith

    split : (x : ℕ) → x / 2 ^ (12 + 9 * level) ≡ x / 2 ^ 12 / 2 ^ (9 * level)
    split x =
        ap (λ t. x / t) (page_pow (9 * level))
        ∙ sym (div-div-eq-div-mul x (2 ^ 12) (2 ^ (9 * level)))

pub entry_addr_lem : (base va level : ℕ) → entry_addr base va level ≡ entry_of base va level
entry_addr_lem base va level = ap (λ i. base + 8 * i) (vpn_lem va level)

-- An entry lies in the page of its table.
pub entry_page :
    (base va level : ℕ) → base % 4096 ≡ 0 → page_number (entry_of base va level) ≡ page_number base
entry_page base va level h = omega arith

pub Apart-entry :
    (base va level : ℕ) (ps : List ℕ)
    → base % 4096 ≡ 0
    → Apart base ps
    → Apart (entry_of base va level) ps
Apart-entry base va level [] h out = tt
Apart-entry base va level (p ∷ ps) h (ne, out) =
    (λ e. ne (sym (entry_page base va level h) ∙ e), Apart-entry base va level ps h out)

-- The state after a table is made at `p` for the entry at `a`.
abbrev pub linked : Words → ℕ → ℕ → List ℕ → Paging
linked m a p ps = record { mem = put_word (clear_page m p) a (pointer_pte p); pages = ps }

pub linked-pointer :
    (m : Words) (a p : ℕ) (ps : List ℕ)
    → p < 2 ^ 56
    → (linked m a p ps).mem a ≡ p / 2 ^ 12 * 2 ^ 10 + 1
linked-pointer m a p ps h = let e = pointer_pte_lem p (omega arith) in ground arith

pub linked-zero :
    (va level : ℕ) (m : Words) (a p : ℕ) (ps : List ℕ)
    → p % 4096 ≡ 0
    → page_number a ≢ page_number p
    → (linked m a p ps).mem (entry_of p va level) ≡ 0
linked-zero va level m a p ps al other =
    put_word-other (clear_page m p) a (entry_of p va level) (pointer_pte p)
      (λ e. other (sym (ap page_number e) ∙ entry_page p va level al))
    ∙ ground arith

-- Every entry of the new table is invalid.
pub IsReady-linked :
    (va level : ℕ) (m : Words) (a p : ℕ) (ps : List ℕ)
    → (p % 4096 ≡ 0) × Apart p ps
    → page_number a ≢ page_number p
    → level ≤ length ps
    → IsReady va level p (linked m a p ps).mem ps
IsReady-linked va zero m a p ps (al, out) other enough =
    (al, out, ap (λ t. t % 2) (linked-zero va 0 m a p ps al other))
IsReady-linked va (suc level) m a p ps (al, out) other enough =
    (al, out, inr (ap (λ t. t % 2) (linked-zero va (suc level) m a p ps al other), omega arith))
