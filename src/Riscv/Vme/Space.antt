-- ===== src/Riscv/Vme/Space.antt =====
-- Address spaces of am/src/nemu/isa/riscv/vme.c that share the tables of the kernel's.
use nexus_am_ame.Base.{
  none, ap, ℕ, zero, suc, ◌+◌, ◌-◌, ◌*◌, ◌/◌, ◌%◌, ◌^◌, ◌<◌, ◌≡◌, ◌≢◌, arith, refl, ◌∙◌, sym,
}
use nexus_am_ame.Base.{
  Option, some, List, ◌∷◌, ◌⊎◌, inl, inr, Bool-cases, leb, ltb, ◌&&◌, if◌then◌else◌, ◌>>=◌,
}
use nexus_am_ame.Klib.Stdlib.{Area}
use nexus_am_ame.Riscv.Vme.{Words, Paging, page_number, pgsize, new_page, take_page, clear_page}
use nexus_am_ame.Riscv.Vme.Sv39.{ppn, entry_of, is_fault, is_canonical, from_table, translate}
use nexus_am_ame.Riscv.Vme.Tables.{eq-false, entry_page}

-- `_AddressSpace`
pub record AddressSpace : Type 0 where
  pub size : ℕ
  pub area : Area
  pub ptr : ℕ

-- memcpy(p, q, PGSIZE), for two pages
abbrev pub copy_page : Words → ℕ → ℕ → Words
copy_page m p q x = if leb p x && ltb x (p + pgsize) then m (q + (x - p)) else m x

-- USER_SPACE
abbrev pub user_space : Area
user_space = record { start = 0xc000_0000; end = 0xf000_0000 }

-- `_protect`; `kas` is the pointer in the address space of the kernel.
pub protect_as : ℕ → Paging → Option (AddressSpace × Paging)
protect_as kas st = new_page st >>= λ r. some (
  record { size = pgsize; area = user_space; ptr = r.0 },
  record r.1 { mem = copy_page r.1.mem r.0 kas },
)

-- The tables that the hardware reads to translate an address lie outside the page `p`.
abbrev pub IsOutside : ℕ → Words → ℕ → ℕ → ℕ → Type 0
IsOutside p m zero base va = (base % 4096 ≡ 0) × (page_number base ≢ page_number p)
IsOutside p m (suc level) base va =
    let pte = m (entry_of base va (suc level)) in
    (base % 4096 ≡ 0)
    × (page_number base ≢ page_number p)
    × ((pte % 16 ≢ 1) ⊎ IsOutside p m level (ppn pte * 2 ^ 12) va)

from_table-zero :
    (m m' : Words) (base base' va : ℕ)
    → m' (entry_of base' va 0) ≡ m (entry_of base va 0)
    → from_table m' 0 base' va ≡ from_table m 0 base va
unfolding from_table
from_table-zero m m' base base' va e = rw e refl

from_table-suc :
    (m m' : Words) (level base base' va v : ℕ)
    → m (entry_of base va (suc level)) ≡ v
    → m' (entry_of base' va (suc level)) ≡ v
    → (v % 16 ≢ 1)
      ⊎ (from_table m' level (ppn v * 2 ^ 12) va ≡ from_table m level (ppn v * 2 ^ 12) va)
    → from_table m' (suc level) base' va ≡ from_table m (suc level) base va
unfolding from_table
from_table-suc m m' level base base' va v e e' (inr below) = rw (e, e', below) refl
from_table-suc m m' level base base' va v e e' (inl ends) = elim (Bool-cases (is_fault v)) [
  | inl faults ↦ rw (e, e', faults) refl
  | inr fine ↦ rw (e, e', fine, eq-false (v / 2 % 8) (λ z. ends (ground (arith, z, fine)))) refl
]

module _ (p : ℕ) (m m' : Words)
    (others : (x : ℕ) → page_number x ≢ page_number p → m' x ≡ m x) where
  same_entry :
      (base va level : ℕ)
      → base % 4096 ≡ 0
      → page_number base ≢ page_number p
      → m' (entry_of base va level) ≡ m (entry_of base va level)
  same_entry base va level al out =
      others (entry_of base va level) (λ e. out (sym (entry_page base va level al) ∙ e))

  from_table-others :
      (level base va : ℕ)
      → IsOutside p m level base va
      → from_table m' level base va ≡ from_table m level base va
  from_table-others zero base va (al, out) =
      from_table-zero m m' base base va (same_entry base va 0 al out)
  from_table-others (suc level) base va (al, out, inl ends) =
      from_table-suc m m' level base base va _ refl (same_entry base va (suc level) al out)
        (inl ends)
  from_table-others (suc level) base va (al, out, inr below) =
      from_table-suc m m' level base base va _ refl (same_entry base va (suc level) al out)
        (inr (from_table-others level _ va below))

copy_page-at :
    (m : Words) (p q i : ℕ)
    → p % 4096 ≡ 0
    → q % 4096 ≡ 0
    → page_number q ≢ page_number p
    → i < 512
    → copy_page (clear_page m p) p q (p + 8 * i) ≡ m (q + 8 * i)
copy_page-at m p q i al ql out h =
    let back : q + (p + 8 * i - p) ≡ q + 8 * i = omega arith in rw back (ground arith)

-- Where the allocator gives a page and the tables that translate `va` for the kernel lie outside
-- it, `_protect` returns, and then `va` has the same translation in the new address space, in
-- that of the kernel, and in that of the kernel before.
pub protect_as-translate :
    (kas va p : ℕ) (ps : List ℕ) (m : Words)
    → p % 4096 ≡ 0
    → IsOutside p m 2 kas va
    → (r : AddressSpace × Paging) × (protect_as kas (record { mem = m; pages = p ∷ ps }) ≡ some r)
      × (translate r.1.mem r.0.ptr va ≡ translate m kas va)
      × (translate r.1.mem kas va ≡ translate m kas va)
unfolding protect_as new_page take_page
protect_as-translate kas va p ps m al (kal, out, rest) = (
  (record { size = pgsize; area = user_space; ptr = p }, record { mem = m'; pages = ps }),
  refl,
  ap checked (from_table-suc m m' 1 kas p va _ refl copied (follow rest)),
  ap checked (from_table-others p m m' others 2 kas va (kal, out, rest)),
)
  where
    checked : Option (ℕ × ℕ) → Option (ℕ × ℕ)
    checked found = if is_canonical va then found else none

    m' : Words
    m' = copy_page (clear_page m p) p kas

    others : (x : ℕ) → page_number x ≢ page_number p → m' x ≡ m x
    others x ne = ground arith

    copied : m' (entry_of p va 2) ≡ m (entry_of kas va 2)
    copied = copy_page-at m p kas (va / 2 ^ (12 + 9 * 2) % 512) al kal out (omega arith)

    follow :
        (m (entry_of kas va 2) % 16 ≢ 1) ⊎ IsOutside p m 1 (ppn (m (entry_of kas va 2)) * 2 ^ 12) va
        → (m (entry_of kas va 2) % 16 ≢ 1)
          ⊎ (from_table m' 1 (ppn (m (entry_of kas va 2)) * 2 ^ 12) va
              ≡ from_table m 1 (ppn (m (entry_of kas va 2)) * 2 ^ 12) va)
    follow (inl ends) = inl ends
    follow (inr below) = inr (from_table-others p m m' others 1 _ va below)
