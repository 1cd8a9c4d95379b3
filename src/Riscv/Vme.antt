-- ===== src/Riscv/Vme.antt =====
-- The page tables of am/src/nemu/isa/riscv/vme.c in the 64-bit build (Sv39), with the macros of
-- am/src/nemu/include/nemu.h and am/include/riscv.h. Memory is 64-bit words by address. The
-- client's page allocator is the list of the addresses that it will return; a call on the empty
-- list is a NULL that new_page would write to: `none`, as for an assertion that fails.
pub mod Entry
pub mod Sv39
pub mod Walk
pub mod Tables
pub mod Path
pub mod Space
pub mod Init
use nexus_am_ame.Base.{ℕ, zero, suc, ◌+◌, ◌-◌, ◌*◌, ◌/◌, ◌%◌, ◌^◌, bit_and, bit_or, true, false}
use nexus_am_ame.Base.{Bool, Option, none, some, ltb, leb, ◌==◌, ◌&&◌, if◌then◌else◌, guard, ◌>>=◌}
use nexus_am_ame.Base.{List, [], ◌∷◌}

abbrev pub Words : Type 0
Words = ℕ → ℕ

-- The memory and the client's allocator.
pub record Paging : Type 0 where
  pub mem : Words
  pub pages : List ℕ

abbrev pub pgsize : ℕ
pgsize = 4096

abbrev pub pte_v : ℕ
pte_v = 0x01

-- PN(addr)
abbrev pub page_number : ℕ → ℕ
page_number addr = addr / 2 ^ 12

-- VPNi(PTW_SV39, va, level)
pub vpn : ℕ → ℕ → ℕ
vpn va level = bit_and (va / 2 ^ (12 + 9 * level)) (2 ^ 9 - 1)

-- PTE_ADDR(pte)
pub pte_addr : ℕ → ℕ
pte_addr pte = bit_and pte (2 ^ 64 - 0x400) * 2 ^ 2 % 2 ^ 64

-- `&pg_base[VPNi(...)]`
abbrev pub entry_addr : ℕ → ℕ → ℕ → ℕ
entry_addr pg_base va level = pg_base + 8 * vpn va level

abbrev pub put_word : Words → ℕ → ℕ → Words
put_word m a v x = if x == a then v else m x

-- memset(p, 0, PGSIZE)
abbrev pub clear_page : Words → ℕ → Words
clear_page m p x = if leb p x && ltb x (p + pgsize) then 0 else m x

-- The page that pgalloc returns; where it has none, memset faults.
pub take_page : List ℕ → Words → Option (ℕ × Paging)
take_page [] m = none
take_page (p ∷ ps) m = some (p, record { mem = clear_page m p; pages = ps })

pub new_page : Paging → Option (ℕ × Paging)
new_page st = take_page st.pages st.mem

-- `PTE_V | (PN(pg_base) << 10)`
pub pointer_pte : ℕ → ℕ
pointer_pte p = bit_or pte_v (page_number p * 2 ^ 10 % 2 ^ 64)

-- `PTE_V | prot | (PN(pa) << 10)`
pub leaf_pte : ℕ → ℕ → ℕ
leaf_pte pa prot = bit_or (bit_or pte_v prot) (page_number pa * 2 ^ 10 % 2 ^ 64)

-- `*pte & PTE_V`
abbrev pub is_valid : ℕ → Bool
is_valid pte = bit_and pte pte_v == 1

-- One level of the loop that does not break: the table below `pte`, made if it is not there.
pub descend : ℕ → Paging → Option (ℕ × Paging)
descend pte st =
    if is_valid (st.mem pte)
    then some (pte_addr (st.mem pte), st)
    else (new_page st >>= λ r.
        some (r.0, record r.1 { mem = put_word r.1.mem pte (pointer_pte r.0) }))

-- The loop from `level` down to the level where it breaks: the address of the entry there.
pub walk : ℕ → ℕ → ℕ → ℕ → Paging → Option (ℕ × Paging)
walk stop zero pg_base va st = some (entry_addr pg_base va 0, st)
walk stop (suc level) pg_base va st =
    let pte = entry_addr pg_base va (suc level) in
    let below = descend pte st >>= λ r. walk stop level r.0 va r.1 in
    if suc level == stop then some (pte, st) else below

abbrev pub fill_entry : ℕ → ℕ → Paging → Paging
fill_entry pte val st =
    if is_valid (st.mem pte) then st else record st { mem = put_word st.mem pte val }

-- `_map`; `root` is the pointer in the address space.
pub map : ℕ → ℕ → ℕ → ℕ → Paging → Option Paging
map root va pa prot st = guard (va % pgsize == 0) (
    guard (pa % pgsize == 0)
      (walk 0 2 root va st >>= λ r. some (fill_entry r.0 (leaf_pte pa prot) r.1)))

-- `_map_fault`; `next` is what rand returns.
pub map_fault : ℕ → ℕ → ℕ → ℕ → ℕ → Paging → Option Paging
map_fault next root va pa prot st = guard (va % pgsize == 0) (
    guard (pa % pgsize == 0) (
      let randnum = next % (2 ^ 20 - 1) in
      walk 0 2 root va st >>= λ r.
      some (fill_entry r.0 (bit_or (leaf_pte pa prot) (randnum * 2 ^ 34 % 2 ^ 64)) r.1)))

-- The switch of `_map_rv_hugepage`.
pub hugepage_size : ℕ → Option ℕ
hugepage_size zero = some pgsize
hugepage_size (suc zero) = some (pgsize * 512)
hugepage_size (suc (suc zero)) = some (pgsize * 512 * 512)
hugepage_size (suc (suc (suc level))) = none

-- `PTE_V | prot | (PN(pa) >> shift << shift << 10)`
pub huge_pte : ℕ → ℕ → ℕ → ℕ
huge_pte pa prot level =
    bit_or (bit_or pte_v prot)
      (page_number pa / 2 ^ (level * 9) * 2 ^ (level * 9) * 2 ^ 10 % 2 ^ 64)

pub map_rv_hugepage : ℕ → ℕ → ℕ → ℕ → ℕ → Paging → Option Paging
map_rv_hugepage root va pa prot level st = hugepage_size level >>= λ size. guard (va % size == 0) (
    guard (pa % size == 0)
      (walk level 2 root va st >>= λ r. some (fill_entry r.0 (huge_pte pa prot level) r.1)))
