-- ===== src/Riscv/Vme/Sv39.antt =====
-- Address translation by the Sv39 scheme of the RISC-V privileged architecture, described on its
-- own: it is what the page tables are for.
use nexus_am_ame.Base.{
  ℕ, zero, suc, ◌+◌, ◌-◌, ◌*◌, ◌/◌, ◌%◌, ◌^◌, Bool, not, ◌||◌, ◌&&◌, ltb, leb, Option, none, some,
  ◌==◌, if◌then◌else◌,
}
use nexus_am_ame.Riscv.Vme.{Words}

-- The physical page number of an entry.
abbrev pub ppn : ℕ → ℕ
ppn pte = pte / 2 ^ 10 % 2 ^ 44

abbrev pub entry_of : ℕ → ℕ → ℕ → ℕ
entry_of base va level = base + 8 * (va / 2 ^ (12 + 9 * level) % 512)

-- A leaf maps the block of its level, if its page number is aligned to it: the physical address
-- and the ten low bits of the entry.
abbrev pub leaf : ℕ → ℕ → ℕ → Option (ℕ × ℕ)
leaf pte va level =
    if ppn pte % 2 ^ (9 * level) == 0
    then some (ppn pte * 2 ^ 12 + va % 2 ^ (12 + 9 * level), pte % 2 ^ 10)
    else none

-- What faults at every level: an entry that is not valid, one that allows writes and no reads, which
-- is reserved, and one with any of the ten high bits, which no extension is taken to use.
abbrev pub is_fault : ℕ → Bool
is_fault pte = (pte % 2 == 0) || ((pte / 2 % 4 == 2) || not (pte / 2 ^ 54 == 0))

-- The bits U, A and D are reserved in a pointer.
abbrev pub is_reserved_pointer : ℕ → Bool
is_reserved_pointer pte = not (pte / 2 ^ 4 % 2 == 0) || not (pte / 2 ^ 6 % 4 == 0)

-- From the table of a level. An entry is a pointer if R, W and X are clear.
unfoldable pub from_table : Words → ℕ → ℕ → ℕ → Option (ℕ × ℕ)
from_table m zero base va =
    let pte = m (entry_of base va 0) in
    if is_fault pte then none else (if pte / 2 % 8 == 0 then none else leaf pte va 0)
from_table m (suc level) base va =
    let pte = m (entry_of base va (suc level)) in
    let below = from_table m level (ppn pte * 2 ^ 12) va in
    if is_fault pte
    then none
    else (if pte / 2 % 8 == 0
        then (if is_reserved_pointer pte then none else below)
        else leaf pte va (suc level))

-- The bits above the 39 low ones equal the highest of these.
abbrev pub is_canonical : ℕ → Bool
is_canonical va = ltb va (2 ^ 38) || (leb (2 ^ 64 - 2 ^ 38) va && ltb va (2 ^ 64))

-- `none` is a page fault. Whether the ten low bits allow an access is not part of it.
abbrev pub translate : Words → ℕ → ℕ → Option (ℕ × ℕ)
translate m root va = let found = from_table m 2 root va in if is_canonical va then found else none
