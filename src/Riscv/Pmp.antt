-- ===== src/Riscv/Pmp.antt =====
-- The physical memory protection driver, am/src/xs/isa/riscv/pmp.c. A `csrw` or `csrs` of a
-- register that the switch statements name acts on a register file; all else is dropped, as
-- there. An assertion that fails halts the machine: `none`.
pub mod Csr
pub mod Entry
pub mod Tor
use nexus_am_ame.Base.{ℕ, zero, suc, ◌+◌, ◌-◌, ◌*◌, ◌/◌, ◌%◌, ◌^◌, bit_and, bit_or, true, false}
use nexus_am_ame.Base.{Bool, Option, none, some, ltb, leb, ◌==◌, ◌&&◌, ◌||◌, if◌then◌else◌, guard}

-- The registers, by their addresses.
abbrev pub Csrs : Type 0
Csrs = ℕ → ℕ

abbrev pub pmpcfg_base : ℕ
pmpcfg_base = 0x3a0

abbrev pub pmpaddr_base : ℕ
pmpaddr_base = 0x3b0

abbrev pub pmp_count : ℕ
pmp_count = 16

-- `switchcase_csr_read_16(CSR_PMPCFG0, ...) switchcase_csr_read_64(CSR_PMPADDR0, ...)`
abbrev pub has_case : ℕ → Bool
has_case num = (leb 0x3a0 num && ltb num (0x3a0 + 16)) || (leb 0x3b0 num && ltb num (0x3b0 + 64))

abbrev pub put_csr : Csrs → ℕ → ℕ → Csrs
put_csr r num val i = if i == num then val else r i

unfoldable pub csr_read_num : ℕ → Csrs → ℕ
csr_read_num num r = if has_case num then r num else 0

unfoldable pub csr_write_num : ℕ → ℕ → Csrs → Csrs
csr_write_num num val r = if has_case num then put_csr r num val else r

unfoldable pub csr_set_num : ℕ → ℕ → Csrs → Csrs
csr_set_num num val r = if has_case num then put_csr r num (bit_or (r num) val) else r

-- `old & ~val` on 64 bits.
abbrev pub and_not : ℕ → ℕ → ℕ
and_not old val = bit_and old (2 ^ 64 - 1 - val)

pub csr_clear_num : ℕ → ℕ → Csrs → Csrs
csr_clear_num num val r = if has_case num then put_csr r num (and_not (r num) val) else r

-- -1L
abbrev pub all_ones : ℕ
all_ones = 2 ^ 64 - 1

-- The loop of init_pmp, with `left` registers to go from `i` on.
unfoldable pub fill_addrs : ℕ → ℕ → Csrs → Csrs
fill_addrs zero i r = r
fill_addrs (suc left) i r = fill_addrs left (i + 1) (csr_write_num (pmpaddr_base + i) all_ones r)

-- `csrw pmpcfg2` with 31 in the byte of entry 15.
unfoldable pub init_pmp : Csrs → Csrs
init_pmp r = put_csr (fill_addrs pmp_count 0 r) 0x3a2 (31 * 2 ^ (8 * 7))

-- The registers hold 64 bits and the shifts of `set_content` are those of a uintptr_t.
abbrev pub cfg_offset : ℕ → ℕ
cfg_offset reg = if ltb 7 reg then 2 else 0

abbrev pub cfg_shift : ℕ → ℕ
cfg_shift reg = bit_and reg 7

unfoldable pub set_cfg : ℕ → ℕ → Csrs → Csrs
set_cfg reg content r =
    csr_set_num (pmpcfg_base + cfg_offset reg) (content * 2 ^ (cfg_shift reg * 8) % 2 ^ 64) r

-- `pmp_addr | ((pmp_size >> 1) - 1)`; the difference wraps for the size 0.
abbrev pub napot_addr : ℕ → ℕ → ℕ
napot_addr addr size = bit_or addr ((size / 2 + 2 ^ 64 - 1) % 2 ^ 64)

-- `lock` and `permission` are of type uint8_t.
unfoldable pub enable_pmp : ℕ → ℕ → ℕ → ℕ → ℕ → Csrs → Option Csrs
enable_pmp reg addr size lock permission r =
    guard (bit_and size ((size + 2 ^ 64 - 1) % 2 ^ 64) == 0) (
      guard (ltb reg pmp_count) (
        let addr' = if size == 4 then addr else napot_addr addr size in
        let mode : ℕ = if size == 4 then 2 else 3 in
        let content = bit_or (bit_or permission (lock * 2 ^ 7)) (mode * 2 ^ 3) in
        some (set_cfg reg content (csr_write_num (pmpaddr_base + reg) (addr' / 2 ^ 2) r))))

unfoldable pub enable_pmp_tor : ℕ → ℕ → ℕ → ℕ → ℕ → Csrs → Option Csrs
enable_pmp_tor reg addr size lock permission r = guard (ltb reg pmp_count) (
    let top = csr_write_num (pmpaddr_base + reg) ((addr + size) % 2 ^ 64 / 2 ^ 2) r in
    let both =
      if reg == 0 then top else csr_write_num (pmpaddr_base + reg - 1) (addr / 2 ^ 2) top in
    some (set_cfg reg (bit_or (bit_or permission (lock * 2 ^ 7)) (1 * 2 ^ 3)) both))

pub disable_pmp : ℕ → Csrs → Csrs
disable_pmp reg r = csr_write_num (pmpaddr_base + reg) all_ones r
