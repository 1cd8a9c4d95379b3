-- ===== src/Riscv/Plic.antt =====
-- The interrupt controller driver, am/src/xs/isa/riscv/plic.c, with the addresses of the XiangShan
-- build in am/src/xs/include/xs.h. The registers are 32-bit words by address; what the devices do
-- to them by themselves is left out.
pub mod Laws
use nexus_am_ame.Base.{
  ℕ, ◌+◌, ◌-◌, ◌*◌, ◌/◌, ◌%◌, ◌^◌, ◌==◌, if◌then◌else◌, bit_and, bit_or, bit_xor,
}

abbrev pub Mmio : Type 0
Mmio = ℕ → ℕ

pub read_word : ℕ → Mmio → ℕ
read_word addr m = m addr

pub write_word : ℕ → ℕ → Mmio → Mmio
write_word addr val m a = if a == addr then val % 2 ^ 32 else m a

abbrev pub intr_gen_addr : ℕ
intr_gen_addr = 0x4007_0000

abbrev pub plic_base_addr : ℕ
plic_base_addr = 0x3c00_0000

abbrev pub extract_bit : ℕ → ℕ → ℕ
extract_bit word i = bit_and word (1 * 2 ^ i)

abbrev pub set_bit : ℕ → ℕ → ℕ
set_bit word i = bit_or word (1 * 2 ^ i)

abbrev pub clear_bit : ℕ → ℕ → ℕ
clear_bit word i = bit_xor word (extract_bit word i)

-- INTR_REG_ADDR(INTR_REG_INDEX(i)), INTR_REG_OFFSET(i)
abbrev pub intr_reg_addr : ℕ → ℕ
intr_reg_addr i = intr_gen_addr + i / 32 * 2 ^ 2

abbrev pub intr_reg_offset : ℕ → ℕ
intr_reg_offset i = i % 32

pub read_intr : ℕ → Mmio → ℕ
read_intr i m = extract_bit (read_word (intr_reg_addr i) m) (intr_reg_offset i)

pub clear_intr : ℕ → Mmio → Mmio
clear_intr i m =
    write_word (intr_reg_addr i) (clear_bit (read_word (intr_reg_addr i) m) (intr_reg_offset i)) m

pub set_intr : ℕ → Mmio → Mmio
set_intr i m =
    write_word (intr_reg_addr i) (set_bit (read_word (intr_reg_addr i) m) (intr_reg_offset i)) m

abbrev pub plic_priority : ℕ
plic_priority = plic_base_addr + 0x4

abbrev pub plic_enable_base : ℕ → ℕ
plic_enable_base c = plic_base_addr + 0x2000 + c * 0x80

abbrev pub plic_threshold : ℕ → ℕ
plic_threshold c = plic_base_addr + 0x20_0000 + c * 0x1000

abbrev pub plic_claim : ℕ → ℕ
plic_claim c = plic_base_addr + 0x20_0004 + c * 0x1000

-- PLIC_EXT_INTR_OFFSET
abbrev pub ext_intr_offset : ℕ
ext_intr_offset = 1

-- `intr - PLIC_EXT_INTR_OFFSET` on a uint32_t.
abbrev pub ext_intr : ℕ → ℕ
ext_intr intr = (intr + 2 ^ 32 - ext_intr_offset) % 2 ^ 32

pub plic_get_claim : ℕ → Mmio → ℕ
plic_get_claim current_context m = read_word (plic_claim current_context) m

pub plic_clear_intr : ℕ → Mmio → Mmio
plic_clear_intr claim m = clear_intr (ext_intr claim) m

pub plic_clear_claim : ℕ → ℕ → Mmio → Mmio
plic_clear_claim current_context claim m = write_word (plic_claim current_context) claim m

pub plic_set_priority : ℕ → ℕ → Mmio → Mmio
plic_set_priority intr priority m = write_word (plic_priority + intr * 4) priority m

-- The address and the bit of a source among the enable bits of a context.
abbrev pub enable_word : ℕ → ℕ → ℕ
enable_word c intr = plic_enable_base c + intr / 32 * 4

pub plic_enable : ℕ → ℕ → Mmio → Mmio
plic_enable current_context intr m =
    let origin = read_word (enable_word current_context intr) m in
    write_word (enable_word current_context intr) (bit_or origin (1 * 2 ^ (intr % 32))) m

pub plic_disable : ℕ → ℕ → Mmio → Mmio
plic_disable current_context intr m =
    let origin = read_word (enable_word current_context intr) m in
    write_word (enable_word current_context intr) (bit_xor origin (1 * 2 ^ (intr % 32))) m

pub plic_disable_word : ℕ → ℕ → Mmio → Mmio
plic_disable_word current_context intr m =
    write_word (plic_enable_base current_context + intr / 8) 0 m

pub plic_set_threshold : ℕ → ℕ → Mmio → Mmio
plic_set_threshold current_context threshold m =
    write_word (plic_threshold current_context) threshold m

pub plic_set_intr : ℕ → Mmio → Mmio
plic_set_intr intr m = set_intr (ext_intr intr) m
