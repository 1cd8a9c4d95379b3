-- ===== src/Riscv/Pmp/Tor.antt =====
-- enable_pmp_TOR, and the entry that init_pmp has already opened.
use nexus_am_ame.Base.{ℕ, ◌+◌, ◌-◌, ◌*◌, ◌/◌, ◌%◌, ◌^◌, ◌<◌, ◌≡◌, arith, refl}
use nexus_am_ame.Base.{Bool, true, ◌==◌, ==_iff, if◌then◌else◌, bit_or, some}
use nexus_am_ame.Base.{holds_upto, holds_upto-at, bit_or_high}
use nexus_am_ame.Riscv.Pmp.{
  Csrs, pmpaddr_base, set_cfg, csr_set_num, csr_write_num, enable_pmp, init_pmp, napot_addr,
}
use nexus_am_ame.Riscv.Pmp.Csr.{init_pmp_lem}
use nexus_am_ame.Riscv.Pmp.Entry.{cfg_byte, content, or_content_lem}

-- The registers with the bounds of a range.
bounded : ℕ → ℕ → ℕ → Csrs → Csrs
bounded reg addr size r =
    let top = csr_write_num (pmpaddr_base + reg) ((addr + size) % 2 ^ 64 / 2 ^ 2) r in
    if reg == 0 then top else csr_write_num (pmpaddr_base + reg - 1) (addr / 2 ^ 2) top

abbrev opens : ℕ → Bool
opens c = bit_or 31 c % 8 == 7

opens_table : holds_upto opens 256 ≡ true
unfolding holds_upto
opens_table = refl

-- What a call of enable_pmp that returns has done to entry 15.
enable_pmp_result :
    (addr size lock permission : ℕ) (s r' : Csrs)
    → lock < 2
    → permission < 8
    → enable_pmp 15 addr size lock permission s ≡ some r'
    → (a : ℕ) × (c : ℕ) × (c < 256) × (r' ≡ set_cfg 15 c (csr_write_num (pmpaddr_base + 15) a s))
unfolding enable_pmp
enable_pmp_result addr size lock permission s r' hl hp run = (
  (if size == 4 then addr else napot_addr addr size) / 2 ^ 2,
  content lock (if size == 4 then 2 else 3) permission,
  ground arith,
  ground (arith, or_content_lem lock 2 permission, or_content_lem lock 3 permission),
)

stays_open :
    (c a : ℕ) (s : Csrs)
    → c < 256
    → s 0x3a2 ≡ 31 * 2 ^ 56
    → cfg_byte 15 (set_cfg 15 c (csr_write_num (pmpaddr_base + 15) a s)) % 8 ≡ 7
unfolding set_cfg csr_set_num csr_write_num
stays_open c a s small old =
    let open_byte = (==_iff (bit_or 31 c % 8) 7).0 (holds_upto-at opens 256 opens_table c small) in
    let fits : c * 2 ^ 56 % 2 ^ 64 ≡ c * 2 ^ 56 = omega arith in
    rw (old, fits, bit_or_high 56 (31 * 2 ^ 56) c) (omega arith)

-- init_pmp opens entry 15 for all accesses, and enable_pmp only sets bits: whatever permissions
-- and lock a later call asks for there, the entry still grants reading, writing and execution.
pub enable_pmp-init_pmp :
    (addr size lock permission : ℕ) (r r' : Csrs)
    → lock < 2
    → permission < 8
    → enable_pmp 15 addr size lock permission (init_pmp r) ≡ some r'
    → cfg_byte 15 r' % 8 ≡ 7
enable_pmp-init_pmp addr size lock permission r r' hl hp run =
    let (a, c, small, e) = enable_pmp_result addr size lock permission (init_pmp r) r' hl hp run in
    rw e (stays_open c a (init_pmp r) small (init_pmp_lem r 0x3a2))
