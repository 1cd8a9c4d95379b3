-- ===== src/Riscv/Pmp/Csr.antt =====
-- The four accesses by number, and init_pmp.
use nexus_am_ame.Base.{ℕ, zero, suc, ◌+◌, ◌*◌, ◌^◌, ◌≤◌, ◌≡◌, arith}
use nexus_am_ame.Base.{leb, ltb, ◌==◌, ◌&&◌, if◌then◌else◌, bit_or}
use nexus_am_ame.Riscv.Pmp.{
  Csrs, has_case, and_not, csr_read_num, csr_write_num, csr_set_num, csr_clear_num,
}
use nexus_am_ame.Riscv.Pmp.{fill_addrs, init_pmp, all_ones, pmpaddr_base}

-- A register that the switch names reads back what was written, or set, or cleared; every other
-- register keeps its value. A number outside the switch reads as 0 and its write is lost.
pub csr_read_num-write :
    (num n val : ℕ) (r : Csrs)
    → (csr_read_num n (csr_write_num num val r)
        ≡ (if has_case n then (if n == num then val else r n) else 0))
      × (csr_read_num n (csr_set_num num val r)
          ≡ (if has_case n then (if n == num then bit_or (r n) val else r n) else 0))
      × (csr_read_num n (csr_clear_num num val r)
          ≡ (if has_case n then (if n == num then and_not (r n) val else r n) else 0))
unfolding csr_read_num csr_write_num csr_set_num csr_clear_num
csr_read_num-write num n val r = (ground arith, ground arith, ground arith)

fill_addrs-at :
    (left i n : ℕ) (r : Csrs)
    → i + left ≤ 64
    → fill_addrs left i r n
      ≡ (if leb (pmpaddr_base + i) n && ltb n (pmpaddr_base + (i + left)) then all_ones else r n)
unfolding fill_addrs csr_write_num
fill_addrs-at zero i n r h = ground arith
fill_addrs-at (suc left) i n r h = ground (
  arith,
  fill_addrs-at left (i + 1) n (csr_write_num (pmpaddr_base + i) all_ones r) (omega arith),
)

-- After init_pmp every entry has the largest address, the byte of entry 15 says NAPOT with all
-- three permissions, the other bytes of its register are off, and no other register changes.
pub init_pmp_lem :
    (r : Csrs) (n : ℕ)
    → init_pmp r n
      ≡ (if n == 0x3a2 then 31 * 2 ^ 56 else (if leb 0x3b0 n && ltb n 0x3c0 then all_ones else r n))
unfolding init_pmp
init_pmp_lem r n = ground (arith, fill_addrs-at 16 0 n r (omega arith))
