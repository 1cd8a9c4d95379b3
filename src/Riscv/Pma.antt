-- ===== src/Riscv/Pma.antt =====
-- The memory attribute registers of am/src/xs/isa/riscv/pma.c. A switch over the indices 0 to 15
-- is the test of its range; an index that is negative as an int is none of them.
use nexus_am_ame.Base.{ℕ, ◌+◌, ◌<◌, ◌≡◌, arith, ltb, ◌==◌, if◌then◌else◌}
use nexus_am_ame.Riscv.Pmp.{Csrs, put_csr, csr_read_num, csr_write_num, pmpaddr_base}

pub pma_get_addr : ℕ → Csrs → ℕ
pma_get_addr addr_idx r = if ltb addr_idx 16 then r (0x3b0 + addr_idx) else 0

pub pma_get_cfg : ℕ → Csrs → ℕ
pma_get_cfg cfg_idx r = if cfg_idx == 0 then r 0x3a0 else (if cfg_idx == 2 then r 0x3a2 else 0)

pub pma_set_addr : ℕ → ℕ → Csrs → Csrs
pma_set_addr addr_idx val r = if ltb addr_idx 16 then put_csr r (0x3b0 + addr_idx) val else r

pub pma_set_cfg : ℕ → ℕ → Csrs → Csrs
pma_set_cfg cfg_idx val r =
    if cfg_idx == 0 then put_csr r 0x3a0 val else (if cfg_idx == 2 then put_csr r 0x3a2 val else r)

-- After a write of an address register the read of any of the 16 gives the value written or what
-- it gave before, and the reads of the configuration stay.
pub pma_set_addr-get :
    (i j val : ℕ) (r : Csrs)
    → (pma_get_addr j (pma_set_addr i val r)
        ≡ (if (i == j) then (if ltb i 16 then val else 0) else pma_get_addr j r))
      × (pma_get_cfg j (pma_set_addr i val r) ≡ pma_get_cfg j r)
unfolding pma_get_addr pma_set_addr pma_get_cfg
pma_set_addr-get i j val r = (ground arith, ground arith)

-- For the address registers of the 16 entries these accesses are those of the protection driver.
pub pma_addr_agrees :
    (i val : ℕ) (r : Csrs)
    → i < 16
    → (pma_get_addr i r ≡ csr_read_num (pmpaddr_base + i) r)
      × (pma_set_addr i val r ≡ csr_write_num (pmpaddr_base + i) val r)
unfolding pma_get_addr pma_set_addr csr_read_num csr_write_num
pma_addr_agrees i val r lt = (ground arith, ground arith)
