-- ===== src/Riscv/Cache.antt =====
-- The cache operations of am/src/xs/isa/riscv/cache.c: registers by index, and words of the
-- controller of the L3 cache. A switch over indices is the test of its range.
use nexus_am_ame.Base.{◌-◌, ℕ, ◌+◌, ◌^◌, ◌≡◌, arith, ltb, ◌==◌, if◌then◌else◌}
use nexus_am_ame.Riscv.Pmp.{Csrs, put_csr}

pub l1cache_op_read : ℕ → Csrs → ℕ
l1cache_op_read op_idx r = if ltb op_idx 12 then r (0x5c5 + op_idx) else 0

pub l1cache_data_read : ℕ → Csrs → ℕ
l1cache_data_read data_idx r = if ltb data_idx 8 then r (0x5d1 + data_idx) else 0

pub l1cache_op_write : ℕ → ℕ → Csrs → Csrs
l1cache_op_write op_idx val r = if ltb op_idx 12 then put_csr r (0x5c5 + op_idx) val else r

pub l1cache_data_write : ℕ → ℕ → Csrs → Csrs
l1cache_data_write data_idx val r = if ltb data_idx 8 then put_csr r (0x5d1 + data_idx) val else r

abbrev cache_ctrl_base : ℕ
cache_ctrl_base = 0x3900_0100

abbrev cache_cmd_base : ℕ
cache_cmd_base = 0x3900_0200

-- An int that is stored in 64 bits.
abbrev widen : ℕ → ℕ
widen v = if ltb v (2 ^ 31) then v else v + (2 ^ 64 - 2 ^ 32)

abbrev store_at : ℕ → ℕ → (ℕ → ℕ) → ℕ → ℕ
store_at a v word k = if k == a then v else word k

pub l3cache_tag : ℕ → (ℕ → ℕ) → ℕ → ℕ
l3cache_tag tag word = store_at (cache_ctrl_base + 0) (widen tag) word

pub l3cache_set : ℕ → (ℕ → ℕ) → ℕ → ℕ
l3cache_set set word = store_at (cache_ctrl_base + 8) (widen set) word

pub l3cache_cmd : ℕ → (ℕ → ℕ) → ℕ → ℕ
l3cache_cmd cmd word = store_at cache_cmd_base (widen cmd) word

-- A write of an operation register is read back at its index only, and no read of data changes;
-- a write of a data register likewise, and no read of an operation register changes.
pub l1cache_writes :
    (i j val : ℕ) (r : Csrs)
    → (l1cache_op_read j (l1cache_op_write i val r)
        ≡ (if i == j then (if ltb i 12 then val else 0) else l1cache_op_read j r))
      × (l1cache_data_read j (l1cache_op_write i val r) ≡ l1cache_data_read j r)
      × (l1cache_data_read j (l1cache_data_write i val r)
          ≡ (if i == j then (if ltb i 8 then val else 0) else l1cache_data_read j r))
      × (l1cache_op_read j (l1cache_data_write i val r) ≡ l1cache_op_read j r)
unfolding l1cache_op_read l1cache_data_read l1cache_op_write l1cache_data_write
l1cache_writes i j val r = (ground arith, ground arith, ground arith, ground arith)
