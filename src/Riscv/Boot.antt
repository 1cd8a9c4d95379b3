-- ===== src/Riscv/Boot.antt =====
-- __am_init_cte64 of am/src/nemu/isa/riscv/cte64.c, in the XiangShan build, up to its `sret`. The
-- messages are left out. sstatus is kept apart from mstatus here, since neither is read after it.
pub mod Regions
use nexus_am_ame.Base.{
  ℕ, ◌+◌, ◌*◌, ◌^◌, bit_or, Bool, true, false, if◌then◌else◌, Option, some, none, ◌>>=◌,
}
use nexus_am_ame.Riscv.Pmp.{Csrs, put_csr, init_pmp, enable_pmp, enable_pmp_tor}
use nexus_am_ame.Riscv.Clint.{Machine, init_timer, enable_timer}

abbrev pmp_r : ℕ
pmp_r = 1

abbrev pmp_w : ℕ
pmp_w = 2

-- The calls that protect ranges of memory.
unfoldable pub protect : Csrs → Option Csrs
protect r = enable_pmp 1 0x9000_0000 0x1_0000 0 0 (init_pmp r) >>= λ r1.
    enable_pmp_tor 3 0xb000_0000 0x1000 0 0 r1 >>= λ r2.
    enable_pmp_tor 5 0xb000_4000 0x1000 0 pmp_r r2 >>= λ r3.
    enable_pmp_tor 7 0xb000_8000 0x1000 0 pmp_w r3 >>= λ r4.
    enable_pmp_tor 9 0xb001_0000 0x1000 0 0 r4

-- mtvec
pub init_machine_exception : ℕ → Machine → Machine
init_machine_exception timervec s = record s { csr = put_csr s.csr 0x305 timervec }

-- mie and mstatus
pub init_eip : Machine → Machine
init_eip s =
    let enabled = put_csr s.csr 0x304 (bit_or (s.csr 0x304) (2 ^ 11)) in
    record s { csr = put_csr enabled 0x300 (bit_or (enabled 0x300) (2 ^ 3)) }

-- `timervec` and `here` are the addresses of __am_timervec and _here.
pub am_init_cte64 : ℕ → ℕ → ℕ → Bool → Machine → Option Machine
am_init_cte64 rtc timervec here disable_timer s =
    let delegated = put_csr (put_csr s.csr 0x303 0xffff) 0x302 0xfffb in
    protect delegated >>= λ r.
    let s1 = init_machine_exception timervec (record s { csr = r }) in
    let s2 = init_timer rtc s1 in
    let s3 = if disable_timer then s2 else enable_timer s2 in
    let s4 = init_eip s3 in
    some (record s4 { csr = put_csr (put_csr s4.csr 0x100 (1 * 2 ^ 8)) 0x141 here })
