-- ===== src/Riscv.antt =====
-- The RISC-V layer: am/src/xs/isa/riscv and am/src/nemu/isa/riscv.
pub mod Pmp
pub mod Plic
pub mod Vme
pub mod Cte
pub mod Mpe
pub mod Pma
pub mod Cache
pub mod Clint
pub mod Boot
mod Tests
