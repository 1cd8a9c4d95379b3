-- ===== src/Riscv/Clint.antt =====
-- The timer of am/src/xs/isa/riscv/clint.c, over 64-bit words by address and a register file.
-- `rtc` is RTC_ADDR, which the build gives.
use nexus_am_ame.Base.{ℕ, ◌+◌, ◌-◌, ◌%◌, ◌^◌, bit_or, ◌==◌, if◌then◌else◌}
use nexus_am_ame.Riscv.Pmp.{Csrs, put_csr, and_not}

pub record ClintInfo : Type 0 where
  pub mtimecmp : ℕ
  pub time_inc : ℕ

-- `handle_addr` is the address of `timer_handle`.
pub record Machine : Type 0 where
  pub timer_handle : ClintInfo
  pub handle_addr : ℕ
  pub word : ℕ → ℕ
  pub csr : Csrs

abbrev pub time_inc_value : ℕ
time_inc_value = 0x800

abbrev pub clint_mmio : ℕ → ℕ
clint_mmio rtc = rtc - 0xbff8

abbrev pub clint_mtimecmp : ℕ → ℕ
clint_mtimecmp rtc = clint_mmio rtc + 0x4000

unfoldable pub set_timer_inc : ℕ → Machine → Machine
set_timer_inc inc s = record s { timer_handle = record s.timer_handle { time_inc = inc } }

-- The message that it prints is left out.
unfoldable pub init_timer : ℕ → Machine → Machine
init_timer rtc s =
    let placed : Machine = record s {
      timer_handle = record s.timer_handle { mtimecmp = clint_mtimecmp rtc };
    } in
    let ready = set_timer_inc time_inc_value placed in
    record ready {
      word =
          λ a. if a == clint_mtimecmp rtc then (s.word rtc + time_inc_value) % 2 ^ 64 else s.word a;
      csr = put_csr s.csr 0x340 s.handle_addr;
    }

-- Bits 7, 5 and 1 of `mie`.
abbrev pub timer_bits : ℕ
timer_bits = 2 ^ 7 + 2 ^ 5 + 2 ^ 1

unfoldable pub enable_timer : Machine → Machine
enable_timer s = record s { csr = put_csr s.csr 0x304 (bit_or (s.csr 0x304) timer_bits) }

unfoldable pub disable_timer : Machine → Machine
disable_timer s = record s { csr = put_csr s.csr 0x304 (and_not (s.csr 0x304) timer_bits) }
