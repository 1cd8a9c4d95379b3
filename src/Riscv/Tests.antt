-- ===== src/Riscv/Tests.antt =====
-- Runs of the RISC-V drivers, and their theorems at concrete inputs.
use nexus_am_ame.Base.{
  none, false, inl, inr, ℕ, ◌+◌, ◌*◌, ◌/◌, ◌^◌, ◌<◌, ◌≤◌, ◌≡◌, refl, arith, some, ◌-◌, [], ◌∷◌,
}
use nexus_am_ame.Base.{◌==◌, if◌then◌else◌, ◌↔◌}
use nexus_am_ame.Riscv.Pmp.{Csrs, csr_write_num, pmpaddr_base, init_pmp, enable_pmp, set_cfg}
use nexus_am_ame.Riscv.Boot.{protect}
use nexus_am_ame.Riscv.Boot.Regions.{permits, allowed, protect_lem}
use nexus_am_ame.Riscv.Pmp.Entry.{cfg_reg, cfg_unit, content, enable_pmp_lem}
use nexus_am_ame.Riscv.Vme.{Words, Paging, map, map_fault, map_rv_hugepage}
use nexus_am_ame.Riscv.Vme.Space.{AddressSpace, protect_as, protect_as-translate}
use nexus_am_ame.Riscv.Vme.Sv39.{from_table, translate}
use nexus_am_ame.Riscv.Vme.Path.{map-translate}
use nexus_am_ame.Riscv.Vme.Walk.{Ensures, map_keeps_valid}
use nexus_am_ame.Riscv.Cte.{
  Context, World, Handler, Handlers, default_handler, secall_handler, registered, irq_handle,
  cte_init,
}
use nexus_am_ame.Riscv.Cte.Dispatch.{handle_by}
use nexus_am_ame.Riscv.Cte.Init.{cte_init-irq_handle}

-- All registers are 0.
abbrev cleared : ℕ → ℕ
cleared n = 0

-- 4 KiB at 0x80001000, for reading only.
enable_pmp_lem_example :
    (r' : Csrs) × (enable_pmp 9 0x8000_1000 0x1000 0 1 cleared ≡ some r')
    × ((n : ℕ)
        → r' n ≡ (
            if n == pmpaddr_base + 9
            then 0x8_0001 * 2 ^ 10 + (2 ^ 9 - 1)
            else (if n == cfg_reg 9 then content 0 3 1 * cfg_unit 9 else 0)))
    × ((x : ℕ) → (x / 2 ^ 12 ≡ 0x8_0001) ↔ ((0x8000_1000 ≤ x) × (x < 0x8000_1000 + 2 ^ 12)))
enable_pmp_lem_example =
    enable_pmp_lem 9 9 0x8_0001 0 1 cleared (omega arith) (omega arith) (omega arith) (omega arith)
      refl

-- A word that a call denies all access to, as it thinks.
abbrev denied : Csrs
denied = set_cfg 15 16 (csr_write_num (pmpaddr_base + 15) 0x2000_0000 (init_pmp cleared))

denied_run : enable_pmp 15 0x8000_0000 4 0 0 (init_pmp cleared) ≡ some denied
unfolding enable_pmp
denied_run = refl

-- A valid entry in the root table, and two pages to give.
abbrev tables : Words
tables a = if a == 0x8000_0008 then 0x2000_0c01 else 0

abbrev paging : Paging
paging = record { mem = tables; pages = 0x8000_1000 ∷ 0x8000_2000 ∷ [] }

map_keeps_valid_example :
    Ensures
      (λ st'. st'.mem 0x8000_0008 ≡ tables 0x8000_0008)
      (map 0x8000_0000 0x4000_0000 0x9000_0000 0x0e paging)
    × Ensures
        (λ st'. st'.mem 0x8000_0008 ≡ tables 0x8000_0008)
        (map_fault 77 0x8000_0000 0x4000_0000 0x9000_0000 0x0e paging)
    × Ensures
        (λ st'. st'.mem 0x8000_0008 ≡ tables 0x8000_0008)
        (map_rv_hugepage 0x8000_0000 0x4000_0000 0x9000_0000 0x0e 1 paging)
map_keeps_valid_example =
    map_keeps_valid 0x8000_0008 0x8000_0000 0x4000_0000 0x9000_0000 paging (refl, (refl, tt))
      (omega arith, (omega arith, tt)) refl 0x0e 1 77

map-translate_example :
    (st' : Paging) × (map 0x8000_0000 0x4000_0000 0x9000_0000 0x0e paging ≡ some st')
    × (translate st'.mem 0x8000_0000 0x4000_0123 ≡ some (0x9000_0123, 0x0f))
map-translate_example =
    map-translate 0x8000_0000 0x4000_0000 0x9000_0000 0x0e 0x123 paging
      ((refl, omega arith, (omega arith, tt)), ((refl, omega arith, tt), tt))
      (
        refl,
        (omega arith, (omega arith, tt)),
        inl (
          ((refl, refl, refl), omega arith),
          (refl, (omega arith, (omega arith, tt)), inr (refl, omega arith)),
        ),
      )
      refl refl (omega arith) (omega arith) (omega arith) (omega arith) refl (omega arith)

-- A context that made an ecall, in a world without address translation.
abbrev calling : Context
calling = record { gpr = λ n. 2 ^ 64 - 1; scause = 9; sstatus = 0x120; sepc = 0x8000_0100 }

abbrev world : World
world = record { contexts = λ a. calling; sip = 2; satp = 0; vme_enable = false }

-- The kernel's tables, with an entry that leads into them and one for a large page of its own.
abbrev kernel_tables : Words
kernel_tables a = if a == 0x8000_0010 then 0x2000_00cf else tables a

protect_as-translate_example :
    (r : AddressSpace × Paging) × (protect_as 0x8000_0000
        (record { mem = kernel_tables; pages = 0x8001_0000 ∷ [] })
      ≡ some r)
    × (translate r.1.mem r.0.ptr 0x8000_0123 ≡ some (0x8000_0123, 0xcf))
    × (translate r.1.mem 0x8000_0000 0x8000_0123 ≡ some (0x8000_0123, 0xcf))
unfolding from_table
protect_as-translate_example =
    protect_as-translate 0x8000_0000 0x8000_0123 0x8001_0000 [] kernel_tables refl
      (refl, omega arith, inl (omega arith))

-- Tables that hold nothing of use, and no handlers of the client.
abbrev empty : Handlers
empty = record {
  interrupt_handler = λ k. default_handler;
  exception_handler = λ k. default_handler;
  custom_soft_handler = none;
  custom_timer_handler = none;
  custom_external_handler = none;
  custom_secall_handler = none;
}

cte_init-irq_handle_example :
    (hs' : Handlers) × (cte_init empty ≡ some hs')
    × (irq_handle hs' 0x8010_0000 world ≡ handle_by empty secall_handler 0x8010_0000 world)
cte_init-irq_handle_example = cte_init-irq_handle empty 0x8010_0000 world (omega arith)

abbrev ignores : Handler
ignores = registered (λ ev c w. some (ev, w))

protect_lem_example :
    (r : Csrs) × (protect cleared ≡ some r)
    × ((a : ℕ)
        → a < 2 ^ 56
        → (permits r 1 a ≡ allowed 1 a)
          × (permits r 2 a ≡ allowed 2 a)
          × (permits r 4 a ≡ allowed 4 a))
protect_lem_example = protect_lem cleared refl
