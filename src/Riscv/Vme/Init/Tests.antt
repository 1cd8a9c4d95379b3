-- ===== src/Riscv/Vme/Init/Tests.antt =====
-- Runs of the set-up of the kernel's address space.
use nexus_am_ame.Base.{ℕ, ◌≡◌, Option, refl, some, none, false, [], ◌∷◌, ◌>>=◌}
use nexus_am_ame.Riscv.Cte.{World}
use nexus_am_ame.Riscv.Vme.{
  Paging, map, walk, descend, new_page, take_page, vpn, pte_addr, pointer_pte, leaf_pte,
}
use nexus_am_ame.Riscv.Vme.Sv39.{from_table, translate}
use nexus_am_ame.Riscv.Vme.Init.{vme_init_custom, map_area, map_areas}

abbrev world : World
world = record {
  contexts = λ a. record { gpr = λ n. 0; scause = 0; sstatus = 0; sepc = 0 };
  sip = 0;
  satp = 0;
  vme_enable = false;
}

-- An area of two pages.
abbrev started : Option (ℕ × Paging × World)
started =
    vme_init_custom (record { start = 0x8000_0000; end = 0x8000_2000 } ∷ [])
      (record { mem = λ a. 7; pages = 0x9000_0000 ∷ 0x9000_1000 ∷ 0x9000_2000 ∷ [] }) world

-- Its second page is mapped to itself.
finds_last_page : (started >>= λ r. translate r.1.mem r.0 0x8000_1456) ≡ some (0x8000_1456, 0xcf)
unfolding vme_init_custom map_areas map_area map walk descend new_page take_page vpn pte_addr
    pointer_pte leaf_pte from_table
finds_last_page = refl

-- The page after it is not mapped.
stops_at_end : (started >>= λ r. some (translate r.1.mem r.0 0x8000_2000)) ≡ some none
unfolding vme_init_custom map_areas map_area map walk descend new_page take_page vpn pte_addr
    pointer_pte leaf_pte from_table
stops_at_end = refl

sets_satp : (started >>= λ r. some r.2.satp) ≡ some 0x8000_0000_0009_0000
unfolding vme_init_custom map_areas map_area map walk descend new_page take_page vpn pte_addr
    pointer_pte leaf_pte
sets_satp = refl
