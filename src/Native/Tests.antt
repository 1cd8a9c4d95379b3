-- ===== src/Native/Tests.antt =====
-- Runs of the address spaces of the host, and their theorems at concrete inputs.
use nexus_am_ame.Base.{ℕ, ◌≡◌, ◌≢◌, arith, refl, true, ◌==◌, if◌then◌else◌, some, none, [], ◌∷◌}
use nexus_am_ame.Native.Vme.{World, mmap, find_map, map, am_switch}
use nexus_am_ame.Native.Vme.Lists.{count_va, lookup}
use nexus_am_ame.Native.Vme.Host.{IsSpace, IsShown}
use nexus_am_ame.Native.Vme.Again.{map_again_lem}
use nexus_am_ame.Native.Vme.Switch.{am_switch_lem}

-- The space at 0x5000 is in use and has one page, with its node at 0x6000; the space at 0x7000
-- has the node at 0x8000.
abbrev two_spaces : World
two_spaces = record {
  nodes = λ a. record {
    va = if a == 0x6000 then 0x40000000 else 0x40001000;
    pa = if a == 0x6000 then 0x3005000 else 0x3006000;
    next = if a == 0x5000 then 0x6000 else (if a == 0x7000 then 0x8000 else 0);
    prot = 6;
    is_mapped = a == 0x6000;
  };
  vme_enable = true;
  vm_head = 0x5000;
  pgsize = 4096;
  pages = 0x9000 ∷ [];
  calls = mmap 0x40000000 7 0x5000 ∷ [];
}

first_IsSpace : IsSpace two_spaces 0x5000 (0x6000 ∷ [])
first_IsSpace = record {
  chain = (refl, (λ z. omega (arith, z)), refl);
  head_out = refl;
  not_null = λ z. omega (arith, z);
  distinct = λ a. ground arith;
  in_user = λ x h. ground (arith, h);
}

second_IsSpace : IsSpace two_spaces 0x7000 (0x8000 ∷ [])
second_IsSpace = record {
  chain = (refl, (λ z. omega (arith, z)), refl);
  head_out = refl;
  not_null = λ z. omega (arith, z);
  distinct = λ a. ground arith;
  in_user = λ x h. ground (arith, h);
}

first_IsShown : IsShown two_spaces (0x6000 ∷ [])
first_IsShown = record { host = λ a. refl; marked = λ x h. ground (arith, h) }

map_again_lem_example :
    (w' : World) × (map 1 0x5000 0x40000000 0x3008000 2 two_spaces ≡ some w')
    × ((m other : ℕ)
        → other ≢ 0x40000000
        → count_va two_spaces.nodes other [] ≡ 0
        → find_map m other (w'.nodes 0x5000).next w'.nodes ≡ none)
map_again_lem_example =
    map_again_lem 1 0x5000 0x40000000 0x3008000 2 0x6000 [] [] two_spaces refl (omega arith)
      first_IsSpace.chain refl refl refl

am_switch_lem_example :
    (w' : World) × (am_switch 2 0x7000 two_spaces ≡ some w')
    × (w'.vm_head ≡ 0x7000)
    × ((a : ℕ) → lookup w'.nodes (0x8000 ∷ []) a ≡ lookup two_spaces.nodes (0x8000 ∷ []) a)
    × IsSpace w' 0x7000 (0x8000 ∷ [])
    × IsShown w' (0x8000 ∷ [])
am_switch_lem_example =
    am_switch_lem 2 0x7000 two_spaces (0x6000 ∷ []) (0x8000 ∷ []) refl (λ z. omega (arith, z))
      first_IsSpace second_IsSpace first_IsShown (omega arith) (omega arith)
