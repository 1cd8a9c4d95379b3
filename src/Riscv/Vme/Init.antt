-- ===== src/Riscv/Vme/Init.antt =====
-- `_vme_init` and `_vme_init_custom` of am/src/nemu/isa/riscv/vme.c: the kernel's address space,
-- which maps every page of its areas to itself. The segments are those of the XiangShan build.
mod Tests
use nexus_am_ame.Base.{ℕ, zero, suc, ◌+◌, ◌-◌, ◌*◌, ◌/◌, ◌%◌, ◌^◌, ◌≤◌, ◌≡◌, arith, refl, bit_or}
use nexus_am_ame.Base.{
  Option, none, some, List, [], ◌∷◌, inl, inr, Bool-cases, true, false, ltb, if◌then◌else◌, ◌>>=◌,
}
use nexus_am_ame.Riscv.Cte.{World}
use nexus_am_ame.Riscv.Vme.{Paging, pgsize, new_page, map}
use nexus_am_ame.Klib.Stdlib.{Area}

-- PTE_R | PTE_W | PTE_X | PTE_A | PTE_D
abbrev kernel_prot : ℕ
kernel_prot = 0xce

-- The loop over the pages of an area.
map_area : ℕ → ℕ → ℕ → ℕ → Paging → Option Paging
map_area zero root va end st = if ltb va end then none else some st
map_area (suc fuel) root va end st =
    let rest = map root va va kernel_prot st >>= map_area fuel root ((va + pgsize) % 2 ^ 64) end in
    if ltb va end then rest else some st

-- One step for each page of the area.
abbrev page_count : Area → ℕ
page_count area = (area.end - area.start + (pgsize - 1)) / pgsize

map_areas : ℕ → List Area → Paging → Option Paging
map_areas root [] st = some st
map_areas root (area ∷ areas) st =
    map_area (page_count area) root area.start area.end st >>= map_areas root areas

abbrev set_satp : ℕ → World → World
set_satp pdir w = record w { satp = bit_or (8 * 2 ^ 60) (pdir / 2 ^ 12) }

-- `_vme_init_custom`: the pointer in `kas`, the tables, and the world.
pub vme_init_custom : List Area → Paging → World → Option (ℕ × Paging × World)
vme_init_custom areas st w = new_page st >>= λ r. map_areas r.0 areas r.1 >>= λ st'.
    some (r.0, st', record (set_satp r.0 w) { vme_enable = true })

abbrev range_len : ℕ → ℕ → Area
range_len start len = record { start = start; end = start + len }

abbrev segments : List Area
segments =
    range_len 0x8000_0000 0x100_0000
    ∷ range_len 0x4060_0000 0x1000
    ∷ range_len 0x3800_0000 0x1_0000
    ∷ range_len 0x5000_0000 0x40_0000
    ∷ range_len 0x4000_1000 0x1000
    ∷ range_len 0x3c00_0000 0x4_0000
    ∷ range_len 0xc000_0000 0x10_0000
    ∷ []

-- `_vme_init`
pub vme_init : Paging → World → Option (ℕ × Paging × World)
vme_init = vme_init_custom segments

same_rest {ℓ} :
    {A : Type ℓ} (o : Option A) (f g : A → Option A) → ((x : A) → f x ≡ g x) → (o >>= f) ≡ (o >>= g)
same_rest none f g h = refl
same_rest (some x) f g h = h x

-- More fuel than one step for each page changes nothing.
map_area-enough :
    (fuel root va end : ℕ) (st : Paging)
    → end + pgsize ≤ 2 ^ 64
    → end ≤ va + pgsize * fuel
    → map_area (suc fuel) root va end st ≡ map_area fuel root va end st
unfolding map_area
map_area-enough zero root va end st small enough =
    let done : ltb va end ≡ false = ground arith in rw done refl
map_area-enough (suc fuel) root va end st small enough = elim (Bool-cases (ltb va end)) [
  | inr done ↦ rw done refl
  | inl more ↦ rw more (
      same_rest (map root va va kernel_prot st) _ _
        (λ st'. map_area-enough fuel root ((va + pgsize) % 2 ^ 64) end st' small (ground arith)))
]
