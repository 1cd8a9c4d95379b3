-- ===== src/Native/Vme/Map.antt =====
-- _map of an address that the space does not have yet.
use nexus_am_ame.Base.{
  ℕ, ◌%◌, ◌≡◌, ◌≢◌, arith, refl, sym, Bool, Bool-cases, inl, inr, true, false, ◌==◌, ◌&&◌, not,
  if◌then◌else◌, some, List, [], ◌∷◌,
}
use nexus_am_ame.Native.Vme.{
  AddressSpace, World, protect, pmem_map, set_mapped, in_user_space, link_node, find_map, map,
}
use nexus_am_ame.Native.Vme.Lists.{times, count_va}
use nexus_am_ame.Native.Vme.Host.{IsSpace}

-- What _map asserts.
abbrev pub may_map : ℕ → ℕ → ℕ → World → Bool
may_map head va pa w =
    in_user_space va && (va % w.pgsize == 0) && (pa % w.pgsize == 0) && not (head == 0)

-- A new space has no page, if the allocator clears the pages that it gives.
pub protect-IsSpace :
    (w : World) (p : ℕ) (ps : List ℕ)
    → w.pages ≡ p ∷ ps
    → p ≢ 0
    → (w.nodes p).next ≡ 0
    → (space : AddressSpace) × (w' : World) × (protect w ≡ some (space, w'))
      × IsSpace w' space.ptr []
unfolding protect
protect-IsSpace w p ps e some_p clear = (
  record { ptr = p; pgsize = w.pgsize; area = (0x40000000, 0xc0000000) },
  record w { pages = ps },
  rw e refl,
  record {
    chain = clear;
    head_out = refl;
    not_null = some_p;
    distinct = λ a. omega arith;
    in_user = λ x h. absurd (omega (arith, h));
  },
)

module _ (head va pa prot p : ℕ) (ps : List ℕ) (w : World) (apart : p ≢ head) where
  abbrev pub linked : World
  linked = link_node head va pa prot p (record w { pages = ps })

  abbrev pub mapped_new : World
  mapped_new =
      if head == linked.vm_head then set_mapped p true (pmem_map va pa prot linked) else linked

  pub mapped_new-head : (mapped_new.nodes head).next ≡ p
  mapped_new-head =
      let off : (head == p) ≡ false = ground (arith, apart) in
      let self : (head == head) ≡ true = ground arith in
      elim (Bool-cases (head == w.vm_head)) [
        | inl now ↦ rw (now, off, self) refl
        | inr later ↦ rw (later, self) refl
      ]

  pub mapped_new-node : mapped_new.nodes p ≡ record {
    va = va;
    pa = pa;
    prot = prot;
    is_mapped = head == w.vm_head;
    next = (w.nodes head).next;
  }
  mapped_new-node =
      let off : (p == head) ≡ false = ground (arith, apart) in
      let self : (p == p) ≡ true = ground arith in
      elim (Bool-cases (head == w.vm_head)) [
        | inl now ↦ rw (now, off, self) refl
        | inr later ↦ rw (later, off, self) refl
      ]

  pub mapped_new-other : (a : ℕ) → a ≢ p → a ≢ head → mapped_new.nodes a ≡ w.nodes a
  mapped_new-other a np nh =
      let off_p : (a == p) ≡ false = ground (arith, np) in
      let off : (a == head) ≡ false = ground (arith, nh) in
      elim (Bool-cases (head == w.vm_head)) [
        | inl now ↦ rw (now, off_p, off) refl
        | inr later ↦ rw (later, off_p, off) refl
      ]

  pub map-mapped_again :
      (n : ℕ)
      → may_map head va pa w ≡ true
      → find_map n va (w.nodes head).next w.nodes ≡ some p
      → p ≢ 0
      → w.pages ≡ ps
      → map n head va pa prot w ≡ some mapped_new
  unfolding map
  map-mapped_again n may found nz e =
      let some_p : (p == 0) ≡ false = ground (arith, nz) in rw (may, found, some_p, sym e) refl

module _ (head va pa prot p : ℕ) (ps xs : List ℕ) (w : World) (space : IsSpace w head xs)
    (p_head : p ≢ head) (p_out : times p xs ≡ 0) (p_some : p ≢ 0)
    (absent : count_va w.nodes va xs ≡ 0) where
  abbrev after : World
  after = mapped_new head va pa prot p ps w p_head
