-- ===== src/Native/Vme/Hide.antt =====
-- The first loop of __am_switch: the pages of the old space leave the host.
use nexus_am_ame.Base.{
  ℕ, zero, suc, ◌≤◌, ◌<◌, ◌≡◌, arith, refl, sym, ap, ◌∙◌, Bool, Bool-cases, inl, inr, true, false,
  ◌==◌, ◌&&◌, ◌||◌, if◌then◌else◌, some, none, List, [], ◌∷◌, length,
}
use nexus_am_ame.Native.Vme.{PageMap, World, munmap, pmem_unmap, set_mapped, unmap_all}
use nexus_am_ame.Native.Vme.Lists.{Chain, times, lookup}
use nexus_am_ame.Native.Vme.Host.{mapped_at}
use nexus_am_ame.Native.Vme.Kept.{
  Kept, Kept-refl, Kept-trans, Chain-Kept, set_mapped-Kept, calls-Kept,
}

-- A marked node of the list has the address.
unfoldable pub is_shown : (ℕ → PageMap) → List ℕ → ℕ → Bool
is_shown nodes [] a = false
is_shown nodes (x ∷ xs) a = ((nodes x).is_mapped && (a == (nodes x).va)) || is_shown nodes xs a

pub marked_shown :
    (nodes : ℕ → PageMap) (xs : List ℕ) (a : ℕ)
    → ((x : ℕ) → 1 ≤ times x xs → (nodes x).is_mapped ≡ true)
    → is_shown nodes xs a ≡ false
    → lookup nodes xs a ≡ none
unfolding is_shown
marked_shown nodes [] a marked off = refl
marked_shown nodes (x ∷ xs) a marked off =
    let on = marked x (ground arith) in
    let other : (a == (nodes x).va) ≡ false = ground (arith, on, off) in
    rw other (marked_shown nodes xs a (λ y h. marked y (ground (arith, h))) (ground (arith, off)))

-- One round of unmap_all.
abbrev hidden : ℕ → World → World
hidden p w = if (w.nodes p).is_mapped then set_mapped p false (pmem_unmap (w.nodes p).va w) else w

hidden-Kept : (p : ℕ) (w : World) → Kept w (hidden p w)
hidden-Kept p w = elim (Bool-cases (w.nodes p).is_mapped) [
  | inl on ↦
      let called = munmap (w.nodes p).va ∷ w.calls in
      rw on (
        Kept-trans w (record w { calls = called })
          (set_mapped p false (record w { calls = called })) (calls-Kept w called)
          (set_mapped-Kept (record w { calls = called }) p false))
  | inr off ↦ rw off (Kept-refl w)
]

cleared :
    (w : World) (x p : ℕ) → (x == p) ≡ true → ((set_mapped p false w).nodes x).is_mapped ≡ false
cleared w x p here = rw here refl

-- Clearing the mark of a node with another address.
is_shown-cleared :
    (w : World) (p : ℕ) (xs : List ℕ) (a : ℕ)
    → (a == (w.nodes p).va) ≡ false
    → is_shown (set_mapped p false w).nodes xs a ≡ is_shown w.nodes xs a
unfolding is_shown
is_shown-cleared w p [] a other = refl
is_shown-cleared w p (x ∷ xs) a other = elim (Bool-cases (x == p)) [
  | inl here ↦
      let e : p ≡ x = ground (arith, here) in
      let off : (a == (w.nodes x).va) ≡ false = ap (λ q. a == (w.nodes q).va) (sym e) ∙ other in
      let rest = is_shown-cleared w p xs a other in
      let unmarked = cleared w x p here in ground (arith, off, rest, unmarked)
  | inr elsewhere ↦ rw (elsewhere, is_shown-cleared w p xs a other) refl
]

-- The host maps no more than the marked nodes of the list.
abbrev pub OnlyShown : World → List ℕ → Type 0
OnlyShown w xs = (a : ℕ) → is_shown w.nodes xs a ≡ false → mapped_at w.calls a ≡ none

hidden-OnlyShown :
    (w : World) (x : ℕ) (xs : List ℕ) → OnlyShown w (x ∷ xs) → OnlyShown (hidden x w) xs
unfolding is_shown
hidden-OnlyShown w x xs only a = elim (Bool-cases (w.nodes x).is_mapped) [
  | inl on ↦ rw on (λ off. elim (Bool-cases (a == (w.nodes x).va)) [
    | inl here ↦ rw here refl
    | inr other ↦
        let rest = is_shown-cleared (pmem_unmap (w.nodes x).va w) x xs a other in
        rw other (only a (ground (arith, other, rest, off)))
  ])
  | inr unmarked ↦ rw unmarked (λ off. only a (ground (arith, unmarked, off)))
]

pub unmap_all_lem :
    (n p : ℕ) (w : World) (xs : List ℕ)
    → length xs < n
    → Chain w.nodes p xs
    → OnlyShown w xs
    → (w' : World) × (unmap_all n p w ≡ some w')
      × Kept w w'
      × ((a : ℕ) → mapped_at w'.calls a ≡ none)
unfolding unmap_all is_shown
unmap_all_lem zero p w xs short c only = absurd (omega (arith, short))
unmap_all_lem (suc n) p w [] short c only = (w, rw c refl, Kept-refl w, λ a. only a refl)
unmap_all_lem (suc n) p w (x ∷ xs) short (e, nz, rest) only =
    let some_x : (x == 0) ≡ false = ground (arith, nz) in
    let k = hidden-Kept x w in
    let (w', run, k', empty) =
      unmap_all_lem n ((hidden x w).nodes x).next (hidden x w) xs (omega (arith, short))
        (rw (k.next x) (Chain-Kept w (hidden x w) (w.nodes x).next xs k rest))
        (hidden-OnlyShown w x xs only) in
    (w', rw (e, some_x) run, Kept-trans w (hidden x w) w' k k', empty)
