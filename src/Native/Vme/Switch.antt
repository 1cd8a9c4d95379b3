-- ===== src/Native/Vme/Switch.antt =====
-- __am_switch: the pages of the old space leave the host, and those of the new one come.
use nexus_am_ame.Base.{
  ℕ, ◌<◌, ◌≡◌, ◌≢◌, arith, refl, sym, ◌∙◌, Bool-cases, inl, inr, true, false, ◌==◌, if◌then◌else◌,
  some, none, List, [], ◌∷◌, length,
}
use nexus_am_ame.Native.Vme.{PageMap, World, unmap_all, map_all, am_switch}
use nexus_am_ame.Native.Vme.Lists.{count_va, lookup}
use nexus_am_ame.Native.Vme.Host.{IsSpace, IsShown}
use nexus_am_ame.Native.Vme.Hide.{marked_shown, unmap_all_lem}
use nexus_am_ame.Native.Vme.Show.{map_all_lem}
use nexus_am_ame.Native.Vme.Kept.{Kept-trans, Chain-Kept, lookup-Kept, count_va-Kept}

-- An address that no node has.
lookup-none :
    (nodes : ℕ → PageMap) (ys : List ℕ) (a : ℕ) → count_va nodes a ys ≡ 0 → lookup nodes ys a ≡ none
lookup-none nodes [] a absent = refl
lookup-none nodes (y ∷ ys) a absent =
    let other : (a == (nodes y).va) ≡ false = ground (arith, absent) in
    rw other (lookup-none nodes ys a (ground (arith, absent)))

absent_lookup :
    (nodes : ℕ → PageMap) (ys : List ℕ) (a : ℕ)
    → (if count_va nodes a ys == 0 then none else lookup nodes ys a) ≡ lookup nodes ys a
absent_lookup nodes ys a = elim (Bool-cases (count_va nodes a ys == 0)) [
  | inl absent ↦ rw absent (sym (lookup-none nodes ys a (ground (arith, absent))))
  | inr there ↦ rw there refl
]

module _ (n head : ℕ) (w : World) (xs ys : List ℕ) (enabled : w.vme_enable ≡ true)
    (other : head ≢ w.vm_head) (old : IsSpace w w.vm_head xs) (new : IsSpace w head ys)
    (shown : IsShown w xs) (old_short : length xs < n) (new_short : length ys < n) where
  switched :
      (w1 w2 : World)
      → unmap_all n (w.nodes w.vm_head).next w ≡ some w1
      → map_all n (w1.nodes head).next w1 ≡ some w2
      → am_switch n head w ≡ some (record w2 { vm_head = head })
  unfolding am_switch
  switched w1 w2 hides shows =
      let differ : (head == w.vm_head) ≡ false = ground (arith, other) in
      let used : (w.vm_head == 0) ≡ false = (let nz = old.not_null in ground (arith, nz)) in
      let some_new : (head == 0) ≡ false = (let nz = new.not_null in ground (arith, nz)) in
      rw (differ, used, hides, enabled, some_new, shows) refl

  -- __am_switch from the space in use to another one, where the host maps what the first says,
  -- returns with one step of fuel for each node of either and one more. Then the other space is in
  -- use, its list is the same, and the host maps what it says and nothing else.
  pub am_switch_lem :
      (w' : World) × (am_switch n head w ≡ some w')
      × (w'.vm_head ≡ head)
      × ((a : ℕ) → lookup w'.nodes ys a ≡ lookup w.nodes ys a)
      × IsSpace w' head ys
      × IsShown w' ys
  am_switch_lem =
      let (w1, hides, k1, empty) =
        unmap_all_lem n (w.nodes w.vm_head).next w xs old_short old.chain
          (λ a off. shown.host a ∙ marked_shown w.nodes xs a shown.marked off) in
      let (w2, shows, m) =
        map_all_lem n (w1.nodes head).next w1 ys new_short
          (rw (k1.next head) (Chain-Kept w w1 (w.nodes head).next ys k1 new.chain))
          (λ a. rw (count_va-Kept w w1 ys a k1) (new.distinct a))
          (λ x h. rw (k1.va x) (new.in_user x h)) in
      let k = Kept-trans w w1 w2 k1 m.kept in
      (
        record w2 { vm_head = head },
        switched w1 w2 hides shows,
        refl,
        λ a. lookup-Kept w w2 ys a k,
        record {
          chain = rw (k.next head) (Chain-Kept w w2 (w.nodes head).next ys k new.chain);
          head_out = new.head_out;
          not_null = new.not_null;
          distinct = λ a. rw (count_va-Kept w w2 ys a k) (new.distinct a);
          in_user = λ x h. rw (k.va x) (new.in_user x h);
        },
        record {
          host = λ a.
              m.host a
              ∙ (rw (empty a) (absent_lookup w1.nodes ys a))
              ∙ sym (lookup-Kept w1 w2 ys a m.kept);
          marked = m.marked;
        },
      )
