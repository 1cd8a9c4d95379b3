-- ===== src/Native/Vme/Again.antt =====
-- _map of an address that the space has already: the list becomes a ring.
use nexus_am_ame.Base.{
  ℕ, zero, suc, ◌≤◌, ◌<◌, ◌≡◌, ◌≢◌, arith, refl, sym, ap, subst, ◌∙◌, Bool-cases, inl, inr, true,
  false, ◌==◌, some, none, List, [], ◌∷◌, ◌++◌, length,
}
use nexus_am_ame.Native.Vme.{PageMap, World, find_map, map}
use nexus_am_ame.Native.Vme.Lists.{Chain, times, count_va}
use nexus_am_ame.Native.Vme.Map.{
  may_map, mapped_new, mapped_new-head, mapped_new-node, mapped_new-other, map-mapped_again,
}

first_in :
    (nodes : ℕ → PageMap) (p x : ℕ) (ys zs : List ℕ)
    → Chain nodes p (ys ++ x ∷ zs)
    → (1 ≤ times p (x ∷ ys)) × (p ≢ 0)
first_in nodes p x [] zs (e, nz, rest) = (ground (arith, e), λ z. nz (sym e ∙ z))
first_in nodes p x (y ∷ ys) zs (e, nz, rest) = (ground (arith, e), λ z. nz (sym e ∙ z))

one_more : (b x y : ℕ) (ys : List ℕ) → 1 ≤ times b (x ∷ ys) → 1 ≤ times b (x ∷ y ∷ ys)
one_more b x y ys h = ground (arith, h)

-- The node behind one in front of `x` is one in front of `x`, or `x`.
next_in :
    (nodes : ℕ → PageMap) (p x : ℕ) (ys zs : List ℕ) (a : ℕ)
    → Chain nodes p (ys ++ x ∷ zs)
    → 1 ≤ times a ys
    → (1 ≤ times (nodes a).next (x ∷ ys)) × (a ≢ 0)
next_in nodes p x [] zs a c h = absurd (omega (arith, h))
next_in nodes p x (y ∷ ys) zs a (e, nz, rest) h = elim (Bool-cases (a == y)) [
  | inl here ↦
      let same : a ≡ y = ground (arith, here) in
      let (first, some_next) = first_in nodes (nodes y).next x ys zs rest in
      subst (λ b. (1 ≤ times (nodes b).next (x ∷ y ∷ ys)) × (b ≢ 0)) (sym same)
        (one_more (nodes y).next x y ys first, nz)
  | inr other ↦
      let (later, some_a) =
        next_in nodes (nodes y).next x ys zs a rest (ground (arith, h, other)) in
      (ground (arith, later), some_a)
]

found_at :
    (n va p : ℕ) (nodes : ℕ → PageMap) (x : ℕ) (ys zs : List ℕ)
    → length ys < n
    → Chain nodes p (ys ++ x ∷ zs)
    → (nodes x).va ≡ va
    → count_va nodes va ys ≡ 0
    → find_map n va p nodes ≡ some x
unfolding find_map
found_at zero va p nodes x ys zs short c here absent = absurd (omega (arith, short))
found_at (suc n) va p nodes x [] zs short (e, nz, rest) here absent =
    let some_x : (x == 0) ≡ false = ground (arith, nz) in
    let it : ((nodes x).va == va) ≡ true = ground (arith, here) in rw (e, some_x, it) refl
found_at (suc n) va p nodes x (y ∷ ys) zs short (e, nz, rest) here absent =
    let some_y : (y == 0) ≡ false = ground (arith, nz) in
    let other : ((nodes y).va == va) ≡ false = ground (arith, absent) in
    rw (e, some_y, other)
      (found_at n va (nodes y).next nodes x ys zs (omega (arith, short)) rest here
        (ground (arith, absent)))

last_some : (nodes : ℕ → PageMap) (p x : ℕ) (ys zs : List ℕ) → Chain nodes p (ys ++ x ∷ zs) → x ≢ 0
last_some nodes p x [] zs (e, nz, rest) = nz
last_some nodes p x (y ∷ ys) zs (e, nz, rest) = last_some nodes (nodes y).next x ys zs rest

-- A search in a ring without the address.
find_map-ring :
    (n va p : ℕ) (nodes : ℕ → PageMap) (ring : List ℕ)
    → ((a : ℕ) → 1 ≤ times a ring → (1 ≤ times (nodes a).next ring) × (a ≢ 0) × ((nodes a).va ≢ va))
    → 1 ≤ times p ring
    → find_map n va p nodes ≡ none
unfolding find_map
find_map-ring zero va p nodes ring closed there = refl
find_map-ring (suc n) va p nodes ring closed there =
    let (next, nz, not_it) = closed p there in
    let some_p : (p == 0) ≡ false = ground (arith, nz) in
    let other : ((nodes p).va == va) ≡ false = ground (arith, not_it) in
    rw (some_p, other) (find_map-ring n va (nodes p).next nodes ring closed next)

absent_va :
    (nodes : ℕ → PageMap) (va a : ℕ) (ys : List ℕ)
    → count_va nodes va ys ≡ 0
    → 1 ≤ times a ys
    → (nodes a).va ≢ va
absent_va nodes va a [] none_there h = absurd (omega (arith, h))
absent_va nodes va a (y ∷ ys) none_there h = elim (Bool-cases (a == y)) [
  | inl here ↦
      let same : a ≡ y = ground (arith, here) in rw same (λ it. ground (arith, it, none_there))
  | inr other ↦ absent_va nodes va a ys (ground (arith, none_there)) (ground (arith, h, other))
]

-- _map of an address that the node `x` of a space has, behind the nodes `ys` that do not have it,
-- returns; but then the list is a ring of `ys` and `x`: the search for any other address that `ys`
-- does not have comes to no end.
pub map_again_lem :
    (n head va pa prot x : ℕ) (ys zs : List ℕ) (w : World)
    → may_map head va pa w ≡ true
    → length ys < n
    → Chain w.nodes (w.nodes head).next (ys ++ x ∷ zs)
    → times head (x ∷ ys) ≡ 0
    → (w.nodes x).va ≡ va
    → count_va w.nodes va ys ≡ 0
    → (w' : World) × (map n head va pa prot w ≡ some w')
      × ((m other : ℕ)
          → other ≢ va
          → count_va w.nodes other ys ≡ 0
          → find_map m other (w'.nodes head).next w'.nodes ≡ none)
map_again_lem n head va pa prot x ys zs w may short chain out here absent =
    let x_head : x ≢ head = λ same. ground (arith, out, same) in
    let some_x = last_some w.nodes (w.nodes head).next x ys zs chain in
    let w' = mapped_new head va pa prot x w.pages w x_head in
    let (first, first_some) = first_in w.nodes (w.nodes head).next x ys zs chain in
    let run =
      map-mapped_again head va pa prot x w.pages w x_head n may
        (found_at n va (w.nodes head).next w.nodes x ys zs short chain here absent) some_x refl in
    (
      w',
      run,
      λ m other ne none_there.
          find_map-ring m other (w'.nodes head).next w'.nodes (x ∷ ys)
            (λ a h. elim (Bool-cases (a == x)) [
              | inl at_x ↦
                  let same : a ≡ x = ground (arith, at_x) in
                  let node = mapped_new-node head va pa prot x w.pages w x_head in
                  subst
                    (λ b.
                      (1 ≤ times (w'.nodes b).next (x ∷ ys)) × (b ≢ 0) × ((w'.nodes b).va ≢ other))
                    (sym same)
                    (
                      subst (λ b. 1 ≤ times b (x ∷ ys)) (sym (ap (λ (m : PageMap). m.next) node))
                          first,
                      some_x,
                      λ it. ne (sym it ∙ ap (λ (m : PageMap). m.va) node),
                    )
              | inr off_x ↦
                  let in_ys : 1 ≤ times a ys = ground (arith, h, off_x) in
                  let (next, some_a) = next_in w.nodes (w.nodes head).next x ys zs a chain in_ys in
                  let same : w'.nodes a ≡ w.nodes a =
                    mapped_new-other head va pa prot x w.pages w x_head a
                      (λ e. ground (arith, off_x, e)) (λ e. ground (arith, e, in_ys, out)) in
                  subst (λ (m : PageMap). (1 ≤ times m.next (x ∷ ys)) × (a ≢ 0) × (m.va ≢ other))
                    (sym same) (next, some_a, absent_va w.nodes other a ys none_there in_ys)
            ])
            (rw (mapped_new-head head va pa prot x w.pages w x_head) (ground arith)),
    )
