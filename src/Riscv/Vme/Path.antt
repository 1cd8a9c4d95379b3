-- ===== src/Riscv/Vme/Path.antt =====
-- Where the loop over the levels leads: `_map` makes the missing tables, and the hardware finds
-- the page.
use nexus_am_ame.Base.{
  ℕ, zero, suc, ◌+◌, ◌*◌, ◌/◌, ◌%◌, ◌^◌, ◌<◌, ◌≡◌, ◌≢◌, arith, refl, sym, ◌∙◌, ap,
}
use nexus_am_ame.Base.{true, some, List, [], ◌∷◌, inl, inr, false, eq→==}
use nexus_am_ame.Riscv.Vme.{
  Words, Paging, put_word, new_page, take_page, is_valid, map, descend, walk, leaf_pte, pte_addr,
}
use nexus_am_ame.Riscv.Vme.Entry.{is_valid_lem, pte_addr_lem, leaf_pte_lem, leaf_flags}
use nexus_am_ame.Riscv.Vme.Walk.{Apart, AreAligned, Keeps, walk-Keeps, Ensures-some}
use nexus_am_ame.Riscv.Vme.Sv39.{ppn, entry_of, leaf, from_table, is_canonical, translate}
use nexus_am_ame.Riscv.Vme.Tables.{
  AreFresh, AreFresh-AreAligned, IsPointer, IsReady, put_word-other, eq-false, from_table-leaf,
  from_table-pointer, entry_of-offset, entry_addr_lem, entry_page, Apart-entry, linked,
  linked-pointer, IsReady-linked,
}

module _ (va off : ℕ) (va_al : va % 4096 ≡ 0) (off_small : off < 4096) where
  -- The loop ends at an invalid entry, and with a leaf there the path leads to the leaf.
  abbrev Leads : ℕ → ℕ → Paging → Type 0
  Leads level base st =
      (pte : ℕ) × (st' : Paging) × (walk 0 level base va st ≡ some (pte, st'))
      × (st'.mem pte % 2 ≡ 0)
      × ((val : ℕ)
          → val % 2 ≡ 1
          → val / 2 % 8 ≢ 0
          → val / 2 % 4 ≢ 2
          → val < 2 ^ 54
          → from_table (put_word st'.mem pte val) level base (va + off) ≡ leaf val (va + off) 0)

  Leads-zero : (base : ℕ) (st : Paging) → st.mem (entry_of base va 0) % 2 ≡ 0 → Leads 0 base st
  unfolding walk
  Leads-zero base st free = rw (entry_addr_lem base va 0) (
    entry_of base va 0,
    st,
    refl,
    free,
    λ val odd access readable fits.
        from_table-leaf (put_word st.mem (entry_of base va 0) val) base (va + off) val
          (ground (arith, entry_of-offset base va off 0 va_al off_small)) odd access readable fits,
  )

  -- One level up, over an entry that leads to the table.
  Leads-suc :
      (level base below : ℕ) (st st₁ : Paging)
      → descend (entry_of base va (suc level)) st ≡ some (below, st₁)
      → AreAligned st₁.pages
      → Apart (entry_of base va (suc level)) st₁.pages
      → IsPointer (st₁.mem (entry_of base va (suc level)))
      → ppn (st₁.mem (entry_of base va (suc level))) * 2 ^ 12 ≡ below
      → Leads level below st₁
      → Leads (suc level) base st
  unfolding walk
  Leads-suc level base below st st₁ step al out (pointer, small) goes (pte, st', run, free, trans) =
      (
        pte,
        st',
        run',
        free,
        λ val odd access readable fits.
            from_table-pointer (put_word st'.mem pte val) level base (va + off) v
              (ap (put_word st'.mem pte val)
                  (entry_of-offset base va off (suc level) va_al off_small)
                ∙ same val)
              (pointer, small)
            ∙ ap (λ b. from_table (put_word st'.mem pte val) level b (va + off)) goes
            ∙ trans val odd access readable fits,
      )
    where
      v : ℕ
      v = st₁.mem (entry_of base va (suc level))

      run' : walk 0 (suc level) base va st ≡ some (pte, st')
      run' = rw (eq-false (suc level) (omega arith), entry_addr_lem base va (suc level), step) run

      stays : st'.mem (entry_of base va (suc level)) ≡ v
      stays =
          (Ensures-some (λ r. Keeps (entry_of base va (suc level)) st₁.mem r.1)
            (walk 0 level below va st₁) (pte, st')
            (walk-Keeps (entry_of base va (suc level)) 0 level below va st₁ al out (omega arith))
            run).0

      other : entry_of base va (suc level) ≢ pte
      other e =
          let even : st'.mem (entry_of base va (suc level)) ≡ st'.mem pte = ap st'.mem e in
          omega (arith, stays, even, pointer.0)

      same : (val : ℕ) → put_word st'.mem pte val (entry_of base va (suc level)) ≡ v
      same val = put_word-other st'.mem pte (entry_of base va (suc level)) val other ∙ stays

  Leads-old :
      (level base : ℕ) (st : Paging)
      → AreFresh st.pages
      → base % 4096 ≡ 0
      → Apart base st.pages
      → IsPointer (st.mem (entry_of base va (suc level)))
      → Leads level (ppn (st.mem (entry_of base va (suc level))) * 2 ^ 12) st
      → Leads (suc level) base st
  unfolding descend
  Leads-old level base st fresh al out (pointer, small) below =
      Leads-suc level base _ st st found (AreFresh-AreAligned st.pages fresh)
        (Apart-entry base va (suc level) st.pages al out) (pointer, small) refl below
    where
      found :
          descend (entry_of base va (suc level)) st
          ≡ some (ppn (st.mem (entry_of base va (suc level))) * 2 ^ 12, st)
      found =
          let v = st.mem (entry_of base va (suc level)) in
          let valid = is_valid_lem v ∙ eq→== (v % 2) 1 (omega (arith, pointer.0)) in
          let e : pte_addr v ≡ ppn v * 2 ^ 12 = pte_addr_lem v (omega arith) ∙ omega arith in
          rw (valid, e) refl

  Leads-new :
      (level base : ℕ) (m : Words) (p : ℕ) (ps : List ℕ)
      → AreFresh (p ∷ ps)
      → base % 4096 ≡ 0
      → Apart base (p ∷ ps)
      → m (entry_of base va (suc level)) % 2 ≡ 0
      → Leads level p (linked m (entry_of base va (suc level)) p ps)
      → Leads (suc level) base (record { mem = m; pages = p ∷ ps })
  unfolding descend new_page take_page
  Leads-new level base m p ps ((al, small, far), fresh) even (ne, out) free below =
      Leads-suc level base p _ (linked m (entry_of base va (suc level)) p ps) made
        (AreFresh-AreAligned ps fresh) (Apart-entry base va (suc level) ps even out)
        (rw stored ((omega arith, omega arith, omega arith), omega arith)) (rw stored (omega arith))
        below
    where
      stored :
          (linked m (entry_of base va (suc level)) p ps).mem (entry_of base va (suc level))
          ≡ p / 2 ^ 12 * 2 ^ 10 + 1
      stored = linked-pointer m (entry_of base va (suc level)) p ps small

      made :
          descend (entry_of base va (suc level)) (record { mem = m; pages = p ∷ ps })
          ≡ some (p, linked m (entry_of base va (suc level)) p ps)
      made =
          let v = m (entry_of base va (suc level)) in
          let invalid : is_valid v ≡ false = is_valid_lem v ∙ ground arith in rw invalid refl

  leads :
      (level base : ℕ) (m : Words) (ps : List ℕ)
      → AreFresh ps
      → IsReady va level base m ps
      → Leads level base (record { mem = m; pages = ps })
  leads zero base m ps fresh (al, out, free) = Leads-zero base _ free
  leads (suc level) base m ps fresh (al, out, inl (pointer, ready)) =
      Leads-old level base _ fresh al out pointer (leads level _ m ps fresh ready)
  leads (suc level) base m [] fresh (al, out, inr (free, enough)) = elim enough [ ]
  leads (suc level) base m (p ∷ ps) fresh (al, out, inr (free, enough)) =
      Leads-new level base m p ps fresh al out free (
        leads level p _ ps fresh.1 (
          IsReady-linked va level m (entry_of base va (suc level)) p ps (fresh.0.0, fresh.0.2)
            (λ e. out.0 (sym (entry_page base va (suc level) al) ∙ e)) (omega arith)))

leaf_pte-leaf :
    (va pa prot off : ℕ)
    → va % 4096 ≡ 0
    → pa % 4096 ≡ 0
    → pa < 2 ^ 56
    → prot < 2 ^ 10
    → off < 4096
    → leaf (leaf_pte pa prot) (va + off) 0 ≡ some (pa + off, leaf_flags prot)
leaf_pte-leaf va pa prot off va_al pa_al pa_small prot_small off_small =
    let e = leaf_pte_lem pa prot (omega arith) prot_small in rw e (ground arith)

-- For aligned addresses, a canonical virtual address, a physical address of 56 bits and a protection
-- of ten bits that allows some access, and no writes without reads: `_map` succeeds where the tables on the path are there or the allocator has
-- enough pages for the missing ones, and nothing is mapped there yet. Then the hardware finds
-- for each byte of the virtual page the same byte of the physical page, and the protection that
-- was asked for with the valid bit.
pub map-translate :
    (root va pa prot off : ℕ) (st : Paging)
    → AreFresh st.pages
    → IsReady va 2 root st.mem st.pages
    → va % 4096 ≡ 0
    → pa % 4096 ≡ 0
    → pa < 2 ^ 56
    → prot < 2 ^ 10
    → prot / 2 % 8 ≢ 0
    → prot / 2 % 4 ≢ 2
    → is_canonical va ≡ true
    → off < 4096
    → (st' : Paging) × (map root va pa prot st ≡ some st')
      × (translate st'.mem root (va + off) ≡ some (pa + off, leaf_flags prot))
unfolding map
map-translate root va pa prot off st fresh ready va_al pa_al pa_small prot_small access readable
      canonical off_small =
    let (pte, st', run, free, trans) =
      leads va off va_al off_small 2 root st.mem st.pages fresh ready in
    let invalid : is_valid (st'.mem pte) ≡ false = is_valid_lem (st'.mem pte) ∙ ground arith in
    let e = leaf_pte_lem pa prot (omega arith) prot_small in
    let same_half : is_canonical (va + off) ≡ true = ground (arith, canonical, va_al, off_small) in
    (
      record st' { mem = put_word st'.mem pte (leaf_pte pa prot) },
      rw (eq→== (va % 4096) 0 va_al, eq→== (pa % 4096) 0 pa_al, run, invalid) refl,
      rw same_half (
          trans (leaf_pte pa prot) (rw e (omega arith)) (rw e (λ no. access (omega (arith, no))))
            (rw e (λ no. readable (omega (arith, no)))) (rw e (omega (arith, pa_small, prot_small)))
          ∙ leaf_pte-leaf va pa prot off va_al pa_al pa_small prot_small off_small),
    )
