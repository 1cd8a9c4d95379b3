-- ===== src/Riscv/Vme/Walk.antt =====
-- The loop over the levels: which words it may change, and where it leads.
use nexus_am_ame.Base.{ℕ, zero, suc, ◌%◌, ◌≡◌, ◌≢◌, arith, refl, ◌∙◌, ap, subst}
use nexus_am_ame.Base.{
  Option, some, none, List, [], ◌∷◌, inl, inr, Bool, Bool-cases, true, false, ◌==◌, ◌>>=◌, guard,
}
use nexus_am_ame.Riscv.Vme.{
  Words, Paging, page_number, entry_addr, put_word, new_page, take_page, is_valid, fill_entry, map,
  map_fault, map_rv_hugepage, hugepage_size, descend, walk, pointer_pte,
}
use nexus_am_ame.Riscv.Vme.Entry.{is_valid_lem}

-- The word at `a` lies in none of the pages.
abbrev pub Apart : ℕ → List ℕ → Type 0
Apart a [] = Unit {0}
Apart a (x ∷ xs) = (page_number a ≢ page_number x) × Apart a xs

-- What the client promises of its allocator: it returns addresses of pages.
abbrev pub AreAligned : List ℕ → Type 0
AreAligned [] = Unit {0}
AreAligned (x ∷ xs) = (x % 4096 ≡ 0) × AreAligned xs

-- What holds of a result, if there is one.
abbrev pub Ensures {ℓ} : {A : Type ℓ} → (A → Type 0) → Option A → Type 0
Ensures P none = Unit {0}
Ensures P (some x) = P x

pub Ensures-some {ℓ} :
    {A : Type ℓ} (P : A → Type 0) (o : Option A) (x : A) → Ensures P o → o ≡ some x → P x
Ensures-some P o x h e = subst (Ensures P) e h

Ensures-bind {ℓ κ} :
    {A : Type ℓ} {B : Type κ} (P : A → Type 0) (Q : B → Type 0) (o : Option A) (f : A → Option B)
    → Ensures P o
    → ((x : A) → P x → Ensures Q (f x))
    → Ensures Q (o >>= f)
Ensures-bind P Q none f h k = tt
Ensures-bind P Q (some x) f h k = k x h

Ensures-weaken {ℓ} :
    {A : Type ℓ} (P Q : A → Type 0) (o : Option A)
    → Ensures P o
    → ((x : A) → P x → Q x)
    → Ensures Q o
Ensures-weaken P Q none h k = tt
Ensures-weaken P Q (some x) h k = k x h

Ensures-guard {ℓ} :
    {A : Type ℓ} (P : A → Type 0) (b : Bool) (o : Option A) → Ensures P o → Ensures P (guard b o)
Ensures-guard P true o h = h
Ensures-guard P false o h = tt

module _ (a : ℕ) where
  -- The word at `a` is as before, and stays outside the pages to come.
  abbrev pub Keeps : Words → Paging → Type 0
  Keeps m st = (st.mem a ≡ m a) × AreAligned st.pages × Apart a st.pages

  take_page-Keeps :
      (ps : List ℕ) (m : Words)
      → AreAligned ps
      → Apart a ps
      → Ensures (λ r. Keeps m r.1) (take_page ps m)
  unfolding take_page
  take_page-Keeps [] m al out = tt
  take_page-Keeps (p ∷ ps) m (al, als) (out, outs) = (ground arith, als, outs)

  other_entry : (pte : ℕ) (st : Paging) → st.mem a % 2 ≡ 1 → is_valid (st.mem pte) ≡ false → a ≢ pte
  other_entry pte st v new e =
      let same : st.mem a ≡ st.mem pte = ap st.mem e in
      ground (arith, is_valid_lem (st.mem pte), same)

  descend-Keeps :
      (pte : ℕ) (st : Paging)
      → AreAligned st.pages
      → Apart a st.pages
      → st.mem a % 2 ≡ 1
      → Ensures (λ r. Keeps st.mem r.1) (descend pte st)
  unfolding descend new_page
  descend-Keeps pte st al out v = elim (Bool-cases (is_valid (st.mem pte))) [
    | inl old ↦ rw old (refl, al, out)
    | inr new ↦ rw new (
        Ensures-bind (λ r. Keeps st.mem r.1) _ (take_page st.pages st.mem) _
          (take_page-Keeps st.pages st.mem al out)
          (λ r k. (put_other r.1 r.0 (other_entry pte st v new) k.0, k.1, k.2)))
  ]
    where
      put_other :
          (now : Paging) (p : ℕ)
          → a ≢ pte
          → now.mem a ≡ st.mem a
          → put_word now.mem pte (pointer_pte p) a ≡ st.mem a
      put_other now p other e = ground arith

  pub walk-Keeps :
      (stop level base va : ℕ) (st : Paging)
      → AreAligned st.pages
      → Apart a st.pages
      → st.mem a % 2 ≡ 1
      → Ensures (λ r. Keeps st.mem r.1) (walk stop level base va st)
  unfolding walk
  walk-Keeps stop zero base va st al out v = (refl, al, out)
  walk-Keeps stop (suc level) base va st al out v = elim (Bool-cases (suc level == stop)) [
    | inl here ↦ rw here (refl, al, out)
    | inr on ↦ rw on (
        Ensures-bind (λ r. Keeps st.mem r.1) _ (descend (entry_addr base va (suc level)) st) _
          (descend-Keeps (entry_addr base va (suc level)) st al out v)
          (λ r k.
            Ensures-weaken (λ x. Keeps r.1.mem x.1) (λ x. Keeps st.mem x.1)
              (walk stop level r.0 va r.1)
              (walk-Keeps stop level r.0 va r.1 k.1 k.2 (ap (λ t. t % 2) k.0 ∙ v))
              (λ x l. (l.0 ∙ k.0, l.1, l.2))))
  ]

  fill_entry_keeps :
      (pte val : ℕ) (st : Paging) → st.mem a % 2 ≡ 1 → (fill_entry pte val st).mem a ≡ st.mem a
  fill_entry_keeps pte val st v = elim (Bool-cases (is_valid (st.mem pte))) [
    | inl old ↦ rw old refl
    | inr new ↦ rw new (let other = other_entry pte st v new in ground arith)
  ]

module _ (a root va pa : ℕ) (st : Paging) (al : AreAligned st.pages) (out : Apart a st.pages)
    (v : st.mem a % 2 ≡ 1) where
  filled_after :
      (stop val : ℕ)
      → Ensures
          (λ st'. st'.mem a ≡ st.mem a)
          (walk stop 2 root va st >>= λ r. some (fill_entry r.0 val r.1))
  filled_after stop val =
      Ensures-bind (λ r. Keeps a st.mem r.1) (λ st'. st'.mem a ≡ st.mem a) (walk stop 2 root va st)
        _ (walk-Keeps a stop 2 root va st al out v)
        (λ r k. fill_entry_keeps a r.0 val r.1 (ap (λ t. t % 2) k.0 ∙ v) ∙ k.0)

  abbrev Kept : Paging → Type 0
  Kept st' = st'.mem a ≡ st.mem a

  guarded : (b c : Bool) (o : Option Paging) → Ensures Kept o → Ensures Kept (guard b (guard c o))
  guarded b c o h = Ensures-guard Kept b (guard c o) (Ensures-guard Kept c o h)

  -- `_map`, `_map_fault` and `_map_rv_hugepage`, where they return, have not changed any entry
  -- of a page table that was valid and that lies in no page which the allocator still had to
  -- give: whatever they map, and also when a part of the path through the tables was missing.
  pub map_keeps_valid :
      (prot level next : ℕ)
      → Ensures (λ st'. st'.mem a ≡ st.mem a) (map root va pa prot st)
        × Ensures (λ st'. st'.mem a ≡ st.mem a) (map_fault next root va pa prot st)
        × Ensures (λ st'. st'.mem a ≡ st.mem a) (map_rv_hugepage root va pa prot level st)
  unfolding map map_fault map_rv_hugepage
  map_keeps_valid prot level next = (
    guarded _ _ _ (filled_after 0 _),
    guarded _ _ _ (filled_after 0 _),
    Ensures-bind (λ size. Unit {0}) Kept (hugepage_size level) _ (anything (hugepage_size level))
        (λ size u. guarded _ _ _ (filled_after level _)),
  )
    where
      anything : (o : Option ℕ) → Ensures (λ x. Unit {0}) o
      anything none = tt
      anything (some x) = tt
