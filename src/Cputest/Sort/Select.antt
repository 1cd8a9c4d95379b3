-- ===== src/Cputest/Sort/Select.antt =====
-- select_sort of select-sort.c: what it returns is sorted.
use nexus_am_ame.Base.{
  ℕ, zero, suc, ◌+◌, ◌-◌, ◌≤◌, ◌<◌, ◌≡◌, refl, sym, subst, arith, true, false, if◌then◌else◌, ◌==◌,
}
use nexus_am_ame.Arrays.{
  Order, Sorted, irrefl, swap, Rearranges, unmoved, swapped, Rearranges-trans,
}
use nexus_am_ame.Cputest.Sort.{select_least, select_rounds, select_sort}
use native.Mathlib.Decide.{dec_lt}

module _ {ℓ} {A : Type ℓ} ⦃o : Order A⦄ where
  open o use {gt, asym, trans}

  -- `r` is from `s` to before `e`, and no entry there is less than that at `r`.
  record Least (s e : ℕ) (a : ℕ → A) (r : ℕ) : Type 0 where
    lo : s ≤ r
    hi : r < e
    least : (l : ℕ) → s ≤ l → l < e → gt (a r) (a l) ≡ false

  one_more :
      (s j k : ℕ) (a : ℕ → A) → Least s j a k → Least s (j + 1) a (if gt (a k) (a j) then j else k)
  one_more s j k a h =
      elim (gt (a k) (a j))
          as (λ b. (gt (a k) (a j) ≡ b) → Least s (j + 1) a (if b then j else k)) [
            | true ↦ λ e. record {
              lo = omega (arith, h.lo, h.hi);
              hi = omega arith;
              least = λ l sl lj. elim (dec_lt l j) [
                | yes lt ↦ trans (a j) (a k) (a l) (asym (a k) (a j) e) (h.least l sl lt)
                | no ge ↦
                    let same : l ≡ j = omega arith in
                    subst (λ t. gt (a j) (a t) ≡ false) (sym same) (irrefl (a j))
              ];
            }
            | false ↦ λ e. record {
              lo = h.lo;
              hi = omega (arith, h.hi);
              least = λ l sl lj. elim (dec_lt l j) [
                | yes lt ↦ h.least l sl lt
                | no ge ↦
                    let same : l ≡ j = omega arith in
                    subst (λ t. gt (a k) (a t) ≡ false) (sym same) e
              ];
            }
          ]
        refl

  select_least_lem :
      (left s j k : ℕ) (a : ℕ → A) → Least s j a k → Least s (j + left) a (select_least left j k a)
  unfolding select_least
  select_least_lem zero s j k a h =
      let e : j ≡ j + 0 = omega arith in subst (λ t. Least s t a k) e h
  select_least_lem (suc left) s j k a h =
      let k' = if gt (a k) (a j) then j else k in
      let e : j + 1 + left ≡ j + suc left = omega arith in
      subst (λ t. Least s t a (select_least left (j + 1) k' a)) e
        (select_least_lem left s (j + 1) k' a (one_more s j k a h))

  -- The entries before `i` are in place.
  abbrev Head : ℕ → ℕ → (ℕ → A) → Type 0
  Head n i a = (k l : ℕ) → k < i → k < l → l < n → gt (a k) (a l) ≡ false

  Head-grows : (n i r : ℕ) (a : ℕ → A) → Head n i a → Least i n a r → Head n (i + 1) (swap a i r)
  Head-grows n i r a head least k l ki kl ln =
      let l' = if l == i then r else (if l == r then i else l) in
      let place : swap a i r l ≡ a l' = ground arith in
      elim (dec_lt k i) [
        | yes lt ↦
            let h = head k l' lt (ground (arith, least.lo)) (ground (arith, least.hi)) in
            let same : swap a i r k ≡ a k = ground (arith, least.lo) in
            subst (λ x. gt x (swap a i r l) ≡ false) (sym same)
              (subst (λ y. gt (a k) y ≡ false) (sym place) h)
        | no ge ↦
            let h = least.least l' (ground (arith, least.lo)) (ground (arith, least.hi)) in
            let same : swap a i r k ≡ a r = ground arith in
            subst (λ x. gt x (swap a i r l) ≡ false) (sym same)
              (subst (λ y. gt (a r) y ≡ false) (sym place) h)
      ]

  select_rounds_lem :
      (n left i : ℕ) (a : ℕ → A)
      → i + left ≡ n - 1
      → Head n i a
      → Rearranges 0 (n - 1) a (select_rounds n left i a)
        × Head n (n - 1) (select_rounds n left i a)
  unfolding select_rounds
  select_rounds_lem n zero i a e head =
      let same : i ≡ n - 1 = omega arith in (unmoved, subst (λ t. Head n t a) same head)
  select_rounds_lem n (suc left) i a e head =
      let r = select_least (n - (i + 1)) (i + 1) i a in
      let first : Least i (i + 1) a i = record {
        lo = omega arith;
        hi = omega arith;
        least = λ l il li.
            let same : l ≡ i = omega arith in
            subst (λ t. gt (a i) (a t) ≡ false) (sym same) (irrefl (a i));
      } in
      let end : i + 1 + (n - (i + 1)) ≡ n = omega arith in
      let least =
        subst (λ t. Least i t a r) end (select_least_lem (n - (i + 1)) i (i + 1) i a first) in
      let (moved, rest) =
        select_rounds_lem n left (i + 1) (swap a i r) (omega arith)
          (Head-grows n i r a head least) in
      (
        Rearranges-trans
            (swapped i r unmoved (omega arith) (omega arith) (omega arith)
              (omega (arith, least.hi)))
            moved,
        rest,
      )

  -- select_sort of `n` entries exchanges some of them, and then none is greater than a later one.
  pub select_sort_lem :
      (n : ℕ) (a : ℕ → A)
      → Rearranges 0 (n - 1) a (select_sort n a) × Sorted 0 (n - 1) (select_sort n a)
  unfolding select_sort
  select_sort_lem n a =
      let (moved, head) =
        select_rounds_lem n (n - 1) 0 a (omega arith) (λ k l lt ln tl. absurd (omega arith)) in
      (moved, λ i j l lt h. head i j (omega arith) lt (omega arith))
