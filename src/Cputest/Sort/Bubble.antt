-- ===== src/Cputest/Sort/Bubble.antt =====
-- bubble_sort of bubble-sort.c: what it returns is sorted.
use nexus_am_ame.Base.{
  ℕ, zero, suc, ◌+◌, ◌-◌, ◌≤◌, ◌<◌, ◌≡◌, inr, refl, sym, subst, arith, true, false, if◌then◌else◌,
}
use nexus_am_ame.Arrays.{
  Order, Sorted, swap, Rearranges, unmoved, swapped, Rearranges-trans, Rearranges-widen,
  Rearranges-outside, Rearranges-inside,
}
use nexus_am_ame.Cputest.Sort.{bubble_pass, bubble_rounds, bubble_sort}
use native.Mathlib.Decide.{dec_lt, ℕ_discrete}

module _ {ℓ} {A : Type ℓ} ⦃o : Order A⦄ where
  open o use {gt, asym, trans}

  -- No entry before `i` is greater than that at `i`.
  abbrev Greatest : ℕ → (ℕ → A) → Type 0
  Greatest i a = (k : ℕ) → k < i → gt (a k) (a i) ≡ false

  record Pass (top : ℕ) (a b : ℕ → A) : Type ℓ where
    moved : Rearranges 0 top a b
    greatest : Greatest top b

  one_step :
      (i : ℕ) (a : ℕ → A)
      → Greatest i a
      → Pass (i + 1) a (if gt (a i) (a (i + 1)) then swap a i (i + 1) else a)
  one_step i a g =
      elim (gt (a i) (a (i + 1)))
          as (λ b.
            (gt (a i) (a (i + 1)) ≡ b) → Pass (i + 1) a (if b then swap a i (i + 1) else a)) [
              | true ↦ λ e. record {
                moved =
                    swapped i (i + 1) unmoved (omega arith) (omega arith) (omega arith)
                      (omega arith);
                greatest = λ k lt.
                    let f = asym (a i) (a (i + 1)) e in
                    elim (dec_lt k i) [
                      | yes ki ↦ let h = g k ki in ground arith
                      | no ki ↦ ground arith
                    ];
              }
              | false ↦ λ e. record {
                moved = unmoved;
                greatest = λ k lt. elim (dec_lt k i) [
                  | yes ki ↦ trans (a k) (a i) (a (i + 1)) (g k ki) e
                  | no ki ↦ ground arith
                ];
              }
            ]
        refl

  bubble_pass_lem :
      (left i : ℕ) (a : ℕ → A) → Greatest i a → Pass (i + left) a (bubble_pass left i a)
  unfolding bubble_pass
  bubble_pass_lem zero i a g =
      let e : i ≡ i + 0 = omega arith in
      record { moved = unmoved; greatest = subst (λ t. Greatest t a) e g }
  bubble_pass_lem (suc left) i a g =
      let first = one_step i a g in
      let a' = if gt (a i) (a (i + 1)) then swap a i (i + 1) else a in
      let rest = bubble_pass_lem left (i + 1) a' first.greatest in
      let e : i + 1 + left ≡ i + suc left = omega arith in
      record {
        moved =
            Rearranges-trans (Rearranges-widen (omega arith) (omega arith) first.moved)
              (Rearranges-widen (omega arith) (omega arith) rest.moved);
        greatest = subst (λ t. Greatest t (bubble_pass left (i + 1) a')) e rest.greatest;
      }

  -- The entries from `t` on are in place.
  abbrev Tail : ℕ → ℕ → (ℕ → A) → Type 0
  Tail n t a = (k l : ℕ) → k < l → l < n → t ≤ l → gt (a k) (a l) ≡ false

  Tail-grows : (n t : ℕ) (a b : ℕ → A) → Tail n (suc t) a → Pass t a b → Tail n t b
  Tail-grows n t a b tail pass k l lt ln tl = elim (ℕ_discrete l t) [
    | yes e ↦ subst (λ x. gt (b k) (b x) ≡ false) (sym e) (pass.greatest k (omega arith))
    | no ne ↦
        let el = Rearranges-outside pass.moved l (inr (omega arith)) in
        elim (dec_lt t k) [
          | yes tk ↦
              let ek = Rearranges-outside pass.moved k (inr tk) in
              let h = tail k l lt ln (omega arith) in
              subst (λ x. gt x (b l) ≡ false) (sym ek) (subst (λ y. gt (a k) y ≡ false) (sym el) h)
          | no tk ↦
              let (k', lo, hi, ek) = Rearranges-inside pass.moved k (omega arith) (omega arith) in
              let h = tail k' l (omega arith) ln (omega arith) in
              subst (λ x. gt x (b l) ≡ false) (sym ek) (subst (λ y. gt (a k') y ≡ false) (sym el) h)
        ]
  ]

  bubble_rounds_lem :
      (n left j : ℕ) (a : ℕ → A)
      → left + j ≡ n
      → Tail n left a
      → Rearranges 0 (n - 1) a (bubble_rounds n left j a) × Tail n 0 (bubble_rounds n left j a)
  unfolding bubble_rounds
  bubble_rounds_lem n zero j a e tail = (unmoved, tail)
  bubble_rounds_lem n (suc left) j a e tail =
      let b = bubble_pass (n - 1 - j) 0 a in
      let size : 0 + (n - 1 - j) ≡ left = omega arith in
      let pass =
        subst (λ t. Pass t a b) size
          (bubble_pass_lem (n - 1 - j) 0 a (λ k lt. absurd (omega arith))) in
      let (moved, rest) =
        bubble_rounds_lem n left (j + 1) b (omega arith) (Tail-grows n left a b tail pass) in
      (Rearranges-trans (Rearranges-widen (omega arith) (omega arith) pass.moved) moved, rest)

  -- bubble_sort of `n` entries exchanges some of them, and then none is greater than a later one.
  pub bubble_sort_lem :
      (n : ℕ) (a : ℕ → A)
      → Rearranges 0 (n - 1) a (bubble_sort n a) × Sorted 0 (n - 1) (bubble_sort n a)
  unfolding bubble_sort
  bubble_sort_lem n a =
      let (moved, tail) =
        bubble_rounds_lem n n 0 a (omega arith) (λ k l lt ln tl. absurd (omega arith)) in
      (moved, λ i j l lt h. tail i j lt (omega arith) (omega arith))
