-- ===== src/Microbench/Qsort/Laws.antt =====
-- myqsort ends, and what it returns is sorted.
use nexus_am_ame.Base.{ℕ, zero, suc, ◌+◌, ◌-◌, ◌<◌, ◌≡◌, refl, arith, lt→ltb, some}
use nexus_am_ame.Arrays.{
  Order, swap, Sorted, Rearranges, unmoved, Rearranges-trans, Rearranges-widen,
}
use nexus_am_ame.Arrays.Halves.{Sorted-around}
use nexus_am_ame.Microbench.Qsort.{divide, myqsort}
use nexus_am_ame.Microbench.Qsort.Divide.{divide-Partitioned}
use native.Mathlib.Decide.{dec_lt}

module _ {ℓ} {A : Type ℓ} ⦃o : Order A⦄ where
  abbrev halves : ℕ → ℕ → (ℕ → A) → ℕ × (ℕ → A)
  halves l r a = divide (r - (l + 1)) (l + 1) (a l) l a

  -- myqsort of the entries from `l` to before `r` returns when the depth of its calls may exceed
  -- r - l: it has exchanged entries of that range only, and no entry of the range is greater than a
  -- later one.
  pub myqsort_lem :
      (fuel l r : ℕ) (a : ℕ → A)
      → r - l < fuel
      → (b : ℕ → A) × (myqsort fuel l r a ≡ some b) × Rearranges l (r - 1) a b × Sorted l (r - 1) b
  unfolding myqsort
  myqsort_lem zero l r a enough = absurd (omega arith)
  myqsort_lem (suc fuel) l r a enough = elim (dec_lt l r) [
    | no ge ↦ (a, short ge, unmoved, λ i j li ij jr. absurd (omega arith))
    | yes lt ↦
        let part = divide-Partitioned l r a lt in
        let m = (halves l r a).0 in
        let c = swap (halves l r a).1 m l in
        let (b, eb, mb, sb) = myqsort_lem fuel l m c (omega (arith, part.hi)) in
        let (d, ed, md, sd) = myqsort_lem fuel (m + 1) r b (omega (arith, part.lo)) in
        (
          d,
          long m c b d lt eb ed,
          Rearranges-trans part.moved (
              Rearranges-trans (Rearranges-widen (omega arith) (omega (arith, part.hi)) mb)
                (Rearranges-widen (omega (arith, part.lo)) (omega arith) md)),
          Sorted-around l (r - 1) m a c b d part mb sb md sd,
        )
  ]
    where
      short : ¬ (l < r) → myqsort (suc fuel) l r a ≡ some a
      short ge = ground arith

      long :
          (m : ℕ) (c b d : ℕ → A)
          → l < r
          → myqsort fuel l (halves l r a).0 (swap (halves l r a).1 (halves l r a).0 l) ≡ some b
          → myqsort fuel ((halves l r a).0 + 1) r b ≡ some d
          → myqsort (suc fuel) l r a ≡ some d
      long m c b d lt eb ed = simp (lt→ltb l r lt, eb, ed) refl
