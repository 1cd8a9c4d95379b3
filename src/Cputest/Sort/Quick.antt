-- ===== src/Cputest/Sort/Quick.antt =====
-- quick_sort of quick-sort.c: it ends, and what it returns is sorted.
use nexus_am_ame.Base.{ℕ, zero, suc, ◌+◌, ◌-◌, ◌<◌, ◌≡◌, refl, arith, some, leb-false}
use nexus_am_ame.Arrays.{Order, Sorted, Rearranges, unmoved, Rearranges-trans, Rearranges-widen}
use nexus_am_ame.Cputest.Sort.{partition, quick_sort}
use nexus_am_ame.Cputest.Sort.Partition.{partition_lem}
use native.Mathlib.Decide.{dec_lt}
use nexus_am_ame.Arrays.Halves.{Sorted-around}

module _ {ℓ} {A : Type ℓ} ⦃o : Order A⦄ where
  open o use {gt, asym, trans}

  -- quick_sort of the entries from `p` to `q` returns when the depth of its recursion may exceed
  -- q - p: it has exchanged entries of that range only, and no entry of the range is greater than a
  -- later one.
  pub quick_sort_lem :
      (fuel p q : ℕ) (a : ℕ → A)
      → q - p < fuel
      → (b : ℕ → A) × (quick_sort fuel p q a ≡ some b) × Rearranges p q a b × Sorted p q b
  unfolding quick_sort
  quick_sort_lem zero p q a enough = absurd (omega arith)
  quick_sort_lem (suc fuel) p q a enough = elim (dec_lt p q) [
    | no ge ↦ (a, short ge, unmoved, λ i j l lt h. absurd (omega arith))
    | yes lt ↦
        let (m, c, e, part) = partition_lem p q a (omega arith) in
        let (b, eb, mb, sb) = quick_sort_lem fuel p (m - 1) c (omega (arith, part.hi)) in
        let (d, ed, md, sd) = quick_sort_lem fuel (m + 1) q b (omega (arith, part.lo)) in
        (
          d,
          long m c b d lt e eb ed,
          Rearranges-trans part.moved (
              Rearranges-trans (Rearranges-widen (omega arith) (omega (arith, part.hi)) mb)
                (Rearranges-widen (omega (arith, part.lo)) (omega arith) md)),
          Sorted-around p q m a c b d part mb sb md sd,
        )
  ]
    where
      short : ¬ (p < q) → quick_sort (suc fuel) p q a ≡ some a
      short ge = ground arith

      long :
          (m : ℕ) (c b d : ℕ → A)
          → p < q
          → partition p q a ≡ some (m, c)
          → quick_sort fuel p (m - 1) c ≡ some b
          → quick_sort fuel (m + 1) q b ≡ some d
          → quick_sort (suc fuel) p q a ≡ some d
      long m c b d lt e eb ed = simp (leb-false q p lt, e, eb, ed) refl
