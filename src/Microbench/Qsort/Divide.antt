-- ===== src/Microbench/Qsort/Divide.antt =====
-- The loop of myqsort: what is less than the first entry comes before the rest.
use nexus_am_ame.Base.{
  ℕ, zero, suc, ◌+◌, ◌-◌, ◌≤◌, ◌<◌, ◌≡◌, refl, sym, subst, arith, true, false, if◌then◌else◌,
}
use nexus_am_ame.Arrays.{Order, swap, Rearranges, unmoved, swapped, Rearranges-trans}
use nexus_am_ame.Arrays.Halves.{Partitioned}
use nexus_am_ame.Microbench.Qsort.{divide}
use native.Mathlib.Decide.{ℕ_discrete}

module _ {ℓ} {A : Type ℓ} ⦃o : Order A⦄ where
  open o use {gt, asym}

  -- After the entries before `j`: those up to `pivot` are less than `p`, which stands at `l`.
  record Divided (l j pivot : ℕ) (p : A) (a : ℕ → A) : Type ℓ where
    lo : l ≤ pivot
    hi : pivot < j
    first : a l ≡ p
    less : (k : ℕ) → l < k → k ≤ pivot → gt p (a k) ≡ true
    rest : (k : ℕ) → pivot < k → k < j → gt p (a k) ≡ false

  goes_left :
      (l j pivot : ℕ) (p : A) (a : ℕ → A)
      → Divided l j pivot p a
      → gt p (a j) ≡ true
      → Divided l (j + 1) (pivot + 1) p (swap a (pivot + 1) j)
  goes_left l j pivot p a d less_here = record {
    lo = omega (arith, d.lo);
    hi = omega (arith, d.hi);
    first = ground (arith, d.first, d.lo, d.hi);
    less = less';
    rest = rest';
  }
    where
      open d use {lo, hi, less, rest}

      less' : (k : ℕ) → l < k → k ≤ pivot + 1 → gt p (swap a (pivot + 1) j k) ≡ true
      less' k lk kp = elim (ℕ_discrete k (pivot + 1)) [
        | yes e ↦ ground arith
        | no ne ↦ let h = less k lk (omega arith) in ground arith
      ]

      rest' : (k : ℕ) → pivot + 1 < k → k < j + 1 → gt p (swap a (pivot + 1) j k) ≡ false
      rest' k pk kj = elim (ℕ_discrete k j) [
        | yes e ↦ let h = rest (pivot + 1) (omega arith) (omega arith) in ground arith
        | no ne ↦ let h = rest k (omega arith) (omega arith) in ground arith
      ]

  stays_right :
      (l j pivot : ℕ) (p : A) (a : ℕ → A)
      → Divided l j pivot p a
      → gt p (a j) ≡ false
      → Divided l (j + 1) pivot p a
  stays_right l j pivot p a d more_here = record {
    lo = d.lo;
    hi = omega (arith, d.hi);
    first = d.first;
    less = d.less;
    rest = λ k pk kj. elim (ℕ_discrete k j) [
      | yes e ↦ subst (λ t. gt p (a t) ≡ false) (sym e) more_here
      | no ne ↦ d.rest k pk (omega arith)
    ];
  }

  record Divides (l r : ℕ) (p : A) (a : ℕ → A) (d : ℕ × (ℕ → A)) : Type ℓ where
    divided : Divided l r d.0 p d.1
    moved : Rearranges l (r - 1) a d.1

  divide_lem :
      (left l j r pivot : ℕ) (p : A) (a : ℕ → A)
      → left + j ≡ r
      → Divided l j pivot p a
      → Divides l r p a (divide left j p pivot a)
  unfolding divide
  divide_lem zero l j r pivot p a e d =
      let same : j ≡ r = omega arith in
      record { divided = subst (λ t. Divided l t pivot p a) same d; moved = unmoved }
  divide_lem (suc left) l j r pivot p a e d =
      elim (gt p (a j))
          as (λ b.
            (gt p (a j) ≡ b)
            → Divides l r p a (
                divide left (j + 1) p (if b then pivot + 1 else pivot)
                  (if b then swap a (pivot + 1) j else a))) [
                    | true ↦ λ h.
                        let next =
                          divide_lem left l (j + 1) r (pivot + 1) p (swap a (pivot + 1) j)
                            (omega arith) (goes_left l j pivot p a d h) in
                        record {
                          divided = next.divided;
                          moved =
                              Rearranges-trans
                                (swapped (pivot + 1) j unmoved (omega (arith, d.lo))
                                  (omega (arith, d.hi)) (omega (arith, d.lo, d.hi)) (omega arith))
                                next.moved;
                        }
                    | false ↦ λ h.
                        divide_lem left l (j + 1) r pivot p a (omega arith)
                          (stays_right l j pivot p a d h)
                  ]
        refl

  -- The exchange behind the loop puts the pivot between the two halves.
  pub divide-Partitioned :
      (l r : ℕ) (a : ℕ → A)
      → l < r
      → let d = divide (r - (l + 1)) (l + 1) (a l) l a in
        Partitioned l (r - 1) a d.0 (swap d.1 d.0 l)
  divide-Partitioned l r a lt =
      let start : Divided l (l + 1) l (a l) a = record {
        lo = omega arith;
        hi = omega arith;
        first = refl;
        less = λ k lk kp. absurd (omega arith);
        rest = λ k lk kp. absurd (omega arith);
      } in
      let ends = divide_lem (r - (l + 1)) l (l + 1) r l (a l) a (omega arith) start in
      placed (divide (r - (l + 1)) (l + 1) (a l) l a) ends.divided ends.moved
    where
      placed :
          (d : ℕ × (ℕ → A))
          → Divided l r d.0 (a l) d.1
          → Rearranges l (r - 1) a d.1
          → Partitioned l (r - 1) a d.0 (swap d.1 d.0 l)
      placed d divided shifted = record {
        lo = lo;
        hi = omega (arith, hi);
        moved =
            Rearranges-trans shifted
              (swapped d.0 l unmoved lo (omega (arith, hi)) (omega arith) (omega arith));
        below = λ k lk km. elim (ℕ_discrete k l) [
          | yes e ↦
              let h = asym (a l) (d.1 d.0) (less d.0 (omega arith) (omega arith)) in
              ground (arith, first)
          | no ne ↦
              let h = asym (a l) (d.1 k) (less k (omega arith) (omega arith)) in
              ground (arith, first)
        ];
        above = λ k mk kr. let h = rest k mk (omega arith) in ground (arith, first, lo);
      }
        where
          open divided use {lo, hi, first, less, rest}
