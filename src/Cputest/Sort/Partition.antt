-- ===== src/Cputest/Sort/Partition.antt =====
-- partition of quick-sort.c: where its outer loop ends, and what it returns.
use nexus_am_ame.Base.{
  ℕ, zero, suc, ◌-◌, ◌≤◌, ◌<◌, ◌≡◌, ap, subst, ◌∙◌, fun_ext, arith, true, false, if◌then◌else◌,
  some, ◌>>=◌, lt→ltb,
}
use nexus_am_ame.Arrays.{Order, put, Rearranges, unmoved, swapped, Rearranges-trans, swap-put}
use nexus_am_ame.Cputest.Sort.{scan_down, scan_up, partition_loop, partition}
use native.Mathlib.Decide.{dec_lt}
use nexus_am_ame.Cputest.Sort.Scan.{Down, Up, scan_down_lem, scan_up_lem}
use nexus_am_ame.Arrays.Halves.{Partitioned}

module _ {ℓ} {A : Type ℓ} ⦃o : Order A⦄ where
  open o use {gt}

  -- The variables of the outer loop: `a` has a gap at `i`, all before `i` is no greater than the
  -- pivot, and all after `j` is greater.
  record Split (p q : ℕ) (pivot : A) (i j : ℕ) (a : ℕ → A) : Type 0 where
    lo : p ≤ i
    mid : i ≤ j
    hi : j ≤ q
    below : (k : ℕ) → p ≤ k → k < i → gt (a k) pivot ≡ false
    above : (k : ℕ) → j < k → k ≤ q → gt (a k) pivot ≡ true

  record Round (p q : ℕ) (pivot : A) (i j : ℕ) (a : ℕ → A) (i' j' : ℕ) (a' : ℕ → A) : Type ℓ where
    split : Split p q pivot i' j' a'
    moved : Rearranges p q (put a i pivot) (put a' i' pivot)
    closer : j' - i' < j - i

  round_lem :
      (p q : ℕ) (pivot : A) (i j j' i' : ℕ) (a : ℕ → A)
      → i < j
      → Split p q pivot i j a
      → Down a pivot i j j'
      → Up (put a i (a j')) pivot i (j' - i) i'
      → Round p q pivot i j a i' j' (put (put a i (a j')) j' (put a i (a j') i'))
  round_lem p q pivot i j j' i' a lt s (il, jh, down, dstop) (ul, uh, up, ustop) = record {
    split = record {
      lo = omega arith;
      mid = omega arith;
      hi = omega arith;
      below = below';
      above = above';
    };
    moved = moved';
    closer = closer';
  }
    where
      open s use {lo, mid, hi, below, above}

      a1 : ℕ → A
      a1 = put a i (a j')

      a2 : ℕ → A
      a2 = put a1 j' (a1 i')

      below' : (k : ℕ) → p ≤ k → k < i' → gt (a2 k) pivot ≡ false
      below' k l h = elim (dec_lt k i) [
        | yes kl ↦ let e = below k l kl in ground arith
        | no ge ↦ let e = up k (omega arith) h in ground arith
      ]

      above' : (k : ℕ) → j' < k → k ≤ q → gt (a2 k) pivot ≡ true
      above' k l h = elim (dec_lt j k) [
        | yes kl ↦ let e = above k kl h in ground arith
        | no ge ↦ let e = down k l (omega arith) in ground arith
      ]

      moved' : Rearranges p q (put a i pivot) (put a2 i' pivot)
      moved' = subst (Rearranges p q (put a i pivot)) (swap-put a1 j' i' pivot) (
          swapped j' i'
            (subst (Rearranges p q (put a i pivot)) (swap-put a i j' pivot)
              (swapped i j' unmoved (omega arith) (omega arith) (omega arith) (omega arith)))
            (omega arith) (omega arith) (omega arith) (omega arith))

      closer' : j' - i' < j - i
      closer' = ground arith

  record Ends (p q : ℕ) (pivot : A) (f : ℕ → A) (r : ℕ × (ℕ → A)) : Type ℓ where
    split : Split p q pivot r.0 r.0 r.1
    moved : Rearranges p q f (put r.1 r.0 pivot)

  loop-Ends :
      (fuel p q : ℕ) (pivot : A) (i j : ℕ) (a : ℕ → A)
      → j - i < fuel
      → Split p q pivot i j a
      → (r : ℕ × (ℕ → A)) × (partition_loop fuel pivot i j a ≡ some r)
        × Ends p q pivot (put a i pivot) r
  unfolding partition_loop
  loop-Ends zero p q pivot i j a more s = absurd (omega arith)
  loop-Ends (suc fuel) p q pivot i j a more s = elim (dec_lt i j) [
    | no ge ↦
        let e : j ≡ i = omega (arith, s.mid) in
        (
          (i, a),
          ground arith,
          record { split = subst (λ t. Split p q pivot i t a) e s; moved = unmoved },
        )
    | yes lt ↦
        let j' = scan_down a pivot i j in
        let a' = put a i (a j') in
        let i' = scan_up a' pivot i (j' - i) in
        let next =
          round_lem p q pivot i j j' i' a lt s (scan_down_lem a pivot i j s.mid)
            (scan_up_lem a' pivot i (j' - i)) in
        let (r, e, ends) =
          loop-Ends fuel p q pivot i' j' (put a' j' (a' i')) (omega (arith, next.closer))
            next.split in
        (
          r,
          ap (λ b. if b then partition_loop fuel pivot i' j' (put a' j' (a' i')) else some (i, a))
                (lt→ltb i j lt)
              ∙ e,
          record { split = ends.split; moved = Rearranges-trans next.moved ends.moved },
        )
  ]

  put_self : (a : ℕ → A) (i : ℕ) → put a i (a i) ≡ a
  put_self a i = fun_ext (λ k. ground arith)

  pub partition_lem :
      (p q : ℕ) (a : ℕ → A)
      → p ≤ q
      → (m : ℕ) × (b : ℕ → A) × (partition p q a ≡ some (m, b)) × Partitioned p q a m b
  unfolding partition
  partition_lem p q a h =
      let start : Split p q (a p) p q a = record {
        lo = omega arith;
        mid = h;
        hi = omega arith;
        below = λ k l g. absurd (omega arith);
        above = λ k l g. absurd (omega arith);
      } in
      let (r, e, ends) = loop-Ends (suc (q - p)) p q (a p) p q a (omega arith) start in
      (
        r.0,
        put r.1 r.0 (a p),
        ap (λ x. x >>= λ t. some (t.0, put t.1 t.0 (a p))) e,
        record {
          lo = ends.split.lo;
          hi = ends.split.hi;
          moved = subst (λ f. Rearranges p q f (put r.1 r.0 (a p))) (put_self a p) ends.moved;
          below = λ k l g. let e' = ends.split.below k l g in ground arith;
          above = λ k l g. let e' = o.asym (r.1 k) (a p) (ends.split.above k l g) in ground arith;
        },
      )
