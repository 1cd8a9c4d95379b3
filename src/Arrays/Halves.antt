-- ===== src/Arrays/Halves.antt =====
-- An array divided at an entry, and sorted when its two halves are.
use nexus_am_ame.Base.{ℕ, ◌+◌, ◌-◌, ◌≤◌, ◌<◌, ◌≡◌, inl, inr, sym, ap, subst, ◌∙◌, arith, false}
use nexus_am_ame.Arrays.{Order, Sorted, Rearranges, Rearranges-outside, Rearranges-inside}
use native.Mathlib.Decide.{dec_lt, ℕ_discrete}

module _ {ℓ} {A : Type ℓ} ⦃o : Order A⦄ where
  open o use {gt, trans}

  -- `b` is `a` divided at `m`: nothing before `m` is greater than what is there, and nothing after
  -- it is less.
  pub record Partitioned (p q : ℕ) (a : ℕ → A) (m : ℕ) (b : ℕ → A) : Type ℓ where
    pub lo : p ≤ m
    pub hi : m ≤ q
    pub moved : Rearranges p q a b
    pub below : (k : ℕ) → p ≤ k → k < m → gt (b k) (b m) ≡ false
    pub above : (k : ℕ) → m < k → k ≤ q → gt (b m) (b k) ≡ false

  -- The two halves, sorted in turn, around the pivot.
  pub Sorted-around :
      (p q m : ℕ) (a c b d : ℕ → A)
      → Partitioned p q a m c
      → Rearranges p (m - 1) c b
      → Sorted p (m - 1) b
      → Rearranges (m + 1) q b d
      → Sorted (m + 1) q d
      → Sorted p q d
  Sorted-around p q m a c b d part left lsorted right rsorted = sorted
    where
      open part use {below, above}

      stays : (k : ℕ) → k ≤ m → d k ≡ b k
      stays k h = Rearranges-outside right k (inl (omega arith))

      middle : d m ≡ c m
      middle = stays m (omega arith) ∙ at_m
        where
          at_m : b m ≡ c m
          at_m = elim (ℕ_discrete m 0) [
            | no ne ↦ Rearranges-outside left m (inr (omega arith))
            | yes e ↦
                let (k', l', h', e') = Rearranges-inside left m part.lo (omega arith) in
                let same : k' ≡ m = omega arith in e' ∙ ap c same
          ]

      low : (k : ℕ) → p ≤ k → k < m → gt (d k) (c m) ≡ false
      low k l h =
          let (k', l', h', e) = Rearranges-inside left k l (omega arith) in
          subst (λ x. gt x (c m) ≡ false) (sym (stays k (omega arith) ∙ e))
            (below k' l' (omega arith))

      high : (k : ℕ) → m < k → k ≤ q → gt (c m) (d k) ≡ false
      high k l h =
          let (k', l', h', e) = Rearranges-inside right k (omega arith) h in
          let e' = Rearranges-outside left k' (inr (omega arith)) in
          subst (λ x. gt (c m) x ≡ false) (sym (e ∙ e')) (above k' (omega arith) h')

      sorted : Sorted p q d
      sorted i j l lt h = elim (dec_lt j m) [
        | yes jm ↦
            subst (λ x. gt x (d j) ≡ false) (sym (stays i (omega arith)))
              (subst (λ y. gt (b i) y ≡ false) (sym (stays j (omega arith)))
                (lsorted i j l lt (omega arith)))
        | no jm ↦ elim (dec_lt m i) [
          | yes mi ↦ rsorted i j (omega arith) lt h
          | no mi ↦ elim (dec_lt i m) [
            | no im ↦
                let e : i ≡ m = omega arith in
                subst (λ x. gt x (d j) ≡ false) (sym (ap d e ∙ middle)) (high j (omega arith) h)
            | yes im ↦ elim (dec_lt m j) [
              | yes mj ↦ trans (d i) (c m) (d j) (low i l im) (high j mj h)
              | no mj ↦
                  let e : j ≡ m = omega arith in
                  subst (λ x. gt (d i) x ≡ false) (sym (ap d e ∙ middle)) (low i l im)
            ]
          ]
        ]
      ]
