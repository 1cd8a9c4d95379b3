-- ===== src/Cputest/Sort/Scan.antt =====
-- What the two inner loops of partition find, for quick-sort.c.
use nexus_am_ame.Base.{
  ℕ, zero, suc, ◌+◌, ◌≤◌, ◌<◌, ◌≡◌, ◌⊎◌, inl, inr, refl, sym, subst, arith, true, false, ltb, ◌&&◌,
  if◌then◌else◌,
}
use nexus_am_ame.Arrays.{Order}
use nexus_am_ame.Cputest.Sort.{scan_down, scan_up}
use native.Mathlib.Decide.{ℕ_discrete}

module _ {ℓ} {A : Type ℓ} ⦃o : Order A⦄ where
  open o use {gt}

  abbrev pub Down : (ℕ → A) → A → ℕ → ℕ → ℕ → Type 0
  Down a pivot i j r =
      (i ≤ r)
      × (r ≤ j)
      × ((k : ℕ) → r < k → k ≤ j → gt (a k) pivot ≡ true)
      × ((r ≡ i) ⊎ (gt (a r) pivot ≡ false))

  Down-stays :
      (a : ℕ → A) (pivot : A) (i j : ℕ)
      → i ≤ j
      → (j ≡ i) ⊎ (gt (a j) pivot ≡ false)
      → Down a pivot i j j
  Down-stays a pivot i j h stop = (h, omega arith, λ k lo hi. absurd (omega arith), stop)

  Down-goes :
      (a : ℕ → A) (pivot : A) (i j r : ℕ)
      → gt (a (suc j)) pivot ≡ true
      → Down a pivot i j r
      → Down a pivot i (suc j) r
  Down-goes a pivot i j r up (lo, hi, above, stop) = (lo, omega arith, more, stop)
    where
      more : (k : ℕ) → r < k → k ≤ suc j → gt (a k) pivot ≡ true
      more k l h = elim (ℕ_discrete k (suc j)) [
        | yes e ↦ subst (λ t. gt (a t) pivot ≡ true) (sym e) up
        | no ne ↦ above k l (omega arith)
      ]

  pub scan_down_lem :
      (a : ℕ → A) (pivot : A) (i j : ℕ) → i ≤ j → Down a pivot i j (scan_down a pivot i j)
  unfolding scan_down
  scan_down_lem a pivot i zero h = Down-stays a pivot i zero h (inl (omega arith))
  scan_down_lem a pivot i (suc j) h =
      let stays = Down-stays a pivot i (suc j) h in
      elim (ltb i (suc j))
          as (λ b.
            (ltb i (suc j) ≡ b)
            → Down a pivot i (suc j)
                (if b && gt (a (suc j)) pivot then scan_down a pivot i j else suc j)) [
                  | false ↦ λ e. stays (inl (ground arith))
                  | true ↦ λ e.
                      elim (gt (a (suc j)) pivot)
                          as (λ b.
                            (gt (a (suc j)) pivot ≡ b)
                            → Down a pivot i (suc j) (if b then scan_down a pivot i j else suc j)) [
                              | false ↦ λ low. stays (inr low)
                              | true ↦ λ up.
                                  Down-goes a pivot i j (scan_down a pivot i j) up
                                    (scan_down_lem a pivot i j (ground arith))
                            ]
                        refl
                ]
        refl

  abbrev pub Up : (ℕ → A) → A → ℕ → ℕ → ℕ → Type 0
  Up a pivot i left r =
      (i ≤ r)
      × (r ≤ i + left)
      × ((k : ℕ) → i ≤ k → k < r → gt (a k) pivot ≡ false)
      × ((r ≡ i + left) ⊎ (gt (a r) pivot ≡ true))

  Up-goes :
      (a : ℕ → A) (pivot : A) (i left r : ℕ)
      → gt (a i) pivot ≡ false
      → Up a pivot (i + 1) left r
      → Up a pivot i (suc left) r
  Up-goes a pivot i left r low (lo, hi, below, stop) = (omega arith, omega arith, more, end stop)
    where
      more : (k : ℕ) → i ≤ k → k < r → gt (a k) pivot ≡ false
      more k l h = elim (ℕ_discrete k i) [
        | yes e ↦ subst (λ t. gt (a t) pivot ≡ false) (sym e) low
        | no ne ↦ below k (omega arith) h
      ]

      end :
          (r ≡ i + 1 + left) ⊎ (gt (a r) pivot ≡ true)
          → (r ≡ i + suc left) ⊎ (gt (a r) pivot ≡ true)
      end (inl e) = inl (omega arith)
      end (inr u) = inr u

  pub scan_up_lem :
      (a : ℕ → A) (pivot : A) (i left : ℕ) → Up a pivot i left (scan_up a pivot i left)
  unfolding scan_up
  scan_up_lem a pivot i zero =
      (omega arith, omega arith, λ k lo hi. absurd (omega arith), inl (omega arith))
  scan_up_lem a pivot i (suc left) =
      elim (gt (a i) pivot)
          as (λ b.
            (gt (a i) pivot ≡ b)
            → Up a pivot i (suc left) (if b then i else scan_up a pivot (i + 1) left)) [
              | true ↦ λ up. (omega arith, omega arith, λ k lo hi. absurd (omega arith), inr up)
              | false ↦ λ low.
                  Up-goes a pivot i left (scan_up a pivot (i + 1) left) low
                    (scan_up_lem a pivot (i + 1) left)
            ]
        refl
