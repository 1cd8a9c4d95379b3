-- ===== src/Riscv/Mpe/Tally.antt =====
-- How many of the first numbers a test accepts, as one answer changes.
use nexus_am_ame.Base.{
  ℕ, zero, suc, ◌+◌, ◌≤◌, ◌<◌, ◌≡◌, ◌==◌, Bool, true, false, arith, if◌then◌else◌, subst, sym,
  Bool-cases, inl, inr,
}
use native.Mathlib.Decide.{ℕ_discrete}

pub tally : (ℕ → Bool) → ℕ → ℕ
tally test zero = 0
tally test (suc n) = tally test n + (if test n then 1 else 0)

pub tally_bound : (test : ℕ → Bool) (n : ℕ) → tally test n ≤ n
unfolding tally
tally_bound test zero = omega arith
tally_bound test (suc n) = let ih = tally_bound test n in ground arith

-- Tests that agree on the first `n` numbers.
pub tally_same : (f g : ℕ → Bool) (n : ℕ) → ((k : ℕ) → k < n → f k ≡ g k) → tally f n ≡ tally g n
unfolding tally
tally_same f g zero same = omega arith
tally_same f g (suc n) same =
    let ih = tally_same f g n (λ k lt. same k (omega arith)) in
    let last = same n (omega arith) in ground arith

-- One more answer is `true`.
pub tally_more :
    (f g : ℕ → Bool) (n h : ℕ)
    → h < n
    → f h ≡ false
    → g h ≡ true
    → ((k : ℕ) → k < n → (k == h) ≡ false → f k ≡ g k)
    → tally g n ≡ tally f n + 1
unfolding tally
tally_more f g zero h lt fh gh same = elim lt [ ]
tally_more f g (suc n) h lt fh gh same = elim (ℕ_discrete h n) [
  | yes e ↦
      let before = tally_same f g n (λ k lk. same k (omega arith) (ground arith)) in
      let fn = subst (λ t. f t ≡ false) e fh in
      let gn = subst (λ t. g t ≡ true) e gh in ground arith
  | no ne ↦
      let before = tally_more f g n h (omega arith) fh gh (λ k lk. same k (omega arith)) in
      let last = same n (omega arith) (ground arith) in ground arith
]

-- All answers are `true` where the count says so.
pub tally_full : (test : ℕ → Bool) (n : ℕ) → tally test n ≡ n → (k : ℕ) → k < n → test k ≡ true
unfolding tally
tally_full test zero e k lt = elim lt [ ]
tally_full test (suc n) e k lt =
    let bound = tally_bound test n in
    elim (ℕ_discrete k n) [
      | yes same ↦ subst (λ t. test t ≡ true) (sym same) (ground arith)
      | no ne ↦ tally_full test n (ground arith) k (omega arith)
    ]

-- No answer is `true` where the count is 0.
pub tally_none : (test : ℕ → Bool) (n : ℕ) → ((k : ℕ) → k < n → test k ≡ false) → tally test n ≡ 0
unfolding tally
tally_none test zero h = omega arith
tally_none test (suc n) h =
    let ih = tally_none test n (λ k lt. h k (omega arith)) in
    let last = h n (omega arith) in ground arith

pub not_all : (test : ℕ → Bool) (n : ℕ) → tally test n < n → (k : ℕ) × (k < n) × (test k ≡ false)
unfolding tally
not_all test zero lt = absurd (omega arith)
not_all test (suc n) lt = elim (Bool-cases (test n)) [
  | inr no_more ↦ (n, omega arith, no_more)
  | inl last ↦ let (k, lk, e) = not_all test n (ground arith) in (k, omega arith, e)
]
