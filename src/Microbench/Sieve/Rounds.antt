-- ===== src/Microbench/Sieve/Rounds.antt =====
-- apps/microbench/src/sieve/sieve.c: a round of the loop that crosses out.
use nexus_am_ame.Base.{
  ℕ, zero, suc, ◌+◌, ◌-◌, ◌*◌, ◌/◌, ◌%◌, ◌^◌, ◌≤◌, ◌<◌, ◌≡◌, inl, inr, refl, sym, ap, subst, ◌∙◌,
  arith, Bool, true, false, ◌&&◌, ◌==◌, leb, if◌then◌else◌, Bool-cases,
}
use nexus_am_ame.Microbench.Sieve.{get, clear, clear_multiples}
use nexus_am_ame.Microbench.Sieve.Marks.{get-clear}
use native.Mathlib.Nat.{
  mod-eq_of_lt, mod-eq-sub-mod, dvd_of_mod-eq-zero, mod-eq-zero_of_dvd, dvd_trans, div-add-mod,
  mul-mod_left, mul-le-mul, mul-le-mul_right,
}
use nexus_am_ame.Words.{int_less}
use native.Mathlib.Decide.{dec_lt, ℕ_discrete}

-- `k` is among j, j + i, j + 2 * i and so on, up to n.
abbrev hit : ℕ → ℕ → ℕ → ℕ → Bool
hit n i j k = leb j k && leb k n && ((k - j) % i == 0)

hit_next :
    (n i j k : ℕ) → 0 < i → j ≤ n → hit n i j k ≡ (if k == j then true else hit n i (j + i) k)
hit_next n i j k pos le = elim (dec_lt k j) [
  | yes lt ↦ ground arith
  | no ge ↦ elim (dec_lt (k - j) i) [
    | yes near ↦ let e = mod-eq_of_lt near in ground arith
    | no far ↦
        let le' : i ≤ k - j = omega arith in
        let e = mod-eq-sub-mod le' in
        let same : k - j - i ≡ k - (j + i) = omega arith in
        let e' : (k - j) % i ≡ (k - (j + i)) % i = e ∙ ap (λ (t : ℕ). t % i) same in ground arith
  ]
]

clear_multiples_lem :
    (fuel n i j : ℕ) (primes : ℕ → ℕ) (k : ℕ)
    → 0 < i
    → n + i < 2 ^ 31
    → j < 2 ^ 31
    → n < j + fuel
    → get (clear_multiples fuel n i j primes) k ≡ (if hit n i j k then 0 else get primes k)
unfolding clear_multiples
clear_multiples_lem zero n i j primes k pos room small enough = ground arith
clear_multiples_lem (suc fuel) n i j primes k pos room small enough = elim (dec_lt n j) [
  | yes over ↦
      let ends : int_less n j ≡ true = ground (arith, over, room, small) in
      rw ends (ground (arith, over))
  | no under ↦
      let goes : int_less n j ≡ false = ground (arith, under, room, small) in
      let exact : (j + i) % 2 ^ 32 ≡ j + i = omega arith in
      let ih =
        clear_multiples_lem fuel n i (j + i) (clear primes j) k pos room (omega arith)
          (omega arith) in
      let c = get-clear primes j k in
      let h = hit_next n i j k pos (omega arith) in rw (goes, exact, ih) (ground (arith, c, h))
]

-- What is crossed out before round `i`: the numbers up to `n` with a smaller divisor.
abbrev pub Divisor : ℕ → ℕ → Type 0
Divisor i k = (d : ℕ) × (2 ≤ d) × (d < i) × (d < k) × (k % d ≡ 0)

pub record Crossed (n i : ℕ) (primes : ℕ → ℕ) : Type 0 where
  pub sound : (k : ℕ) → 2 ≤ k → k ≤ n → get primes k ≡ 0 → Divisor i k
  pub complete : (k : ℕ) → 2 ≤ k → k ≤ n → Divisor i k → get primes k ≡ 0

widen : (i k : ℕ) → Divisor i k → Divisor (i + 1) k
widen i k (d, two, di, dk, e) = (d, two, omega arith, dk, e)

multiple_of : (k i d : ℕ) → k % i ≡ 0 → i % d ≡ 0 → k % d ≡ 0
multiple_of k i d a b =
    mod-eq-zero_of_dvd d (dvd_trans d (dvd_of_mod-eq-zero d b) (dvd_of_mod-eq-zero i a))

-- A number that is crossed out has nothing new to cross out.
pub skip_keeps :
    (n i : ℕ) (primes : ℕ → ℕ)
    → 2 ≤ i
    → i ≤ n
    → Crossed n i primes
    → get primes i ≡ 0
    → Crossed n (i + 1) primes
skip_keeps n i primes two le c none_left = record {
  sound = λ k two' kn e. widen i k (c.sound k two' kn e);
  complete = λ k two' kn d. crossed k two' kn d;
}
  where
    crossed : (k : ℕ) → 2 ≤ k → k ≤ n → Divisor (i + 1) k → get primes k ≡ 0
    crossed k two' kn (d, td, di, dk, e) = elim (ℕ_discrete d i) [
      | no ne ↦ c.complete k two' kn (d, td, omega arith, dk, e)
      | yes same ↦
          let (f, tf, fi, fi', ef) = c.sound i two le none_left in
          let ei : k % i ≡ 0 = subst (λ (t : ℕ). k % t ≡ 0) same e in
          c.complete k two' kn (f, tf, fi, omega arith, multiple_of k i f ei ef)
    ]

-- Twice `i` taken off a multiple.
twice_off : (i k : ℕ) → i + i ≤ k → k % i ≡ (k - (i + i)) % i
twice_off i k le =
    let once : i ≤ k = omega arith in
    let again : i ≤ k - i = omega arith in
    let same : k - i - i ≡ k - (i + i) = omega arith in
    mod-eq-sub-mod once ∙ mod-eq-sub-mod again ∙ ap (λ (t : ℕ). t % i) same

proper_hit : (n i k : ℕ) → 2 ≤ i → hit n i (i + i) k ≡ true → (i < k) × (k % i ≡ 0)
proper_hit n i k two h =
    let le : i + i ≤ k = ground arith in let e = twice_off i k le in (omega arith, ground arith)

far_multiple : (i k : ℕ) → i < k → k % i ≡ 0 → i + i ≤ k
far_multiple i k ik e = elim (dec_lt k (i + i)) [
  | no ge ↦ omega arith
  | yes near ↦
      let small : k - i < i = omega arith in
      let once : i ≤ k = omega arith in
      let a = mod-eq-sub-mod once in let b = mod-eq_of_lt small in omega arith
]

hit_proper : (n i k : ℕ) → k ≤ n → i < k → k % i ≡ 0 → hit n i (i + i) k ≡ true
hit_proper n i k kn ik e =
    let le = far_multiple i k ik e in let off = twice_off i k le in ground arith

both : (b : Bool) (x : ℕ) → x ≡ 0 → (if b then 0 else x) ≡ 0
both true x e = refl
both false x e = e

pub cross_keeps :
    (n i : ℕ) (primes : ℕ → ℕ)
    → 2 ≤ i
    → i ≤ 46340
    → n < 46340 * 46340
    → Crossed n i primes
    → Crossed n (i + 1) (clear_multiples n n i (i + i) primes)
cross_keeps n i primes two int_i int_n c = record { sound = sound'; complete = complete' }
  where
    now :
        (k : ℕ)
        → get (clear_multiples n n i (i + i) primes) k
          ≡ (if hit n i (i + i) k then 0 else get primes k)
    now k =
        clear_multiples_lem n n i (i + i) primes k (omega arith) (omega arith) (omega arith)
          (omega arith)

    sound' :
        (k : ℕ)
        → 2 ≤ k
        → k ≤ n
        → get (clear_multiples n n i (i + i) primes) k ≡ 0
        → Divisor (i + 1) k
    sound' k tk kn e = elim (Bool-cases (hit n i (i + i) k)) [
      | inl h ↦ let (ik, m) = proper_hit n i k two h in (i, two, omega arith, ik, m)
      | inr no_hit ↦
          widen i k (
            c.sound k tk kn
              (sym (ap (λ b. if b then 0 else get primes k) no_hit) ∙ sym (now k) ∙ e))
    ]

    complete' :
        (k : ℕ)
        → 2 ≤ k
        → k ≤ n
        → Divisor (i + 1) k
        → get (clear_multiples n n i (i + i) primes) k ≡ 0
    complete' k tk kn (d, td, di, dk, e) = elim (ℕ_discrete d i) [
      | yes same ↦
          let ei : k % i ≡ 0 = subst (λ (t : ℕ). k % t ≡ 0) same e in
          let h = hit_proper n i k kn (omega arith) ei in
          now k ∙ ap (λ b. if b then 0 else get primes k) h
      | no ne ↦
          let old = c.complete k tk kn (d, td, omega arith, dk, e) in
          let new = now k in new ∙ both (hit n i (i + i) k) (get primes k) old
    ]

two_times : (d q k : ℕ) → d * q ≡ k → 2 ≤ d → d < k → 2 ≤ q
two_times d q k whole td dk = elim (ℕ_discrete q 0) [
  | yes e ↦ omega (arith, ap (λ (t : ℕ). d * t) e)
  | no n0 ↦ elim (ℕ_discrete q 1) [
    | yes e ↦ omega (arith, ap (λ (t : ℕ). d * t) e)
    | no n1 ↦ omega arith
  ]
]

below_root : (n i d q k : ℕ) → d * q ≡ k → k ≤ n → n < i * i → i ≤ d → q < i
below_root n i d q k whole kn big id = elim (dec_lt q i) [
  | yes lt ↦ lt
  | no ge ↦ let iq : i ≤ q = omega arith in omega (arith, mul-le-mul id iq)
]

less_than : (d q k : ℕ) → d * q ≡ k → 2 ≤ d → 2 ≤ k → q < k
less_than d q k whole td tk = omega (arith, mul-le-mul_right q td)

-- Where the square of `i` is above `n`, a number without a divisor below `i` has none.
pub small_divisor :
    (n i k d : ℕ) → n < i * i → k ≤ n → 2 ≤ k → 2 ≤ d → d < k → k % d ≡ 0 → Divisor i k
small_divisor n i k d big kn tk td dk e = elim (dec_lt d i) [
  | yes di ↦ (d, td, di, dk, e)
  | no ge ↦
      let q : ℕ = k / d in
      let whole : d * q ≡ k = omega (arith, div-add-mod k d, e) in
      (
        q,
        two_times d q k whole td dk,
        below_root n i d q k whole kn big (omega arith),
        less_than d q k whole td tk,
        ap (λ (t : ℕ). t % q) (sym whole) ∙ mul-mod_left d q,
      )
]
