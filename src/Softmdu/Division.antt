-- ===== src/Softmdu/Division.antt =====
-- softdiv is division with remainder.
use native.Mathlib.Nat.{
  div-eq_of_lt-le, one-le-pow, mul-le-mul_left, mul-le-mul_right, pow-succ', mul-one, add-mul,
  div-add-mod',
}
use nexus_am_ame.Base.{
  ℕ, zero, suc, ◌+◌, ◌-◌, ◌*◌, ◌/◌, ◌%◌, ◌^◌, ◌≤◌, ◌<◌, ◌≡◌, arith, refl, subst, Bool-cases, inl,
  inr, leb→le, ap, ◌∙◌, Bool, true, false, leb, if◌then◌else◌, ◌&&◌,
}
use nexus_am_ame.Softmdu.{
  is_negative, negate, differ, hi, lo, sub_hi, div_round, div_rounds, div_last, apply_signs,
  softdiv,
}

-- With `q` the quotient so far: `x` is the dividend, moved up by the rounds done.
record IsDivided (b val x q : ℕ) : Type 0 where
  balance : val + 2 * (q * b) * 2 ^ 32 ≡ x + q
  below : val < 2 * b * 2 ^ 32

sub_hi_lem : (b val : ℕ) → val < 2 ^ 64 → b ≤ hi val → sub_hi b val ≡ val - b * 2 ^ 32
sub_hi_lem b val h le = omega arith

twice_suc : (b q : ℕ) → (2 * q + 1) * b ≡ 2 * (q * b) + b
twice_suc b q = grind arith

twice : (b q : ℕ) → 2 * q * b ≡ 2 * (q * b)
twice b q = grind arith

-- The next bit of the quotient.
abbrev next_bit : ℕ → ℕ → ℕ → ℕ
next_bit b val q = if leb b (hi val) then 2 * q + 1 else 2 * q

div_round-IsDivided :
    (b val x q : ℕ)
    → x + q < 2 ^ 63
    → IsDivided b val x q
    → IsDivided b (div_round b val) (2 * x) (next_bit b val q)
div_round-IsDivided b val x q room d = elim (Bool-cases (leb b (hi val))) [
  | inl fits ↦
      rw (fits, sub_hi_lem b val (omega (arith, d.balance)) (leb→le b (hi val) fits))
        (let le = leb→le b (hi val) fits in
          record {
            balance = omega (arith, d.balance, twice_suc b q);
            below = omega (arith, d.balance, d.below);
          })
  | inr big ↦ rw big (record {
    balance = omega (arith, d.balance, twice b q);
    below = ground (arith, d.balance, d.below, big);
  })
]

pub double_pow : (x n : ℕ) → 2 * x * 2 ^ n ≡ x * 2 ^ suc n
double_pow x n = rw (pow-succ' 2 n) (grind arith)

doubled-le : (t u n : ℕ) → t ≤ 2 * u → t * 2 ^ n ≤ u * 2 ^ suc n
doubled-le t u n h = omega (arith, mul-le-mul_right (2 ^ n) h, double_pow u n)

pub doubled-ge : (u n : ℕ) → 2 * u ≤ u * 2 ^ suc n
doubled-ge u n =
    omega (arith, mul-le-mul_left (2 * u) (one-le-pow n 2 (omega arith)), double_pow u n)

div_rounds-IsDivided :
    (n b val x q : ℕ)
    → (x + q + 1) * 2 ^ n ≤ 2 ^ 64
    → IsDivided b val x q
    → (q' : ℕ) × IsDivided b (div_rounds n b val) (x * 2 ^ n) q' × (q' + 1 ≤ (q + 1) * 2 ^ n)
unfolding div_rounds
div_rounds-IsDivided zero b val x q room d = (q, rw (mul-one x) d, omega arith)
div_rounds-IsDivided (suc n) b val x q room d =
    let q₁ = next_bit b val q in
    let (q', d', h) =
      div_rounds-IsDivided n b (div_round b val) (2 * x) q₁
        (omega (arith, doubled-le (2 * x + q₁ + 1) (x + q + 1) n (ground arith)))
        (div_round-IsDivided b val x q (omega (arith, doubled-ge (x + q + 1) n)) d) in
    (
      q',
      subst (λ t. IsDivided b (div_rounds n b (div_round b val)) t q') (double_pow x n) d',
      omega (arith, doubled-le (q₁ + 1) (q + 1) n (ground arith)),
    )

divided : (a b q r : ℕ) → q * b + r ≡ a → r < b → (a / b ≡ q) × (a % b ≡ r)
divided a b q r e h =
    let quotient : a / b ≡ q =
      div-eq_of_lt-le b (omega (arith, e)) (omega (arith, e, add-mul q 1 b)) in
    (quotient, omega (arith, e, div-add-mod' a b, ap (λ t. t * b) quotient))

-- The last step on the halves of the double word.
pub div_last-halves :
    (b h l : ℕ)
    → h < 2 ^ 32
    → l < 2 ^ 31
    → div_last b (h * 2 ^ 32 + l)
      ≡ (if leb b h then (h - b) * 2 ^ 32 + (2 * l + 1) else h * 2 ^ 32 + 2 * l)
div_last-halves b h l hh hl =
    let high : (h * 2 ^ 32 + l) / 2 ^ 32 ≡ h = omega arith in
    let low : (h * 2 ^ 32 + l) % 2 ^ 32 * 2 % 2 ^ 32 ≡ 2 * l = omega arith in
    let high' : (h * 2 ^ 32 + 2 * l) / 2 ^ 32 ≡ h = omega arith in
    rw (high, low, high') (ground arith)

div_last_lem :
    (a b val q : ℕ)
    → a < 2 ^ 32
    → q < 2 ^ 31
    → IsDivided b val (a * 2 ^ 32) q
    → (lo (div_last b val) ≡ a / b) × (hi (div_last b val) ≡ a % b)
div_last_lem a b val q ha hq d =
    let low : lo val ≡ q = omega (arith, d.balance, d.below) in
    let high : hi val + 2 * (q * b) ≡ a = omega (arith, d.balance, d.below) in
    let less : hi val < 2 * b = omega (arith, d.below) in
    let parts : val ≡ hi val * 2 ^ 32 + q = omega (arith, low) in
    let last = ap (div_last b) parts ∙ div_last-halves b (hi val) q (omega (arith, high)) hq in
    elim (Bool-cases (leb b (hi val))) [
      | inl fits ↦
          let le = leb→le b (hi val) fits in
          let (quotient, rest) =
            divided a b (2 * q + 1) (hi val - b) (omega (arith, high, twice_suc b q))
              (omega arith) in
          rw (last, fits, quotient, rest) (omega arith, omega arith)
      | inr big ↦
          let (quotient, rest) =
            divided a b (2 * q) (hi val) (omega (arith, high, twice b q)) (ground (arith, big)) in
          rw (last, big, quotient, rest) (omega arith, omega arith)
    ]

unsigned_halves :
    (a b : ℕ)
    → a < 2 ^ 32
    → 0 < b
    → let r = div_last b (div_rounds 31 b (a * 2 % 2 ^ 64)) in (lo r ≡ a / b) × (hi r ≡ a % b)
unsigned_halves a b ha hb =
    let start : a * 2 % 2 ^ 64 ≡ 2 * a = omega arith in
    let first : IsDivided b (2 * a) (2 * a) 0 = record {
      balance = omega arith;
      below = omega arith;
    } in
    let (q, d, small) = div_rounds-IsDivided 31 b (2 * a) (2 * a) 0 (omega arith) first in
    let end : 2 * a * 2 ^ 31 ≡ a * 2 ^ 32 = omega arith in
    rw start (
      div_last_lem a b (div_rounds 31 b (2 * a)) q ha (omega arith)
        (subst (λ x. IsDivided b (div_rounds 31 b (2 * a)) x q) end d))

halved : (h l : ℕ) → l < 2 ^ 32 → (hi (h * 2 ^ 32 + l) ≡ h) × (lo (h * 2 ^ 32 + l) ≡ l)
halved h l small = (omega arith, omega arith)

pub apply_signs-halves :
    (sign_a sign_b : Bool) (r : ℕ)
    → (lo (apply_signs sign_a sign_b r) ≡ (if differ sign_a sign_b then negate (lo r) else lo r))
      × (hi (apply_signs sign_a sign_b r) ≡ (if sign_a then negate (hi r) else hi r))
unfolding apply_signs
apply_signs-halves true true r = (omega arith, omega arith)
apply_signs-halves false false r = (refl, refl)
apply_signs-halves true false r =
    let (h, l) = halved (hi r) (negate (lo r)) (omega arith) in
    let (h', l') = halved (negate (hi r)) (negate (lo r)) (omega arith) in rw (h, l) (l', h')
apply_signs-halves false true r = let (h, l) = halved (hi r) (negate (lo r)) (omega arith) in (l, h)

-- The size of a number: with `sign`, that of the integer in two's complement.
abbrev pub size : Bool → ℕ → ℕ
size sign a = if sign && is_negative a then negate a else a

-- For a divisor that is not 0, softdiv returns quotient and remainder of unsigned words, and with
-- `sign` those of integers as C has them: the sizes are divided, the quotient is negative if
-- the signs differ, and the remainder has the sign of the dividend. The quotient of the least
-- integer by -1 wraps.
pub softdiv_lem :
    (a b : ℕ) (sign : Bool)
    → a < 2 ^ 32
    → b < 2 ^ 32
    → 0 < b
    → let quotient = size sign a / size sign b in
      let rest = size sign a % size sign b in
      (softdiv a b sign false ≡ (
        if differ (sign && is_negative a) (sign && is_negative b)
        then negate quotient
        else quotient))
      × (softdiv a b sign true ≡ (if sign && is_negative a then negate rest else rest))
unfolding softdiv
softdiv_lem a b sign ha hb pos =
    let (quotient, rest) =
      unsigned_halves (size sign a) (size sign b) (ground arith) (ground arith) in
    let r = div_last (size sign b) (div_rounds 31 (size sign b) (size sign a * 2 % 2 ^ 64)) in
    let (low, high) = apply_signs-halves (sign && is_negative a) (sign && is_negative b) r in
    (
      low
          ∙ ap (λ t. if differ (sign && is_negative a) (sign && is_negative b) then negate t else t)
              quotient,
      high ∙ ap (λ t. if sign && is_negative a then negate t else t) rest,
    )
