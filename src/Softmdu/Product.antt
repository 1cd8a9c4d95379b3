-- ===== src/Softmdu/Product.antt =====
-- softmul is multiplication.
use native.Mathlib.Nat.{pow-succ', add-mul, mul_assoc, mul-suc, mul_comm}
use nexus_am_ame.Base.{
  ◌≢◌, ℕ, zero, suc, ◌+◌, ◌-◌, ◌*◌, ◌/◌, ◌%◌, ◌^◌, ◌≤◌, ◌<◌, ◌≡◌, arith, refl, ap, ◌∙◌, Bool, true,
  false, Bool-cases, inl, inr, ◌==◌, ==_iff, if◌then◌else◌, ◌&&◌,
}
use nexus_am_ame.Softmdu.Division.{double_pow}
use nexus_am_ame.Softmdu.{
  is_negative, negate, differ, hi, lo, mul_round, mul_rounds, booth, softmul,
}
use nexus_am_ame.Softmdu.Booth.{
  add_round, add_rounds, Follows, parity, mul_round-Follows, mul_rounds-Follows, mul_rounds-suc,
}

regroup : (d k : ℕ) → 2 * d * k ≡ d * (2 * k)
regroup d k = grind arith

half_even : (d c : ℕ) → c % 2 ≡ 0 → 2 * d * (c / 2) ≡ d * c
half_even d c e =
    let twice : 2 * (c / 2) ≡ c = omega arith in regroup d (c / 2) ∙ ap (λ t. d * t) twice

half_odd : (d c : ℕ) → c % 2 ≡ 1 → d + 2 * d * (c / 2) ≡ d * c
half_odd d c e =
    let twice : suc (2 * (c / 2)) ≡ c = omega arith in
    ap (λ t. d + t) (regroup d (c / 2)) ∙ add_one d (2 * (c / 2)) ∙ ap (λ t. d * t) twice
  where
    add_one : (d k : ℕ) → d + d * k ≡ d * suc k
    add_one d k = omega (arith, mul-suc d k)

-- Shifting and adding multiplies: `c` is what is left of one factor, and `d` the weight of the
-- other.
add_rounds_lem :
    (n a d base c : ℕ)
    → d * 2 ^ n ≡ a * 2 ^ 32
    → c < 2 ^ n
    → add_rounds n a (base * 2 ^ n + c) ≡ base + d * c
unfolding add_rounds
add_rounds_lem zero a d base c weight small =
    let e : c ≡ 0 = omega arith in omega (arith, e, ap (λ t. d * t) e)
add_rounds_lem (suc n) a d base c weight small =
    let split = pow-succ' 2 n in
    let weight' : 2 * d * 2 ^ n ≡ a * 2 ^ 32 = double_pow d n ∙ weight in
    let double : base * 2 ^ suc n ≡ 2 * (base * 2 ^ n) = rw split (grind arith) in
    elim (Bool-cases (c % 2 == 0)) [
      | inl even ↦
          let step : add_round a (base * 2 ^ suc n + c) ≡ base * 2 ^ n + c / 2 =
            ground (arith, double, even) in
          ap (add_rounds n a) step
          ∙ add_rounds_lem n a (2 * d) base (c / 2) weight' (omega (arith, split))
          ∙ omega (arith, half_even d c (ground (arith, even)))
      | inr odd ↦
          let step : add_round a (base * 2 ^ suc n + c) ≡ (base + d) * 2 ^ n + c / 2 =
            ground (arith, double, odd, weight', add-mul base d (2 ^ n), mul_assoc 2 d (2 ^ n)) in
          ap (add_rounds n a) step
          ∙ add_rounds_lem n a (2 * d) (base + d) (c / 2) weight' (omega (arith, split))
          ∙ omega (arith, half_odd d c (ground (arith, odd)))
    ]

last_round :
    (a b v choose w : ℕ) (last : Bool)
    → a ≤ 2 ^ 31
    → w ≡ 2 * (a * b)
    → Follows a v choose w last
    → (mul_round a (v, choose)).0 ≡ a * b
last_round a b v choose w last h e f =
    let f' = mul_round-Follows a v choose w last h f in
    let even : (v % 2 == 1) ≡ false = ground (arith, parity a v choose w last f) in
    let half : add_round a w ≡ a * b = ground arith in
    omega (arith, f'.range, f'.room, rw (even, half) at f'.balance, half)

booth_product : (a b : ℕ) → a ≤ 2 ^ 31 → b < 2 ^ 31 → (mul_rounds 32 a (b, b % 2 * 2)).0 ≡ a * b
booth_product a b ha hb =
    let start : Follows a b (b % 2 * 2) b false = record {
      range = omega arith;
      room = omega arith;
      balance = omega arith;
      chosen = omega arith;
    } in
    let (last, f) = mul_rounds-Follows 31 a b (b % 2 * 2) b false ha start in
    let sum = add_rounds_lem 31 a (2 * a) 0 b (omega arith) hb in
    let begin : 0 * 2 ^ 31 + b ≡ b = omega arith in
    let p = mul_rounds 31 a (b, b % 2 * 2) in
    ap (λ r. r.0) (mul_rounds-suc 31 a (b, b % 2 * 2))
    ∙ last_round a b p.0 p.1 (add_rounds 31 a b) last ha
        (omega (arith, ap (add_rounds 31 a) begin, sum, mul_assoc 2 a b)) f

-- The size of an integer.
abbrev pub int_size : ℕ → ℕ
int_size a = if is_negative a then negate a else a

-- The product of two integers on 64 bits.
abbrev pub int_product : ℕ → ℕ → ℕ
int_product a b =
    let p = int_size a * int_size b in
    if differ (is_negative a) (is_negative b) then (2 ^ 64 - p) % 2 ^ 64 else p

booth_lem : (a b : ℕ) → a < 2 ^ 32 → b < 2 ^ 32 → b ≢ 2 ^ 31 → booth a b true ≡ int_product a b
unfolding booth
booth_lem a b ha hb ne =
    rw (booth_product (int_size a) (int_size b) (ground arith) (ground arith)) refl

differ_comm : (a b : Bool) → differ a b ≡ differ b a
differ_comm a b = ground arith

int_product_comm : (a b : ℕ) → int_product a b ≡ int_product b a
int_product_comm a b =
    rw (mul_comm (int_size a) (int_size b), differ_comm (is_negative a) (is_negative b)) refl

and_false : (b : Bool) → (b && false) ≡ false
and_false b = ground arith

both_least :
    {a b : ℕ}
    → a ≡ 2 ^ 31
    → b ≡ 2 ^ 31
    → (if (a == 2 ^ 31) && (b == 2 ^ 31)
        then 0x4000_0000_0000_0000
        else (if b == 2 ^ 31 then booth b a true else booth a b true))
      ≡ int_product a b
both_least ea eb = rw (ea, eb) refl

-- softmul with `sign` returns the two halves of the 64-bit product of any two integers, also
-- where a factor is the least integer.
pub softmul_lem :
    (a b : ℕ)
    → a < 2 ^ 32
    → b < 2 ^ 32
    → (softmul a b true true ≡ int_product a b / 2 ^ 32)
      × (softmul a b true false ≡ int_product a b % 2 ^ 32)
unfolding softmul
softmul_lem a b ha hb = (ap hi product, ap lo product)
  where
    product :
        (if (a == 2 ^ 31) && (b == 2 ^ 31)
          then 0x4000_0000_0000_0000
          else (if b == 2 ^ 31 then booth b a true else booth a b true))
        ≡ int_product a b
    product = elim (Bool-cases (b == 2 ^ 31)) [
      | inl least ↦ elim (Bool-cases (a == 2 ^ 31)) [
        | inl both ↦ both_least ((==_iff a (2 ^ 31)).0 both) ((==_iff b (2 ^ 31)).0 least)
        | inr one ↦
            rw (least, one) (booth_lem b a hb ha (ground (arith, one)) ∙ int_product_comm b a)
      ]
      | inr other ↦
          rw other (rw (and_false (a == 2 ^ 31)) (booth_lem a b ha hb (ground (arith, other))))
    ]
