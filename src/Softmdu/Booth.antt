-- ===== src/Softmdu/Booth.antt =====
-- The rounds of softmul follow those of a multiplier that shifts and adds.
use nexus_am_ame.Base.{
  ℕ, zero, suc, ◌+◌, ◌-◌, ◌*◌, ◌/◌, ◌%◌, ◌^◌, ◌≤◌, ◌<◌, ◌≡◌, arith, refl, Bool, true, false,
  Bool-cases, inl, inr, ◌==◌, if◌then◌else◌,
}
use nexus_am_ame.Softmdu.{hi, lo, set_hi, sub_hi, shift_right, mul_round, mul_rounds}

-- The integer of a double word, moved up to a natural number.
abbrev pub lifted : ℕ → ℕ
lifted val = (val + 2 ^ 63) % 2 ^ 64

-- One round of a multiplier for unsigned words.
abbrev pub add_round : ℕ → ℕ → ℕ
add_round a w = if w % 2 == 0 then w / 2 else (w + a * 2 ^ 32) / 2

unfoldable pub add_rounds : ℕ → ℕ → ℕ → ℕ
add_rounds zero a w = w
add_rounds (suc n) a w = add_rounds n a (add_round a w)

-- Where the bit before was 1, Booth's double word is one `a` behind.
pub record Follows (a val choose w : ℕ) (last : Bool) : Type 0 where
  pub range : val < 2 ^ 64
  pub room : w < 2 ^ 63
  pub balance : lifted val + (if last then a * 2 ^ 32 else 0) ≡ 2 ^ 63 + w
  pub chosen : choose ≡ val % 2 * 2 + (if last then 1 else 0)

pub parity : (a val choose w : ℕ) (last : Bool) → Follows a val choose w last → val % 2 ≡ w % 2
parity a val choose w true f = omega (arith, f.balance, f.range)
parity a val choose w false f = omega (arith, f.balance, f.range)

lifted-shift_right : (val : ℕ) → val < 2 ^ 64 → lifted (shift_right val) ≡ lifted val / 2 + 2 ^ 62
lifted-shift_right val h = omega arith

add_hi_lem :
    (a val : ℕ)
    → val < 2 ^ 64
    → lifted val + a * 2 ^ 32 < 2 ^ 64
    → let u = set_hi ((hi val + a) % 2 ^ 32) val in
      (u < 2 ^ 64) × (lifted u ≡ lifted val + a * 2 ^ 32) × (lo u ≡ lo val)
add_hi_lem a val h room = (omega arith, omega arith, omega arith)

sub_hi_lem :
    (a val : ℕ)
    → val < 2 ^ 64
    → a ≤ 2 ^ 31
    → a * 2 ^ 32 ≤ lifted val
    → (sub_hi a val < 2 ^ 64)
      × (lifted (sub_hi a val) ≡ lifted val - a * 2 ^ 32)
      × (lo (sub_hi a val) ≡ lo val)
sub_hi_lem a val h small room = (omega arith, omega arith, omega arith)

-- The end of a round, from the double word `u` that is shifted.
shifted-Follows :
    (a u w' : ℕ) (odd : Bool)
    → u < 2 ^ 64
    → w' < 2 ^ 63
    → odd ≡ (u % 2 == 1)
    → lifted u / 2 + (if odd then a * 2 ^ 32 else 0) ≡ 2 ^ 62 + w'
    → Follows a (shift_right u) (lo u % 4) w' odd
shifted-Follows a u w' odd h room e balance = record {
  range = omega arith;
  room = room;
  balance = omega (arith, balance, lifted-shift_right u h);
  chosen = ground arith;
}

pub mul_round-Follows :
    (a val choose w : ℕ) (last : Bool)
    → a ≤ 2 ^ 31
    → Follows a val choose w last
    → Follows a
        (mul_round a (val, choose)).0
        (mul_round a (val, choose)).1
        (add_round a w)
        (val % 2 == 1)
mul_round-Follows a val choose w true h f = elim (Bool-cases (val % 2 == 0)) [
  | inl even ↦
      let c : choose ≡ 1 = ground (arith, f.chosen) in
      let (range, up, low) = add_hi_lem a val f.range (omega (arith, f.balance, f.room)) in
      rw c (
        shifted-Follows a _ _ _ range (ground (arith, f.room)) (ground (arith, low))
          (ground (arith, f.balance, up, parity a val choose w true f)))
  | inr odd ↦
      let c : choose ≡ 3 = ground (arith, f.chosen, odd) in
      rw c (
        shifted-Follows a val _ _ f.range (ground (arith, f.room, h)) refl
          (ground (arith, f.balance, odd, parity a val choose w true f)))
]
mul_round-Follows a val choose w false h f = elim (Bool-cases (val % 2 == 0)) [
  | inl even ↦
      let c : choose ≡ 0 = ground (arith, f.chosen) in
      rw c (
        shifted-Follows a val _ _ f.range (ground (arith, f.room)) refl
          (ground (arith, f.balance, even, parity a val choose w false f)))
  | inr odd ↦
      let c : choose ≡ 2 = ground (arith, f.chosen, odd) in
      let (range, down, low) = sub_hi_lem a val f.range h (omega (arith, f.balance, h)) in
      rw c (
        shifted-Follows a (sub_hi a val) _ _ range (ground (arith, f.room, h)) (ground (arith, low))
          (ground (arith, f.balance, odd, h, down, parity a val choose w false f)))
]

pub mul_rounds-Follows :
    (n a val choose w : ℕ) (last : Bool)
    → a ≤ 2 ^ 31
    → Follows a val choose w last
    → (last' : Bool) × Follows a
        (mul_rounds n a (val, choose)).0
        (mul_rounds n a (val, choose)).1
        (add_rounds n a w)
        last'
unfolding mul_rounds add_rounds
mul_rounds-Follows zero a val choose w last h f = (last, f)
mul_rounds-Follows (suc n) a val choose w last h f =
    mul_rounds-Follows n a _ _ _ _ h (mul_round-Follows a val choose w last h f)

-- The last round done separately.
pub mul_rounds-suc : (n a : ℕ) (p : ℕ × ℕ) → mul_rounds (suc n) a p ≡ mul_round a (mul_rounds n a p)
unfolding mul_rounds
mul_rounds-suc zero a p = refl
mul_rounds-suc (suc n) a p = mul_rounds-suc n a (mul_round a p)
