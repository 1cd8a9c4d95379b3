-- ===== src/Base/Bits.antt =====
-- `&` and `|` as arithmetic, one binary digit at a time and for fields of every width.
use Prim.Native.Nat.{ℕ, zero, suc, ◌+◌, ◌-◌, ◌*◌, ◌/◌, ◌%◌, ◌^◌, ◌≤◌, ◌<◌, min, max}
use Prim.Native.Nat.{bit_and, bit_or, digits, bitwise, bit_and-bitwise, bit_or-bitwise}
use Prim.Native.Nat.{bit_xor, bit_xor-bitwise, differ}
use mathlib.Core.Path.{◌≡◌, refl, ap, sym, ◌∙◌}
use native.Mathlib.Decide.{ℕ_discrete}
use native.Mathlib.Nat.{pow-suc, one-le-pow, div-add-mod'}
use native.Mathlib.Omega.{arith}

-- `bitwise` recurs on fuel; a step beyond what the first number needs changes nothing.
module _ (last : ℕ → ℕ) (op : ℕ → ℕ → ℕ) where
  spare_step : (k x y : ℕ) → x ≤ k → digits last op (suc k) x y ≡ digits last op k x y
  spare_step zero zero y h = refl
  spare_step zero (suc x) y h = elim h [ ]
  spare_step (suc k) zero y h = refl
  spare_step (suc k) (suc x) y h =
      ap (λ t. t * 2 + op (suc x % 2) (y % 2)) (spare_step k (suc x / 2) (y / 2) (omega arith))

  spare_fuel : (k j x y : ℕ) → x ≤ j → j ≤ k → digits last op k x y ≡ digits last op j x y
  spare_fuel zero j x y h le = let e : 0 ≡ j = omega arith in ap (λ t. digits last op t x y) e
  spare_fuel (suc k) j x y h le = elim (ℕ_discrete j (suc k)) [
    | yes e ↦ ap (λ t. digits last op t x y) (sym e)
    | no ne ↦ spare_step k x y (omega arith) ∙ spare_fuel k j x y h (omega arith)
  ]

  lowest_digit :
      (x y : ℕ)
      → bitwise last op (suc x) y ≡ bitwise last op (suc x / 2) (y / 2) * 2 + op (suc x % 2) (y % 2)
  lowest_digit x y =
      ap (λ t. t * 2 + op (suc x % 2) (y % 2))
        (spare_fuel x (suc x / 2) (suc x / 2) (y / 2) (omega arith) (omega arith))

-- The lowest digit of the result is that of the lowest digits.
pub bit_and_step : (x y : ℕ) → bit_and x y ≡ bit_and (x / 2) (y / 2) * 2 + min (x % 2) (y % 2)
bit_and_step zero y = omega (arith, bit_and-bitwise 0 y, bit_and-bitwise 0 (y / 2))
bit_and_step (suc x) y = omega (
  arith,
  bit_and-bitwise (suc x) y,
  bit_and-bitwise (suc x / 2) (y / 2),
  lowest_digit (λ _. 0) min x y,
)

pub bit_or_step : (x y : ℕ) → bit_or x y ≡ bit_or (x / 2) (y / 2) * 2 + max (x % 2) (y % 2)
bit_or_step zero y = omega (arith, bit_or-bitwise 0 y, bit_or-bitwise 0 (y / 2))
bit_or_step (suc x) y = omega (
  arith,
  bit_or-bitwise (suc x) y,
  bit_or-bitwise (suc x / 2) (y / 2),
  lowest_digit (λ t. t) max x y,
)

differ_bits : (a b : ℕ) → a < 2 → b < 2 → differ a b ≡ (a + b) % 2
differ_bits zero b p q = omega arith
differ_bits (suc zero) zero p q = refl
differ_bits (suc zero) (suc zero) p q = refl
differ_bits (suc zero) (suc (suc b)) p q = absurd (omega arith)
differ_bits (suc (suc a)) b p q = absurd (omega arith)

pub bit_xor_step : (x y : ℕ) → bit_xor x y ≡ bit_xor (x / 2) (y / 2) * 2 + (x % 2 + y % 2) % 2
bit_xor_step zero y = omega (arith, bit_xor-bitwise 0 y, bit_xor-bitwise 0 (y / 2))
bit_xor_step (suc x) y = omega (
  arith,
  bit_xor-bitwise (suc x) y,
  bit_xor-bitwise (suc x / 2) (y / 2),
  lowest_digit (λ t. t) differ x y,
  differ_bits (suc x % 2) (y % 2) (omega arith) (omega arith),
)

pub bit_or-zero : (x : ℕ) → bit_or x 0 ≡ x
bit_or-zero x = below (suc x) x (omega arith)
  where
    below : (bound y : ℕ) → y < bound → bit_or y 0 ≡ y
    below zero y h = elim h [ ]
    below (suc bound) zero h = refl
    below (suc bound) (suc y) h =
        omega (arith, bit_or_step (suc y) 0, below bound (suc y / 2) (omega arith))

pub bit_and-zero : (x : ℕ) → bit_and x 0 ≡ 0
bit_and-zero x = below (suc x) x (omega arith)
  where
    below : (bound y : ℕ) → y < bound → bit_and y 0 ≡ 0
    below zero y h = elim h [ ]
    below (suc bound) zero h = refl
    below (suc bound) (suc y) h =
        omega (arith, bit_and_step (suc y) 0, below bound (suc y / 2) (omega arith))

mul-two_pow : (q k : ℕ) → q * 2 ^ suc k ≡ 2 * (q * 2 ^ k)
mul-two_pow q k =
    let e : 2 ^ suc k ≡ 2 ^ k * 2 = pow-suc 2 k in omega (arith, ap (λ (t : ℕ). q * t) e)

-- `(q << k) | r` is a sum when `r` fits `k` bits.
pub bit_or_disjoint : (k q r : ℕ) → r < 2 ^ k → bit_or (q * 2 ^ k) r ≡ q * 2 ^ k + r
bit_or_disjoint zero q r fits = ground (arith, bit_or-zero q)
bit_or_disjoint (suc k) q r fits = ground (
  arith,
  mul-two_pow q k,
  bit_or_step (q * 2 ^ suc k) r,
  bit_or_disjoint k q (r / 2) (omega (arith, pow-suc 2 k)),
)

low_bits : (k q r : ℕ) → r < 2 ^ k → bit_and (q * 2 ^ k + r) (2 ^ k - 1) ≡ r
low_bits zero q r fits = rw bit_and-zero (omega arith)
low_bits (suc k) q r fits = ground (
  arith,
  bit_and_step (q * 2 ^ suc k + r) (2 ^ suc k - 1),
  mul-two_pow q k,
  pow-suc 2 k,
  one-le-pow k 2,
  low_bits k q (r / 2) (omega arith),
)

-- A mask of `k` low bits is the remainder by `2 ^ k`.
pub bit_and_low : (k a : ℕ) → bit_and a (2 ^ k - 1) ≡ a % 2 ^ k
bit_and_low k a = ground (arith, one-le-pow k 2, low_bits k (a / 2 ^ k) (a % 2 ^ k))

high_bits : (k q r m : ℕ) → r < 2 ^ k → bit_and (q * 2 ^ k + r) (m * 2 ^ k) ≡ bit_and q m * 2 ^ k
high_bits zero q r m fits = ground (arith, ap (λ (t : ℕ). bit_and t m) (the_zero q r fits))
  where
    the_zero : (q r : ℕ) → r < 1 → q * 1 + r ≡ q
    the_zero q r fits = omega arith
high_bits (suc k) q r m fits = ground (
  arith,
  bit_and_step (q * 2 ^ suc k + r) (m * 2 ^ suc k),
  mul-two_pow q k,
  mul-two_pow m k,
  mul-two_pow (bit_and q m) k,
  high_bits k q (r / 2) m (omega (arith, pow-suc 2 k)),
)

-- A mask whose `k` low bits are clear acts on what stands above them.
pub bit_and_high : (k a m : ℕ) → bit_and a (m * 2 ^ k) ≡ bit_and (a / 2 ^ k) m * 2 ^ k
bit_and_high k a m = ground (arith, one-le-pow k 2, high_bits k (a / 2 ^ k) (a % 2 ^ k) m)

joined_bits :
    (k q r c : ℕ) → r < 2 ^ k → bit_or (q * 2 ^ k + r) (c * 2 ^ k) ≡ bit_or q c * 2 ^ k + r
joined_bits zero q r c fits =
    let e : q * 2 ^ 0 + r ≡ q = omega arith in
    let f : c * 2 ^ 0 ≡ c = omega arith in rw (e, f) (omega arith)
joined_bits (suc k) q r c fits = ground (
  arith,
  mul-two_pow q k,
  mul-two_pow c k,
  mul-two_pow (bit_or q c) k,
  bit_or_step (q * 2 ^ suc k + r) (c * 2 ^ suc k),
  joined_bits k q (r / 2) c (omega (arith, pow-suc 2 k)),
)

-- A field above the low `k` bits is set in what stands above them.
pub bit_or_high : (k a c : ℕ) → bit_or a (c * 2 ^ k) ≡ bit_or (a / 2 ^ k) c * 2 ^ k + a % 2 ^ k
bit_or_high k a c = ground (arith, one-le-pow k 2, joined_bits k (a / 2 ^ k) (a % 2 ^ k) c)

-- A field is free if its bits are 0: setting it there adds it.
pub bit_or_free :
    (k w a c : ℕ) → c < 2 ^ w → a / 2 ^ k % 2 ^ w ≡ 0 → bit_or a (c * 2 ^ k) ≡ a + c * 2 ^ k
bit_or_free k w a c small free =
    bit_or_high k a c
    ∙ ap (λ t. t * 2 ^ k + a % 2 ^ k) above
    ∙ omega (arith, div-add-mod' a (2 ^ k))
  where
    whole : a / 2 ^ k ≡ a / 2 ^ k / 2 ^ w * 2 ^ w
    whole = omega (arith, div-add-mod' (a / 2 ^ k) (2 ^ w))

    above : bit_or (a / 2 ^ k) c ≡ a / 2 ^ k + c
    above =
        ap (λ t. bit_or t c) whole
        ∙ bit_or_disjoint w (a / 2 ^ k / 2 ^ w) c small
        ∙ ap (λ t. t + c) (sym whole)

bit_and_swap : (n x y : ℕ) → x ≤ n → y ≤ n → bit_and x y ≡ bit_and y x
bit_and_swap zero x y hx hy =
    let ex : x ≡ 0 = omega arith in
    let ey : y ≡ 0 = omega arith in
    ap (bit_and x) ey
    ∙ ap (λ t. bit_and t 0) ex
    ∙ ap (bit_and 0) (sym ex)
    ∙ ap (λ t. bit_and t x) (sym ey)
bit_and_swap (suc n) x y hx hy = omega (
  arith,
  bit_and_step x y,
  bit_and_step y x,
  bit_and_swap n (x / 2) (y / 2) (omega arith) (omega arith),
)

pub bit_and_comm : (x y : ℕ) → bit_and x y ≡ bit_and y x
bit_and_comm x y = bit_and_swap (x + y) x y (omega arith) (omega arith)
