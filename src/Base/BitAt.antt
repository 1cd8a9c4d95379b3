-- ===== src/Base/BitAt.antt =====
-- The bits of a number one by one, and what `&`, `|` and `^` make of them.
use Prim.Native.Nat.{ℕ, zero, suc, ◌+◌, ◌*◌, ◌/◌, ◌%◌, ◌^◌, ◌<◌, min, max, bit_and, bit_or, bit_xor}
use mathlib.Core.Path.{◌≡◌, refl, sym, ap, ◌∙◌}
use native.Mathlib.Omega.{arith}
use native.Mathlib.Nat.{
  pow-suc, one-le-pow, div-add-mod, mod-lt, mod-eq_of_lt, add-mul-mod_self_left,
}
use nexus_am_ame.Base.Bits.{bit_and_step, bit_or_step, bit_xor_step}
use nexus_am_ame.Base.Tests.{◌==◌, if◌then◌else◌}

abbrev pub bit_at : ℕ → ℕ → ℕ
bit_at x zero = x % 2
bit_at x (suc i) = bit_at (x / 2) i

pub bit_at-bit_and : (i x y : ℕ) → bit_at (bit_and x y) i ≡ min (bit_at x i) (bit_at y i)
bit_at-bit_and zero x y = omega (arith, bit_and_step x y)
bit_at-bit_and (suc i) x y =
    let half : bit_and x y / 2 ≡ bit_and (x / 2) (y / 2) = omega (arith, bit_and_step x y) in
    ap (λ t. bit_at t i) half ∙ bit_at-bit_and i (x / 2) (y / 2)

pub bit_at-bit_or : (i x y : ℕ) → bit_at (bit_or x y) i ≡ max (bit_at x i) (bit_at y i)
bit_at-bit_or zero x y = omega (arith, bit_or_step x y)
bit_at-bit_or (suc i) x y =
    let half : bit_or x y / 2 ≡ bit_or (x / 2) (y / 2) = omega (arith, bit_or_step x y) in
    ap (λ t. bit_at t i) half ∙ bit_at-bit_or i (x / 2) (y / 2)

pub bit_at-bit_xor : (i x y : ℕ) → bit_at (bit_xor x y) i ≡ (bit_at x i + bit_at y i) % 2
bit_at-bit_xor zero x y = omega (arith, bit_xor_step x y)
bit_at-bit_xor (suc i) x y =
    let half : bit_xor x y / 2 ≡ bit_xor (x / 2) (y / 2) = omega (arith, bit_xor_step x y) in
    ap (λ t. bit_at t i) half ∙ bit_at-bit_xor i (x / 2) (y / 2)

pub bit_at-lt : (i x : ℕ) → bit_at x i < 2
bit_at-lt zero x = omega arith
bit_at-lt (suc i) x = bit_at-lt i (x / 2)

half_mod : (x w : ℕ) → x % 2 ^ suc w / 2 ≡ x / 2 % 2 ^ w
half_mod x w =
    let p : ℕ = 2 ^ w in
    let q : ℕ = x / 2 ^ suc w in
    let r : ℕ = x % 2 ^ suc w in
    let parts : x ≡ 2 * (p * q) + r =
      omega (arith, div-add-mod x (2 ^ suc w), pow-suc 2 w, ap (λ (t : ℕ). t * q) (pow-suc 2 w)) in
    let halved : x / 2 ≡ r / 2 + p * q = omega arith in
    let small : r / 2 < p = omega (
      arith,
      pow-suc 2 w,
      one-le-pow w 2 (omega arith),
      mod-lt x (one-le-pow (suc w) 2 (omega arith)),
    ) in
    sym (ap (λ t. t % p) halved ∙ add-mul-mod_self_left (r / 2) p q ∙ mod-eq_of_lt small)

even_mod : (x w : ℕ) → x % 2 ^ suc w % 2 ≡ x % 2
even_mod x w =
    let q : ℕ = x / 2 ^ suc w in
    omega (arith, div-add-mod x (2 ^ suc w), pow-suc 2 w, ap (λ (t : ℕ). t * q) (pow-suc 2 w))

-- The bits below the width of a word are kept when the word is cut off.
pub bit_at-mod : (i w x : ℕ) → i < w → bit_at (x % 2 ^ w) i ≡ bit_at x i
bit_at-mod i zero x h = elim h [ ]
bit_at-mod zero (suc w) x h = even_mod x w
bit_at-mod (suc i) (suc w) x h =
    ap (λ t. bit_at t i) (half_mod x w) ∙ bit_at-mod i w (x / 2) (omega arith)

bit_at-zero : (i : ℕ) → bit_at 0 i ≡ 0
bit_at-zero zero = refl
bit_at-zero (suc i) = bit_at-zero i

pub bit_at-two_pow : (i k : ℕ) → bit_at (2 ^ k) i ≡ (if i == k then 1 else 0)
bit_at-two_pow zero zero = refl
bit_at-two_pow zero (suc k) = ground (arith, pow-suc 2 k)
bit_at-two_pow (suc i) zero = bit_at-zero i ∙ ground arith
bit_at-two_pow (suc i) (suc k) =
    let half : 2 ^ suc k / 2 ≡ 2 ^ k = omega (arith, pow-suc 2 k) in
    ap (λ t. bit_at t i) half ∙ bit_at-two_pow i k ∙ ground arith
