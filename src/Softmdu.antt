-- ===== src/Softmdu.antt =====
-- Multiplication and division by shifts, `mul` and `div` of am/src/noop/isa/riscv/instr.c. Here
-- they have the names softmul and softdiv of their copies in tests/softmdutest/main.c, which
-- checks them against the processor's. A word of 32 bits is its number, and a double word (R64)
-- the number of its 64 bits.
pub mod Division
pub mod Booth
pub mod Product
pub mod Check
pub mod Zero
pub mod Instr
mod Tests
use nexus_am_ame.Base.{
  ℕ, zero, suc, ◌+◌, ◌-◌, ◌*◌, ◌/◌, ◌%◌, ◌^◌, Bool, true, false, not, ◌&&◌, ◌||◌, leb, ◌==◌,
  if◌then◌else◌,
}

-- `(int32_t)a < 0`
abbrev pub is_negative : ℕ → Bool
is_negative a = leb (2 ^ 31) a

abbrev pub negate : ℕ → ℕ
negate a = (2 ^ 32 - a) % 2 ^ 32

abbrev pub differ : Bool → Bool → Bool
differ a b = (a && not b) || (not a && b)

abbrev pub hi : ℕ → ℕ
hi val = val / 2 ^ 32

abbrev pub lo : ℕ → ℕ
lo val = val % 2 ^ 32

-- A double word with one half replaced.
abbrev pub set_hi : ℕ → ℕ → ℕ
set_hi h val = h * 2 ^ 32 + lo val

abbrev pub set_lo : ℕ → ℕ → ℕ
set_lo l val = hi val * 2 ^ 32 + l

-- `R.hi -= b`
abbrev pub sub_hi : ℕ → ℕ → ℕ
sub_hi b val = set_hi ((hi val + 2 ^ 32 - b) % 2 ^ 32) val

-- The body of the loop of softdiv.
abbrev pub div_round : ℕ → ℕ → ℕ
div_round b val =
    if leb b (hi val) then (sub_hi b val * 2 % 2 ^ 64 + 1) % 2 ^ 64 else val * 2 % 2 ^ 64

-- The loop, with `n` rounds to go.
unfoldable pub div_rounds : ℕ → ℕ → ℕ → ℕ
div_rounds zero b val = val
div_rounds (suc n) b val = div_rounds n b (div_round b val)

-- The last bit of the quotient.
abbrev pub div_last : ℕ → ℕ → ℕ
div_last b val =
    let shifted = set_lo (lo val * 2 % 2 ^ 32) val in
    if leb b (hi shifted)
    then (let rest = sub_hi b shifted in set_lo ((lo rest + 1) % 2 ^ 32) rest)
    else shifted

-- The signs of the quotient and of the remainder.
unfoldable pub apply_signs : Bool → Bool → ℕ → ℕ
apply_signs sign_a sign_b r =
    let r' = if differ sign_a sign_b then set_lo (negate (lo r)) r else r in
    if sign_a then set_hi (negate (hi r')) r' else r'

unfoldable pub softdiv : ℕ → ℕ → Bool → Bool → ℕ
softdiv a b sign reminder =
    let sign_a = sign && is_negative a in
    let sign_b = sign && is_negative b in
    let a' = if sign_a then negate a else a in
    let b' = if sign_b then negate b else b in
    let r = div_last b' (div_rounds 31 b' (a' * 2 % 2 ^ 64)) in
    let r' = apply_signs sign_a sign_b r in if reminder then hi r' else lo r'

-- `P.val >>= 1` on an int64_t.
abbrev pub shift_right : ℕ → ℕ
shift_right val = val / 2 + val / 2 ^ 63 * 2 ^ 63

-- The body of the loop of softmul: the double word and `choose`.
abbrev pub mul_round : ℕ → ℕ × ℕ → ℕ × ℕ
mul_round a (val, choose) =
    let added =
      if choose == 1
      then set_hi ((hi val + a) % 2 ^ 32) val
      else (if choose == 2 then sub_hi a val else val) in
    (shift_right added, lo added % 4)

unfoldable pub mul_rounds : ℕ → ℕ → ℕ × ℕ → ℕ × ℕ
mul_rounds zero a p = p
mul_rounds (suc n) a p = mul_rounds n a (mul_round a p)

-- After the test for the product of the two least numbers: `b` is not the least number, unless `a`
-- is it too.
unfoldable pub booth : ℕ → ℕ → Bool → ℕ
booth a b sign =
    let sign_a = sign && is_negative a in
    let sign_b = sign && is_negative b in
    let a' = if sign_a then negate a else a in
    let b' = if sign_b then negate b else b in
    let p = (mul_rounds 32 a' (b', b' % 2 * 2)).0 in
    if differ sign_a sign_b then (2 ^ 64 - p) % 2 ^ 64 else p

unfoldable pub softmul : ℕ → ℕ → Bool → Bool → ℕ
softmul a b sign high =
    let p =
      if (a == 2 ^ 31) && (b == 2 ^ 31)
      then 0x4000_0000_0000_0000
      else (if b == 2 ^ 31 then booth b a sign else booth a b sign) in
    if high then hi p else lo p
