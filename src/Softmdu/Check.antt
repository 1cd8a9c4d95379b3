-- ===== src/Softmdu/Check.antt =====
-- The checks of tests/softmdutest/main.c and its main: what the C operators give is written out.
use nexus_am_ame.Base.{
  ℕ, ◌+◌, ◌-◌, ◌*◌, ◌/◌, ◌%◌, ◌^◌, Bool, true, false, ◌&&◌, ◌==◌, if◌then◌else◌, List, [], ◌∷◌,
}
use nexus_am_ame.Softmdu.Product.{int_size, int_product}
use nexus_am_ame.Softmdu.{is_negative, negate, differ, softmul, softdiv}

-- `x / y` and `x % y` on int.
abbrev quotient : ℕ → ℕ → ℕ
quotient x y =
    let q = int_size x / int_size y in
    if differ (is_negative x) (is_negative y) then negate q else q

abbrev remainder : ℕ → ℕ → ℕ
remainder x y = let r = int_size x % int_size y in if is_negative x then negate r else r

unfoldable pub check_mul : ℕ → ℕ → Bool
check_mul x y =
    let low = softmul x y true false in
    let high = softmul x y true true in high * 2 ^ 32 + low == int_product x y

unfoldable pub check_div : ℕ → ℕ → Bool
check_div x y =
    if (x == 2 ^ 31) && (y == 2 ^ 32 - 1)
    then true
    else ((softdiv x y true false == quotient x y) && (softdiv x y true true == remainder x y))

unfoldable pub check_divu : ℕ → ℕ → Bool
check_divu x y = (softdiv x y false false == x / y) && (softdiv x y false true == x % y)

abbrev pub test_values : List ℕ
test_values =
    0 ∷ 1 ∷ 2 ∷ 3 ∷ 0x7fff_ffff ∷ 0x8000_0000 ∷ 0x8000_0001 ∷ 0xffff_fffd ∷ 0xffff_fffe
    ∷ 0xffff_ffff ∷ []

abbrev all_of : (ℕ → Bool) → List ℕ → Bool
all_of test [] = true
all_of test (x ∷ xs) = test x && all_of test xs

-- The second loop leaves out the 0.
unfoldable pub main : Bool
main =
    all_of
      (λ x.
        all_of (λ y. check_mul x y && check_div x y && check_divu x y)
          (1 ∷ 2 ∷ 3 ∷ 0x7fff_ffff ∷ 0x8000_0000 ∷ 0x8000_0001 ∷ 0xffff_fffd ∷ 0xffff_fffe
            ∷ 0xffff_ffff ∷ []))
      test_values
