-- ===== src/Cputest/Programs/Shift.antt =====
-- shift.c of tests/cputest/tests.
use nexus_am_ame.Base.{
  ℕ, ◌+◌, ◌/◌, ◌^◌, ◌==◌, Option, some, guard, holds_upto, List, [], ◌∷◌, get_or,
}
use nexus_am_ame.Words.{arith_shift}

abbrev pub test : List ℕ
test = 0x12345678 ∷ 0x98765432 ∷ 0 ∷ 0xeffa1000 ∷ 0x7fffffff ∷ 0x80000000 ∷ 51 ∷ 0xffffffff ∷ []

abbrev pub srl_ans : List ℕ
srl_ans = 0x2468ac ∷ 0x130eca8 ∷ 0 ∷ 0x1dff420 ∷ 0xffffff ∷ 0x1000000 ∷ 0 ∷ 0x1ffffff ∷ []

abbrev pub srlv_ans : List ℕ
srlv_ans = 0x1234567 ∷ 0x4c3b2a1 ∷ 0 ∷ 0x1dff420 ∷ 0x7fffff ∷ 0x400000 ∷ 0 ∷ 0x1fffff ∷ []

abbrev pub srav_ans : List ℕ
srav_ans = 0x1234567 ∷ 0xfcc3b2a1 ∷ 0 ∷ 0xffdff420 ∷ 0x7fffff ∷ 0xffc00000 ∷ 0 ∷ 0xffffffff ∷ []

unfoldable pub main : Option ℕ
main = guard (holds_upto (λ i. get_or test i 0 / 2 ^ 7 == get_or srl_ans i 0) 8) (
    guard (holds_upto (λ i. arith_shift (get_or test i 0) (i + 4) == get_or srav_ans i 0) 8)
      (guard (holds_upto (λ i. get_or test i 0 / 2 ^ (i + 4) == get_or srlv_ans i 0) 8) (some 0)))
