-- ===== src/Cputest/Programs/Max.antt =====
-- max.c of tests/cputest/tests.
use nexus_am_ame.Base.{ℕ, if◌then◌else◌, Option, some, guard, List, [], ◌∷◌}
use nexus_am_ame.Words.{int_less, same, each_pair}

unfoldable pub max : ℕ → ℕ → ℕ
max a b = if int_less b a then a else b

abbrev pub test_data : List ℕ
test_data = 0 ∷ 1 ∷ 2 ∷ 0x7fffffff ∷ 0x80000000 ∷ 0x80000001 ∷ 0xfffffffe ∷ 0xffffffff ∷ []

abbrev pub ans : List ℕ
ans =
    0 ∷ 1 ∷ 2 ∷ 0x7fffffff ∷ 0 ∷ 0 ∷ 0 ∷ 0 ∷ 1 ∷ 1 ∷ 2 ∷ 0x7fffffff ∷ 1 ∷ 1 ∷ 1 ∷ 1 ∷ 2 ∷ 2 ∷ 2
    ∷ 0x7fffffff ∷ 2 ∷ 2 ∷ 2 ∷ 2 ∷ 0x7fffffff ∷ 0x7fffffff ∷ 0x7fffffff ∷ 0x7fffffff ∷ 0x7fffffff
    ∷ 0x7fffffff ∷ 0x7fffffff ∷ 0x7fffffff ∷ 0 ∷ 1 ∷ 2 ∷ 0x7fffffff ∷ 0x80000000 ∷ 0x80000001
    ∷ 0xfffffffe ∷ 0xffffffff ∷ 0 ∷ 1 ∷ 2 ∷ 0x7fffffff ∷ 0x80000001 ∷ 0x80000001 ∷ 0xfffffffe
    ∷ 0xffffffff ∷ 0 ∷ 1 ∷ 2 ∷ 0x7fffffff ∷ 0xfffffffe ∷ 0xfffffffe ∷ 0xfffffffe ∷ 0xffffffff ∷ 0
    ∷ 1 ∷ 2 ∷ 0x7fffffff ∷ 0xffffffff ∷ 0xffffffff ∷ 0xffffffff ∷ 0xffffffff ∷ []

unfoldable pub main : Option ℕ
main = guard (same (each_pair max test_data test_data) ans) (some 0)
