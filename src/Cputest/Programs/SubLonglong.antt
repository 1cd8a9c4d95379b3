-- ===== src/Cputest/Programs/SubLonglong.antt =====
-- sub-longlong.c of tests/cputest/tests.
use nexus_am_ame.Base.{ℕ, ◌+◌, ◌-◌, ◌%◌, ◌^◌, Option, some, guard, List, [], ◌∷◌}
use nexus_am_ame.Words.{same, each_pair}

unfoldable pub sub : ℕ → ℕ → ℕ
sub a b = (a + 2 ^ 64 - b) % 2 ^ 64

abbrev pub test_data : List ℕ
test_data =
    0 ∷ 1 ∷ 2 ∷ 0x7fffffffffffffff ∷ 0x8000000000000000 ∷ 0x8000000000000001 ∷ 0xfffffffffffffffe
    ∷ 0xffffffffffffffff ∷ []

abbrev pub ans : List ℕ
ans =
    0 ∷ 0xffffffffffffffff ∷ 0xfffffffffffffffe ∷ 0x8000000000000001 ∷ 0x8000000000000000
    ∷ 0x7fffffffffffffff ∷ 2 ∷ 1 ∷ 1 ∷ 0 ∷ 0xffffffffffffffff ∷ 0x8000000000000002
    ∷ 0x8000000000000001 ∷ 0x8000000000000000 ∷ 3 ∷ 2 ∷ 2 ∷ 1 ∷ 0 ∷ 0x8000000000000003
    ∷ 0x8000000000000002 ∷ 0x8000000000000001 ∷ 4 ∷ 3 ∷ 0x7fffffffffffffff ∷ 0x7ffffffffffffffe
    ∷ 0x7ffffffffffffffd ∷ 0 ∷ 0xffffffffffffffff ∷ 0xfffffffffffffffe ∷ 0x8000000000000001
    ∷ 0x8000000000000000 ∷ 0x8000000000000000 ∷ 0x7fffffffffffffff ∷ 0x7ffffffffffffffe ∷ 1 ∷ 0
    ∷ 0xffffffffffffffff ∷ 0x8000000000000002 ∷ 0x8000000000000001 ∷ 0x8000000000000001
    ∷ 0x8000000000000000 ∷ 0x7fffffffffffffff ∷ 2 ∷ 1 ∷ 0 ∷ 0x8000000000000003 ∷ 0x8000000000000002
    ∷ 0xfffffffffffffffe ∷ 0xfffffffffffffffd ∷ 0xfffffffffffffffc ∷ 0x7fffffffffffffff
    ∷ 0x7ffffffffffffffe ∷ 0x7ffffffffffffffd ∷ 0 ∷ 0xffffffffffffffff ∷ 0xffffffffffffffff
    ∷ 0xfffffffffffffffe ∷ 0xfffffffffffffffd ∷ 0x8000000000000000 ∷ 0x7fffffffffffffff
    ∷ 0x7ffffffffffffffe ∷ 1 ∷ 0 ∷ []

unfoldable pub main : Option ℕ
main = guard (same (each_pair sub test_data test_data) ans) (some 0)
