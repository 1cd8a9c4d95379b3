-- ===== src/Cputest/Programs/AddLonglong.antt =====
-- add-longlong.c of tests/cputest/tests.
use nexus_am_ame.Base.{ℕ, ◌+◌, ◌%◌, ◌^◌, Option, some, guard, List, [], ◌∷◌}
use nexus_am_ame.Words.{same, each_pair}

unfoldable pub add : ℕ → ℕ → ℕ
add a b = (a + b) % 2 ^ 64

abbrev pub test_data : List ℕ
test_data =
    0 ∷ 1 ∷ 2 ∷ 0x7fffffffffffffff ∷ 0x8000000000000000 ∷ 0x8000000000000001 ∷ 0xfffffffffffffffe
    ∷ 0xffffffffffffffff ∷ []

abbrev pub ans : List ℕ
ans =
    0 ∷ 1 ∷ 2 ∷ 0x7fffffffffffffff ∷ 0x8000000000000000 ∷ 0x8000000000000001 ∷ 0xfffffffffffffffe
    ∷ 0xffffffffffffffff ∷ 1 ∷ 2 ∷ 3 ∷ 0x8000000000000000 ∷ 0x8000000000000001 ∷ 0x8000000000000002
    ∷ 0xffffffffffffffff ∷ 0 ∷ 2 ∷ 3 ∷ 4 ∷ 0x8000000000000001 ∷ 0x8000000000000002
    ∷ 0x8000000000000003 ∷ 0 ∷ 1 ∷ 0x7fffffffffffffff ∷ 0x8000000000000000 ∷ 0x8000000000000001
    ∷ 0xfffffffffffffffe ∷ 0xffffffffffffffff ∷ 0 ∷ 0x7ffffffffffffffd ∷ 0x7ffffffffffffffe
    ∷ 0x8000000000000000 ∷ 0x8000000000000001 ∷ 0x8000000000000002 ∷ 0xffffffffffffffff ∷ 0 ∷ 1
    ∷ 0x7ffffffffffffffe ∷ 0x7fffffffffffffff ∷ 0x8000000000000001 ∷ 0x8000000000000002
    ∷ 0x8000000000000003 ∷ 0 ∷ 1 ∷ 2 ∷ 0x7fffffffffffffff ∷ 0x8000000000000000 ∷ 0xfffffffffffffffe
    ∷ 0xffffffffffffffff ∷ 0 ∷ 0x7ffffffffffffffd ∷ 0x7ffffffffffffffe ∷ 0x7fffffffffffffff
    ∷ 0xfffffffffffffffc ∷ 0xfffffffffffffffd ∷ 0xffffffffffffffff ∷ 0 ∷ 1 ∷ 0x7ffffffffffffffe
    ∷ 0x7fffffffffffffff ∷ 0x8000000000000000 ∷ 0xfffffffffffffffd ∷ 0xfffffffffffffffe ∷ []

unfoldable pub main : Option ℕ
main = guard (same (each_pair add test_data test_data) ans) (some 0)
