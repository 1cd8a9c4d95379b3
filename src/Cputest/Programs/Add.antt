-- ===== src/Cputest/Programs/Add.antt =====
-- add.c of tests/cputest/tests.
use nexus_am_ame.Base.{ℕ, ◌+◌, ◌%◌, ◌^◌, Option, some, guard, List, [], ◌∷◌}
use nexus_am_ame.Words.{same, each_pair}

unfoldable pub add : ℕ → ℕ → ℕ
add a b = (a + b) % 2 ^ 32

abbrev pub test_data : List ℕ
test_data = 0 ∷ 1 ∷ 2 ∷ 0x7fffffff ∷ 0x80000000 ∷ 0x80000001 ∷ 0xfffffffe ∷ 0xffffffff ∷ []

abbrev pub ans : List ℕ
ans =
    0 ∷ 1 ∷ 2 ∷ 0x7fffffff ∷ 0x80000000 ∷ 0x80000001 ∷ 0xfffffffe ∷ 0xffffffff ∷ 1 ∷ 2 ∷ 3
    ∷ 0x80000000 ∷ 0x80000001 ∷ 0x80000002 ∷ 0xffffffff ∷ 0 ∷ 2 ∷ 3 ∷ 4 ∷ 0x80000001 ∷ 0x80000002
    ∷ 0x80000003 ∷ 0 ∷ 1 ∷ 0x7fffffff ∷ 0x80000000 ∷ 0x80000001 ∷ 0xfffffffe ∷ 0xffffffff ∷ 0
    ∷ 0x7ffffffd ∷ 0x7ffffffe ∷ 0x80000000 ∷ 0x80000001 ∷ 0x80000002 ∷ 0xffffffff ∷ 0 ∷ 1
    ∷ 0x7ffffffe ∷ 0x7fffffff ∷ 0x80000001 ∷ 0x80000002 ∷ 0x80000003 ∷ 0 ∷ 1 ∷ 2 ∷ 0x7fffffff
    ∷ 0x80000000 ∷ 0xfffffffe ∷ 0xffffffff ∷ 0 ∷ 0x7ffffffd ∷ 0x7ffffffe ∷ 0x7fffffff ∷ 0xfffffffc
    ∷ 0xfffffffd ∷ 0xffffffff ∷ 0 ∷ 1 ∷ 0x7ffffffe ∷ 0x7fffffff ∷ 0x80000000 ∷ 0xfffffffd
    ∷ 0xfffffffe ∷ []

unfoldable pub main : Option ℕ
main = guard (same (each_pair add test_data test_data) ans) (some 0)
