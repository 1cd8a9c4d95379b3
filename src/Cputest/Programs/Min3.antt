-- ===== src/Cputest/Programs/Min3.antt =====
-- min3.c of tests/cputest/tests.
use nexus_am_ame.Base.{ℕ, if◌then◌else◌, Option, some, guard, List, [], ◌∷◌, ◌++◌}
use nexus_am_ame.Words.{int_less, same, each_pair}

unfoldable pub min3 : ℕ → ℕ → ℕ → ℕ
min3 x y z = let m = if int_less x y then x else y in if int_less z m then z else m

abbrev pub test_data : List ℕ
test_data = 0 ∷ 0x7fffffff ∷ 0x80000000 ∷ 0xffffffff ∷ []

abbrev pub ans : List ℕ
ans =
    0 ∷ 0 ∷ 0x80000000 ∷ 0xffffffff ∷ 0 ∷ 0 ∷ 0x80000000 ∷ 0xffffffff ∷ 0x80000000 ∷ 0x80000000
    ∷ 0x80000000 ∷ 0x80000000 ∷ 0xffffffff ∷ 0xffffffff ∷ 0x80000000 ∷ 0xffffffff ∷ 0 ∷ 0
    ∷ 0x80000000 ∷ 0xffffffff ∷ 0 ∷ 0x7fffffff ∷ 0x80000000 ∷ 0xffffffff ∷ 0x80000000 ∷ 0x80000000
    ∷ 0x80000000 ∷ 0x80000000 ∷ 0xffffffff ∷ 0xffffffff ∷ 0x80000000 ∷ 0xffffffff ∷ 0x80000000
    ∷ 0x80000000 ∷ 0x80000000 ∷ 0x80000000 ∷ 0x80000000 ∷ 0x80000000 ∷ 0x80000000 ∷ 0x80000000
    ∷ 0x80000000 ∷ 0x80000000 ∷ 0x80000000 ∷ 0x80000000 ∷ 0x80000000 ∷ 0x80000000 ∷ 0x80000000
    ∷ 0x80000000 ∷ 0xffffffff ∷ 0xffffffff ∷ 0x80000000 ∷ 0xffffffff ∷ 0xffffffff ∷ 0xffffffff
    ∷ 0x80000000 ∷ 0xffffffff ∷ 0x80000000 ∷ 0x80000000 ∷ 0x80000000 ∷ 0x80000000 ∷ 0xffffffff
    ∷ 0xffffffff ∷ 0x80000000 ∷ 0xffffffff ∷ []

abbrev results : List ℕ → List ℕ
results [] = []
results (x ∷ xs) = each_pair (min3 x) test_data test_data ++ results xs

unfoldable pub main : Option ℕ
main = guard (same (results test_data) ans) (some 0)
