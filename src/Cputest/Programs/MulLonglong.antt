-- ===== src/Cputest/Programs/MulLonglong.antt =====
-- mul-longlong.c of tests/cputest/tests.
use nexus_am_ame.Base.{ℕ, ◌*◌, ◌%◌, ◌^◌, Option, some, guard, List, [], ◌∷◌, ◌++◌}
use nexus_am_ame.Words.{same, each_pair}

unfoldable pub mul : ℕ → ℕ → ℕ
mul a b = a * b % 2 ^ 64

-- The `int` values, widened to `long long`.
abbrev pub test_data : List ℕ
test_data = 0xffffffffaeb1c2aa ∷ 0x4500ff2b ∷ 0xffffffff877190af ∷ 0x11f42438 ∷ []

abbrev pub ans : List ℕ
ans =
    0x19d29ab9db1a18e4 ∷ 0xea15986d3ac3088e ∷ 0x2649e980fc0db236 ∷ 0xfa4c43da0a4a7d30
    ∷ 0x1299898e2c56b139 ∷ 0xdf8123d50a319e65 ∷ 0x4d6dfa84c15dd68 ∷ 0x38c5d79b9e4357a1
    ∷ 0xf78b91cb1efc4248 ∷ 0x14255a47fdfcc40 ∷ []

-- The products of each entry with itself and with those after it.
abbrev results : List ℕ → List ℕ
results [] = []
results (x ∷ xs) = each_pair mul (x ∷ []) (x ∷ xs) ++ results xs

unfoldable pub main : Option ℕ
main = guard (same (results test_data) ans) (some 0)
