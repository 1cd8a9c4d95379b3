-- ===== src/Cputest/Programs/IfElse.antt =====
-- if-else.c of tests/cputest/tests.
use nexus_am_ame.Base.{
  ℕ, ◌==◌, if◌then◌else◌, Option, some, guard, holds_upto, List, [], ◌∷◌, get_or,
}
use nexus_am_ame.Words.{int_less}

unfoldable pub if_else : ℕ → ℕ
if_else n =
    if int_less 500 n
    then 150
    else (if int_less 300 n
        then 100
        else (if int_less 100 n then 75 else (if int_less 50 n then 50 else 0)))

abbrev pub test_data : List ℕ
test_data = 0xffffffff ∷ 0 ∷ 49 ∷ 50 ∷ 51 ∷ 99 ∷ 100 ∷ 101 ∷ 299 ∷ 300 ∷ 301 ∷ 499 ∷ 500 ∷ 501 ∷ []

abbrev pub ans : List ℕ
ans = 0 ∷ 0 ∷ 0 ∷ 0 ∷ 50 ∷ 50 ∷ 50 ∷ 75 ∷ 75 ∷ 75 ∷ 100 ∷ 100 ∷ 100 ∷ 150 ∷ []

unfoldable pub main : Option ℕ
main = guard (holds_upto (λ i. if_else (get_or test_data i 0) == get_or ans i 0) 14) (some 0)
