-- ===== src/Cputest/Programs/Switch.antt =====
-- switch.c of tests/cputest/tests.
use nexus_am_ame.Base.{
  ℕ, ◌+◌, ◌-◌, ◌%◌, ◌^◌, ◌||◌, ◌==◌, if◌then◌else◌, Option, some, guard, holds_upto, List, [], ◌∷◌,
  get_or,
}

unfoldable pub switch_case : ℕ → ℕ
switch_case n =
    if n == 0
    then 0
    else (if n == 1
        then 2
        else (if (n == 2) || (n == 3)
            then 5
            else (if (n == 4) || (n == 5) || (n == 6) || (n == 7)
                then 8
                else (if (n == 8) || (n == 9) || (n == 10) || (n == 11)
                    then 10
                    else (if n == 12 then 15 else 2 ^ 32 - 1)))))

abbrev pub ans : List ℕ
ans = 0xffffffff ∷ 0 ∷ 2 ∷ 5 ∷ 5 ∷ 8 ∷ 8 ∷ 8 ∷ 8 ∷ 10 ∷ 10 ∷ 10 ∷ 10 ∷ 15 ∷ 0xffffffff ∷ []

unfoldable pub main : Option ℕ
main =
    guard (holds_upto (λ i. switch_case ((i + 2 ^ 32 - 1) % 2 ^ 32) == get_or ans i 0) 15) (some 0)
