-- ===== src/Cputest/Programs/Fact.antt =====
-- fact.c of tests/cputest/tests.
use nexus_am_ame.Base.{
  ℕ, zero, suc, ◌*◌, ◌%◌, ◌^◌, ◌==◌, Option, some, guard, holds_upto, List, [], ◌∷◌, get_or,
}

abbrev pub ans : List ℕ
ans =
    1 ∷ 1 ∷ 2 ∷ 6 ∷ 24 ∷ 120 ∷ 720 ∷ 5040 ∷ 0x9d80 ∷ 0x58980 ∷ 0x375f00 ∷ 0x2611500 ∷ 0x1c8cfc00
    ∷ []

unfoldable pub fact : ℕ → ℕ
fact zero = 1
fact (suc zero) = 1
fact (suc (suc n)) = fact (suc n) * suc (suc n) % 2 ^ 32

-- Each entry of `f` is read right after it is written.
unfoldable pub main : Option ℕ
main = guard (holds_upto (λ i. fact i == get_or ans i 0) 13) (some 0)
