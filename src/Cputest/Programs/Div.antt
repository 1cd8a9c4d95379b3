-- ===== src/Cputest/Programs/Div.antt =====
-- div.c of tests/cputest/tests.
use nexus_am_ame.Base.{ℕ, zero, suc, ◌+◌, ◌*◌, ◌/◌, ◌%◌, ◌^◌, ◌==◌, Option, some, guard, holds_upto}

-- What the loops over `j` make of one entry of `a`.
unfoldable pub multiply_from : ℕ → ℕ → ℕ → ℕ
multiply_from zero j x = x
multiply_from (suc left) j x = multiply_from left (j + 1) (x * j % 2 ^ 32)

unfoldable pub divide_from : ℕ → ℕ → ℕ → ℕ
divide_from zero j x = x
divide_from (suc left) j x = divide_from left (j + 1) (x / j)

unfoldable pub main : Option ℕ
main = guard (holds_upto (λ i. divide_from 10 1 (multiply_from 10 1 i) == i) 10) (some 0)
