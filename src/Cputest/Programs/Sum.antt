-- ===== src/Cputest/Programs/Sum.antt =====
-- sum.c of tests/cputest/tests.
use nexus_am_ame.Base.{ℕ, zero, suc, ◌+◌, ◌==◌, Option, some, guard}

-- The loop, with `left` = 101 - i.
unfoldable pub sum_from : ℕ → ℕ → ℕ → ℕ
sum_from zero i sum = sum
sum_from (suc left) i sum = sum_from left (i + 1) (sum + i)

unfoldable pub main : Option ℕ
main = guard (sum_from 100 1 0 == 5050) (some 0)
