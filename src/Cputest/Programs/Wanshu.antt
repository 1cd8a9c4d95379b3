-- ===== src/Cputest/Programs/Wanshu.antt =====
-- wanshu.c of tests/cputest/tests.
use nexus_am_ame.Base.{
  ℕ, zero, suc, ◌+◌, ◌-◌, ◌%◌, not, ◌||◌, ◌==◌, if◌then◌else◌, Option, some, ◌>>=◌, guard, List, [],
  ◌∷◌, get_or,
}

abbrev pub ans : List ℕ
ans = 6 ∷ 28 ∷ []

-- The inner loop from `i` on, with `left` = n - i.
unfoldable pub sum_divisors : ℕ → ℕ → ℕ → ℕ → ℕ
sum_divisors zero i n sum = sum
sum_divisors (suc left) i n sum = sum_divisors left (i + 1) n (if n % i == 0 then sum + i else sum)

-- The outer loop: `k` at its end.
unfoldable pub search : ℕ → ℕ → ℕ → Option ℕ
search zero n k = some k
search (suc left) n k =
    let perfect = sum_divisors (n - 1) 1 n 0 == n in
    guard (not perfect || (n == get_or ans k 0))
      (search left (n + 1) (if perfect then k + 1 else k))

unfoldable pub main : Option ℕ
main = search 29 1 0 >>= λ k. guard (k == 2) (some 0)
