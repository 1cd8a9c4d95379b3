-- ===== src/Cputest/Programs/Prime.antt =====
-- prime.c of tests/cputest/tests.
use nexus_am_ame.Base.{
  ℕ, zero, suc, ◌+◌, ◌-◌, ◌%◌, Bool, true, false, not, ◌||◌, ◌==◌, if◌then◌else◌, Option, some,
  ◌>>=◌, guard, List, [], ◌∷◌, get_or,
}

abbrev pub ans : List ℕ
ans = 101 ∷ 103 ∷ 107 ∷ 109 ∷ 113 ∷ 127 ∷ 131 ∷ 137 ∷ 139 ∷ 149 ∷ []

-- The inner loop from `i` on, with `left` = m - i: `prime` and `i` at its end.
unfoldable pub trial : ℕ → ℕ → ℕ → Bool × ℕ
trial zero i m = (true, i)
trial (suc left) i m = let rest = trial left (i + 1) m in if m % i == 0 then (false, i) else rest

-- The outer loop: `n` at its end.
unfoldable pub search : ℕ → ℕ → ℕ → Option ℕ
search zero m n = some n
search (suc left) m n =
    let found = trial (m - 2) 2 m in
    guard (not found.0 || (found.1 == get_or ans n 0))
      (search left (m + 2) (if found.0 then n + 1 else n))

unfoldable pub main : Option ℕ
main = search 25 101 0 >>= λ n. guard (n == 10) (some 0)
