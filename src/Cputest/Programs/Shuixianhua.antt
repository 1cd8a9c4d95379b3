-- ===== src/Cputest/Programs/Shuixianhua.antt =====
-- shuixianhua.c of tests/cputest/tests.
use nexus_am_ame.Base.{
  ℕ, zero, suc, ◌+◌, ◌*◌, ◌/◌, ◌%◌, not, ◌||◌, ◌==◌, if◌then◌else◌, Option, some, ◌>>=◌, guard,
  List, [], ◌∷◌, get_or,
}

abbrev pub ans : List ℕ
ans = 153 ∷ 370 ∷ 371 ∷ 407 ∷ []

unfoldable pub cube : ℕ → ℕ
cube n = n * n * n

-- The loop: `k` at its end.
unfoldable pub search : ℕ → ℕ → ℕ → Option ℕ
search zero n k = some k
search (suc left) n k =
    let n2 = n / 100 in
    let n1 = n / 10 % 10 in
    let n0 = n % 10 in
    let found = n == cube n2 + cube n1 + cube n0 in
    guard (not found || (n == get_or ans k 0)) (search left (n + 1) (if found then k + 1 else k))

unfoldable pub main : Option ℕ
main = search 400 100 0 >>= λ k. guard (k == 4) (some 0)
