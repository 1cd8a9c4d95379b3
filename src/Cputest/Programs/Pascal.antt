-- ===== src/Cputest/Programs/Pascal.antt =====
-- pascal.c of tests/cputest/tests.
use nexus_am_ame.Base.{
  ℕ, zero, suc, ◌+◌, ◌-◌, ◌%◌, ◌^◌, Option, some, guard, List, [], ◌∷◌, get_or, set,
}
use nexus_am_ame.Words.{same}

abbrev pub ans : List ℕ
ans =
    1 ∷ 30 ∷ 435 ∷ 4060 ∷ 0x6b0d ∷ 0x22caa ∷ 0x90f6f ∷ 0x1f1058 ∷ 0x594efd ∷ 0xda4f4e ∷ 0x1ca7357
    ∷ 0x3418be4 ∷ 0x527c829 ∷ 0x72363ea ∷ 0x8aaf953 ∷ 0x93ee7d0 ∷ 0x8aaf953 ∷ 0x72363ea ∷ 0x527c829
    ∷ 0x3418be4 ∷ 0x1ca7357 ∷ 0xda4f4e ∷ 0x594efd ∷ 0x1f1058 ∷ 0x90f6f ∷ 0x22caa ∷ 0x6b0d ∷ 4060
    ∷ 435 ∷ 30 ∷ 1 ∷ []

-- The inner loop, with `left` rounds to go from `j` on.
unfoldable pub next_row : ℕ → ℕ → ℕ → List ℕ → List ℕ
next_row zero j t0 a = a
next_row (suc left) j t0 a =
    let t1 = get_or a j 0 in next_row left (j + 1) t1 (set a j ((t0 + t1) % 2 ^ 32))

-- The outer loop, from `i` on.
unfoldable pub rows : ℕ → ℕ → List ℕ → List ℕ
rows zero i a = a
rows (suc left) i a = rows left (i + 1) (set (next_row (i - 1) 1 1 a) i 1)

abbrev pub a : List ℕ
a =
    1 ∷ 1 ∷ 0 ∷ 0 ∷ 0 ∷ 0 ∷ 0 ∷ 0 ∷ 0 ∷ 0 ∷ 0 ∷ 0 ∷ 0 ∷ 0 ∷ 0 ∷ 0 ∷ 0 ∷ 0 ∷ 0 ∷ 0 ∷ 0 ∷ 0 ∷ 0 ∷ 0
    ∷ 0 ∷ 0 ∷ 0 ∷ 0 ∷ 0 ∷ 0 ∷ 0 ∷ []

unfoldable pub main : Option ℕ
main = guard (same (rows 29 2 a) ans) (some 0)
