-- ===== src/Cputest/Programs/MovC.antt =====
-- mov-c.c of tests/cputest/tests.
use nexus_am_ame.Base.{ℕ, ◌&&◌, ◌==◌, Option, some, guard, List, [], ◌∷◌, get_or, set}

-- `A` and `b` as the assignments leave them.
unfoldable pub filled : List ℕ × ℕ
filled =
    let A =
      set (set (set (set (set (0 ∷ 0 ∷ 0 ∷ 0 ∷ 0 ∷ 0 ∷ 0 ∷ 0 ∷ 0 ∷ 0 ∷ []) 0 0) 1 1) 2 2) 3 3) 4
        4 in
    let b = get_or A 3 0 in (set A 5 b, b)

unfoldable pub main : Option ℕ
main =
    let A = filled.0 in
    guard
      ((get_or A 0 0 == 0)
        && (get_or A 1 0 == 1)
        && (get_or A 2 0 == 2)
        && (get_or A 3 0 == 3)
        && (get_or A 4 0 == 4)
        && (filled.1 == 3)
        && (get_or A 5 0 == 3))
      (some 0)
