-- ===== src/Cputest/Programs/Movsx.antt =====
-- movsx.c of tests/cputest/tests.
use nexus_am_ame.Base.{ℕ, ◌&&◌, ◌==◌, Option, some, guard, [], ◌∷◌, get_or, set}
use nexus_am_ame.Words.{extend}

-- Chars are signed here; `extend 8` is the value of one as an int.
unfoldable pub main : Option ℕ
main =
    let A =
      set (set (set (set (set (0 ∷ 0 ∷ 0 ∷ 0 ∷ 0 ∷ 0 ∷ 0 ∷ 0 ∷ 0 ∷ 0 ∷ []) 0 0) 1 1) 2 2) 3 3) 4
        4 in
    let b = get_or A 3 0 in
    let A5 = set A 5 b in
    let C0 = set (0 ∷ 0 ∷ 0 ∷ 0 ∷ 0 ∷ 0 ∷ 0 ∷ 0 ∷ 0 ∷ 0 ∷ []) 0 97 in
    let C1 = set C0 1 (get_or C0 0 0) in
    let A0 = set A5 0 (extend 8 (get_or C1 0 0)) in
    let C2 = set C1 1 0x80 in
    let A1 = set A0 0 (extend 8 (get_or C2 1 0)) in
    guard (extend 8 (get_or C0 0 0) == 97) (
      guard (extend 8 (get_or C1 1 0) == 97) (
        guard (get_or A0 0 0 == 97) (
          guard
            ((get_or A1 1 0 == 1)
              && (get_or A1 2 0 == 2)
              && (get_or A1 3 0 == 3)
              && (get_or A1 4 0 == 4)
              && (b == 3)
              && (get_or A1 5 0 == 3)
              && (extend 8 (get_or C2 1 0) == 0xffffff80)
              && (get_or A1 0 0 == 0xffffff80))
            (some 0))))
