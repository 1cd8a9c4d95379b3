-- ===== src/Cputest/Programs/Unalign.antt =====
-- unalign.c of tests/cputest/tests.
use nexus_am_ame.Base.{ℕ, zero, suc, ◌==◌, Option, some, guard, List, [], ◌∷◌, set}
use nexus_am_ame.Words.{load, store}

abbrev pub buf : List ℕ
buf = 0 ∷ 0 ∷ 0 ∷ 0 ∷ 0 ∷ 0 ∷ 0 ∷ 0 ∷ 0 ∷ 0 ∷ 0 ∷ 0 ∷ 0 ∷ 0 ∷ 0 ∷ 0 ∷ []

-- The loop, with `left` rounds to go.
unfoldable pub rounds : ℕ → List ℕ → Option ℕ
rounds zero bytes = some 0
rounds (suc left) bytes =
    let written = store 4 bytes 3 0xaabbccdd in
    guard (load 4 written 3 == 0xaabbccdd) (rounds left (set (set written 1 0) 0 0))

unfoldable pub main : Option ℕ
main = rounds 4 buf
