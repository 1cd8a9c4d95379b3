-- ===== src/Cputest/Programs/MatrixMul.antt =====
-- matrix-mul.c of tests/cputest/tests.
use nexus_am_ame.Base.{
  ℕ, zero, suc, ◌+◌, ◌*◌, ◌%◌, ◌^◌, ◌==◌, Option, some, guard, holds_upto, List, [], ◌∷◌, get_or,
}

-- The matrices by rows, their entries as 32-bit words.
abbrev pub a : List ℕ
a =
    31 ∷ 0xffffffb7 ∷ 0xffffffbd ∷ 0xffffffe4 ∷ 87 ∷ 0xffffffef ∷ 0xfffffff1 ∷ 0xffffffdd
    ∷ 0xffffffcb ∷ 0xffffffca ∷ 52 ∷ 36 ∷ 9 ∷ 0xffffffa5 ∷ 0xffffffe5 ∷ 0xffffffb2 ∷ 42 ∷ 82 ∷ 19
    ∷ 0xfffffffa ∷ 41 ∷ 0xffffffc8 ∷ 31 ∷ 32 ∷ 0xffffffcc ∷ 74 ∷ 28 ∷ 20 ∷ 55 ∷ 0xffffffb8
    ∷ 0xffffffc5 ∷ 2 ∷ 0xffffffb1 ∷ 0xfffffff8 ∷ 44 ∷ 55 ∷ 0xffffffad ∷ 0xffffffa1 ∷ 0xffffffd3 ∷ 50
    ∷ 0xffffffa1 ∷ 61 ∷ 0xffffffc1 ∷ 62 ∷ 0xfffffff0 ∷ 52 ∷ 40 ∷ 92 ∷ 0xffffffe0 ∷ 0xffffffe6
    ∷ 0xffffff9d ∷ 52 ∷ 96 ∷ 63 ∷ 0xffffffb5 ∷ 0xffffffb6 ∷ 0xffffffae ∷ 82 ∷ 0xffffffa1 ∷ 42 ∷ 11
    ∷ 0xffffffea ∷ 27 ∷ 0xffffffe5 ∷ 0xffffffe5 ∷ 0xffffffb4 ∷ 0xffffffb9 ∷ 58 ∷ 0xffffffd8
    ∷ 0xffffffbf ∷ 91 ∷ 0xffffffcb ∷ 0xffffffbd ∷ 72 ∷ 36 ∷ 0xffffffb3 ∷ 0xfffffffd ∷ 93
    ∷ 0xffffffe8 ∷ 97 ∷ 0xffffffcc ∷ 0xfffffff5 ∷ 0xffffffb3 ∷ 0xffffffa3 ∷ 0xffffffa4 ∷ 0xffffffe8
    ∷ 70 ∷ 18 ∷ 56 ∷ 88 ∷ 0xffffffd5 ∷ 0xffffffd7 ∷ 0xffffffe6 ∷ 11 ∷ 0xffffffac ∷ 0xfffffff2
    ∷ 0xffffffd7 ∷ 83 ∷ 27 ∷ 0xfffffff5 ∷ []

abbrev pub b : List ℕ
b =
    0xffffffd0 ∷ 0xffffffba ∷ 0xffffffd8 ∷ 0xffffffae ∷ 0xffffffb6 ∷ 0xffffffc1 ∷ 0xffffffc5
    ∷ 0xffffffb8 ∷ 0xffffff9c ∷ 0xffffffb8 ∷ 5 ∷ 0xffffffac ∷ 28 ∷ 56 ∷ 60 ∷ 0xffffffdf ∷ 0xffffffd6
    ∷ 0xffffffce ∷ 0xffffffad ∷ 0xffffffad ∷ 0xfffffffb ∷ 5 ∷ 48 ∷ 75 ∷ 0xffffffb2 ∷ 0xfffffff7 ∷ 9
    ∷ 2 ∷ 88 ∷ 70 ∷ 69 ∷ 23 ∷ 66 ∷ 66 ∷ 0xfffffff5 ∷ 50 ∷ 67 ∷ 18 ∷ 0xffffffc6 ∷ 76 ∷ 30 ∷ 45 ∷ 32
    ∷ 25 ∷ 0xffffffb7 ∷ 57 ∷ 0xffffffbd ∷ 0xfffffff2 ∷ 53 ∷ 0xffffffdf ∷ 98 ∷ 0xffffffaa
    ∷ 0xffffffc1 ∷ 80 ∷ 0xffffffd3 ∷ 0xffffffa8 ∷ 80 ∷ 0xffffffc0 ∷ 58 ∷ 0xffffffac ∷ 0xffffffc9
    ∷ 0xffffffd9 ∷ 0xfffffff3 ∷ 0xffffffe5 ∷ 0xffffffdb ∷ 8 ∷ 0xffffffa0 ∷ 84 ∷ 0xffffffa7 ∷ 31
    ∷ 0xffffffae ∷ 58 ∷ 81 ∷ 0xffffffd7 ∷ 0xffffffc6 ∷ 36 ∷ 76 ∷ 0xffffffb1 ∷ 0xffffffe3 ∷ 23 ∷ 86
    ∷ 0xffffffd2 ∷ 16 ∷ 0xffffffee ∷ 81 ∷ 90 ∷ 35 ∷ 0xffffffa6 ∷ 43 ∷ 55 ∷ 0xffffffda ∷ 0xffffffed
    ∷ 0xffffffd8 ∷ 82 ∷ 0xffffffb4 ∷ 57 ∷ 0xffffffe3 ∷ 0xfffffffe ∷ 79 ∷ 0xffffffd0 ∷ []

abbrev pub ans : List ℕ
ans =
    0xfffffadb ∷ 0x288b ∷ 0xffffe943 ∷ 0xffffc80e ∷ 0xffffef16 ∷ 0xfffff3d6 ∷ 0xffffd92c ∷ 7033
    ∷ 0xfffff8a5 ∷ 0xffffe875 ∷ 0xffffa136 ∷ 0xfffffca3 ∷ 4044 ∷ 0xffffb290 ∷ 0xffffff21 ∷ 886
    ∷ 0xffffd12c ∷ 0xffffe6d6 ∷ 0xffffc9ea ∷ 0xfffffbe2 ∷ 9783 ∷ 0xffffe45f ∷ 0xfffffc6a
    ∷ 0xffffe8e9 ∷ 0xfffffc39 ∷ 0xffffe444 ∷ 0x390d ∷ 0xffffe27c ∷ 0xfffff291 ∷ 9607 ∷ 0x3e6c
    ∷ 0xfffffdf8 ∷ 0xffffcc0f ∷ 0x3ac3 ∷ 6185 ∷ 0xfffff1ba ∷ 1325 ∷ 4193 ∷ 0x421d ∷ 0xffffba9f
    ∷ 2566 ∷ 3187 ∷ 0x2808 ∷ 7925 ∷ 6318 ∷ 1421 ∷ 0x3938 ∷ 700 ∷ 0xffffd05f ∷ 1083 ∷ 0xffffcec5
    ∷ 0x4a3e ∷ 0x51d8 ∷ 0x48a7 ∷ 0xfffff9fd ∷ 5184 ∷ 0x4400 ∷ 6740 ∷ 6264 ∷ 0x3b0a ∷ 0xffffce55
    ∷ 0x3b11 ∷ 9963 ∷ 0xffffca6b ∷ 2411 ∷ 0xfffff76c ∷ 6147 ∷ 0xfffff95e ∷ 0xfffff2c3 ∷ 8200
    ∷ 0xffffb5c1 ∷ 0x3081 ∷ 5723 ∷ 0xffffd3d3 ∷ 0xffffb4d6 ∷ 0x3d7c ∷ 0xfffff131 ∷ 0xfffff093
    ∷ 0xffffccb6 ∷ 0xffffffeb ∷ 0xffffcef3 ∷ 0xffffe8ae ∷ 0xffffd2ce ∷ 0xffffdd37 ∷ 0x2fc3 ∷ 7814
    ∷ 0xffffec1a ∷ 4532 ∷ 1071 ∷ 0xfffffae3 ∷ 0xfffff475 ∷ 9381 ∷ 6372 ∷ 0xffffe50e ∷ 9117 ∷ 5753
    ∷ 0x512a ∷ 0xffffec4b ∷ 1047 ∷ 0x2f52 ∷ []

-- The inner loop, with `left` rounds to go from `k` on and `c` for `c[i][j]`.
unfoldable pub inner : List ℕ → List ℕ → ℕ → ℕ → ℕ → ℕ → ℕ → ℕ → ℕ
inner a b n i j zero k c = c
inner a b n i j (suc left) k c =
    inner a b n i j left (k + 1) ((c + get_or a (n * i + k) 0 * get_or b (n * k + j) 0) % 2 ^ 32)

unfoldable pub main : Option ℕ
main =
    guard
      (holds_upto (λ i. holds_upto (λ j. inner a b 10 i j 10 0 0 == get_or ans (10 * i + j) 0) 10)
        10)
      (some 0)
