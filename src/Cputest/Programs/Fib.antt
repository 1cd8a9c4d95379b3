-- ===== src/Cputest/Programs/Fib.antt =====
-- fib.c of tests/cputest/tests.
use nexus_am_ame.Base.{
  ℕ, zero, suc, ◌+◌, ◌-◌, ◌%◌, ◌^◌, ◌==◌, Option, some, ◌>>=◌, guard, List, [], ◌∷◌, get_or, set,
}

abbrev pub ans : List ℕ
ans =
    1 ∷ 1 ∷ 2 ∷ 3 ∷ 5 ∷ 8 ∷ 13 ∷ 21 ∷ 34 ∷ 55 ∷ 89 ∷ 144 ∷ 233 ∷ 377 ∷ 610 ∷ 987 ∷ 1597 ∷ 2584
    ∷ 4181 ∷ 6765 ∷ 0x2ac2 ∷ 0x452f ∷ 0x6ff1 ∷ 0xb520 ∷ 0x12511 ∷ 0x1da31 ∷ 0x2ff42 ∷ 0x4d973
    ∷ 0x7d8b5 ∷ 0xcb228 ∷ 0x148add ∷ 0x213d05 ∷ 0x35c7e2 ∷ 0x5704e7 ∷ 0x8cccc9 ∷ 0xe3d1b0
    ∷ 0x1709e79 ∷ 0x2547029 ∷ 0x3c50ea2 ∷ 0x6197ecb ∷ []

-- The loop, with `left` rounds to go from `i` on.
unfoldable pub fill : ℕ → ℕ → List ℕ → Option (List ℕ)
fill zero i fib = some fib
fill (suc left) i fib =
    let next = set fib i ((get_or fib (i - 1) 0 + get_or fib (i - 2) 0) % 2 ^ 32) in
    guard (get_or next i 0 == get_or ans i 0) (fill left (i + 1) next)

abbrev pub fib : List ℕ
fib =
    1 ∷ 1 ∷ 0 ∷ 0 ∷ 0 ∷ 0 ∷ 0 ∷ 0 ∷ 0 ∷ 0 ∷ 0 ∷ 0 ∷ 0 ∷ 0 ∷ 0 ∷ 0 ∷ 0 ∷ 0 ∷ 0 ∷ 0 ∷ 0 ∷ 0 ∷ 0 ∷ 0
    ∷ 0 ∷ 0 ∷ 0 ∷ 0 ∷ 0 ∷ 0 ∷ 0 ∷ 0 ∷ 0 ∷ 0 ∷ 0 ∷ 0 ∷ 0 ∷ 0 ∷ 0 ∷ 0 ∷ []

unfoldable pub main : Option ℕ
main = fill 38 2 fib >>= λ f. some 0
