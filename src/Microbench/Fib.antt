-- ===== src/Microbench/Fib.antt =====
-- apps/microbench/src/fib/fib.c: matrices of `m` rows and columns of 32-bit words, row by row.
use nexus_am_ame.Base.{
  ℕ, zero, suc, ◌+◌, ◌-◌, ◌*◌, ◌/◌, ◌%◌, ◌^◌, ◌||◌, ◌==◌, if◌then◌else◌, List, [], ◌∷◌, get_or, set,
}

abbrev pub put : ℕ → List ℕ → ℕ → ℕ → ℕ → List ℕ
put m a i j x = set a (i * m + j) (x % 2 ^ 32)

abbrev pub get : ℕ → List ℕ → ℕ → ℕ → ℕ
get m a i j = get_or a (i * m + j) 0

-- The loop of mult over `k`, with `left` rounds to go.
unfoldable pub add_products : ℕ → ℕ → ℕ → ℕ → ℕ → List ℕ → List ℕ → List ℕ → List ℕ
add_products m zero k i j a b c = c
add_products m (suc left) k i j a b c =
    add_products m left (k + 1) i j a b (put m c i j (get m c i j + get m a i k * get m b k j))

-- A loop over all `i` and `j`, `left` places to go.
unfoldable pub each_place : ℕ → ℕ → ℕ → (ℕ → ℕ → List ℕ → List ℕ) → List ℕ → List ℕ
each_place m zero at step c = c
each_place m (suc left) at step c = each_place m left (at + 1) step (step (at / m) (at % m) c)

unfoldable pub mult : ℕ → List ℕ → List ℕ → List ℕ → List ℕ
mult m c a b = each_place m (m * m) 0 (λ i j d. add_products m m 0 i j a b (put m d i j 0)) c

unfoldable pub assign : ℕ → List ℕ → List ℕ → List ℕ
assign m a b = each_place m (m * m) 0 (λ i j d. put m d i j (get m b i j)) a

-- `A` is written and never read, and left out.
pub record Matrices : Type 0 where
  pub ans : List ℕ
  pub t : List ℕ
  pub tmp : List ℕ

-- The loop over `n`, on fuel for its binary digits.
unfoldable pub powers : ℕ → ℕ → ℕ → Matrices → Matrices
powers m zero n s = s
powers m (suc fuel) n s =
    let product = mult m s.tmp s.ans s.t in
    let odd : Matrices = record s { ans = assign m s.ans product; tmp = product } in
    let s1 = if n % 2 == 1 then odd else s in
    let square = mult m s1.tmp s1.t s1.t in
    let s2 : Matrices = record s1 { t = assign m s1.t square; tmp = square } in
    let rest = powers m fuel (n / 2) s2 in if n == 0 then s else rest

abbrev zeros : ℕ → List ℕ
zeros zero = []
zeros (suc n) = 0 ∷ zeros n

-- bench_fib_prepare and bench_fib_run: the last entry of `ans`.
unfoldable pub bench_fib_run : ℕ → ℕ
bench_fib_run m =
    let first =
      each_place m (m * m) 0 (λ i j d. put m d i j (if (i == m - 1) || (j == i + 1) then 1 else 0))
        (zeros (m * m)) in
    let unit =
      each_place m (m * m) 0 (λ i j d. put m d i j (if i == j then 1 else 0)) (zeros (m * m)) in
    get m (powers m 31 2147483603 (record { ans = unit; t = first; tmp = zeros (m * m) })).ans
      (m - 1) (m - 1)
