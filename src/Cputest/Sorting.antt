-- ===== src/Cputest/Sorting.antt =====
-- The mains of bubble-sort.c, select-sort.c and quick-sort.c of tests/cputest/tests.
use nexus_am_ame.Base.{
  ◌-◌, ℕ, ◌≡◌, true, false, arith, ◌==◌, Option, some, ◌>>=◌, guard, holds_upto, [], ◌∷◌, get_or,
}
use nexus_am_ame.Arrays.{Order}
use nexus_am_ame.Words.{int_less}
use nexus_am_ame.Cputest.Sort.{bubble_sort, select_sort, quick_sort}

pub int_less-asym : (x y : ℕ) → int_less y x ≡ true → int_less x y ≡ false
int_less-asym x y h = ground arith

pub int_less_trans :
    (x y z : ℕ) → int_less y x ≡ false → int_less z y ≡ false → int_less z x ≡ false
int_less_trans x y z h k = ground arith

-- The order of int.
instance unfoldable pub int_order : Order ℕ
int_order = record { gt = λ x y. int_less y x; asym = int_less-asym; trans = int_less_trans }

abbrev n : ℕ
n = 20

-- The `a` of the three programs.
abbrev pub a : ℕ → ℕ
a i =
    get_or
      (2 ∷ 12 ∷ 14 ∷ 6 ∷ 13 ∷ 15 ∷ 16 ∷ 10 ∷ 0 ∷ 18 ∷ 11 ∷ 19 ∷ 9 ∷ 1 ∷ 7 ∷ 5 ∷ 4 ∷ 3 ∷ 8 ∷ 17 ∷ [])
      i 0

abbrev is_sorted : (ℕ → ℕ) → Option (ℕ → ℕ)
is_sorted b = guard (holds_upto (λ i. b i == i) n) (some b)

unfoldable pub bubble_main : Option ℕ
bubble_main = is_sorted (bubble_sort n a) >>= λ b. is_sorted (bubble_sort n b) >>= λ c. some 0

unfoldable pub select_main : Option ℕ
select_main = is_sorted (select_sort n a) >>= λ b. is_sorted (select_sort n b) >>= λ c. some 0

unfoldable pub quick_main : Option ℕ
quick_main = quick_sort n 0 (n - 1) a >>= λ b.
    is_sorted b >>= λ c. quick_sort n 0 (n - 1) c >>= λ d. is_sorted d >>= λ e. some 0
