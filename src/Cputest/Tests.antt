-- ===== src/Cputest/Tests.antt =====
-- Runs of the programs of tests/cputest, and the theorems at concrete inputs.
use nexus_am_ame.Base.{ℕ, ◌≡◌, refl, arith, some, holds_upto}
use nexus_am_ame.Arrays.{Rearranges, Sorted}
use nexus_am_ame.Cputest.Sort.Quick.{quick_sort_lem}
use nexus_am_ame.Cputest.Programs.Goldbach.{goldbach}
use nexus_am_ame.Cputest.Programs.Recursion.{Counters, func}
use nexus_am_ame.Cputest.Programs.Bit.{getbit, setbit}
use nexus_am_ame.Cputest.Sort.{
  bubble_sort, bubble_rounds, bubble_pass, select_sort, select_rounds, select_least, quick_sort,
  partition, partition_loop, scan_down, scan_up,
}
use nexus_am_ame.Cputest.Sorting.{int_order, a, bubble_main, select_main, quick_main}
use nexus_am_ame.Cputest.Programs.Add
use nexus_am_ame.Cputest.Programs.AddLonglong
use nexus_am_ame.Cputest.Programs.Bit
use nexus_am_ame.Cputest.Programs.Div
use nexus_am_ame.Cputest.Programs.Fact
use nexus_am_ame.Cputest.Programs.Fib
use nexus_am_ame.Cputest.Programs.Goldbach
use nexus_am_ame.Cputest.Programs.IfElse
use nexus_am_ame.Cputest.Programs.LeapYear
use nexus_am_ame.Cputest.Programs.LoadStore
use nexus_am_ame.Cputest.Programs.MatrixMul
use nexus_am_ame.Cputest.Programs.Max
use nexus_am_ame.Cputest.Programs.Min3
use nexus_am_ame.Cputest.Programs.MovC
use nexus_am_ame.Cputest.Programs.Movsx
use nexus_am_ame.Cputest.Programs.MulLonglong
use nexus_am_ame.Cputest.Programs.Pascal
use nexus_am_ame.Cputest.Programs.Prime
use nexus_am_ame.Cputest.Programs.Recursion
use nexus_am_ame.Cputest.Programs.Shift
use nexus_am_ame.Cputest.Programs.Shuixianhua
use nexus_am_ame.Cputest.Programs.SubLonglong
use nexus_am_ame.Cputest.Programs.Sum
use nexus_am_ame.Cputest.Programs.Switch
use nexus_am_ame.Cputest.Programs.ToLowerCase
use nexus_am_ame.Cputest.Programs.Unalign
use nexus_am_ame.Cputest.Programs.Wanshu

add_returns : Add.main ≡ some 0
unfolding Add.add Add.main holds_upto
add_returns = refl

add_longlong_returns : AddLonglong.main ≡ some 0
unfolding AddLonglong.add AddLonglong.main holds_upto
add_longlong_returns = refl

bit_returns : Bit.main ≡ some 0
unfolding Bit.getbit Bit.setbit Bit.main holds_upto
bit_returns = refl

div_returns : Div.main ≡ some 0
unfolding Div.multiply_from Div.divide_from Div.main holds_upto
div_returns = refl

fact_returns : Fact.main ≡ some 0
unfolding Fact.fact Fact.main holds_upto
fact_returns = refl

fib_returns : Fib.main ≡ some 0
unfolding Fib.fill Fib.main holds_upto
fib_returns = refl

goldbach_returns : Goldbach.main ≡ some 0
unfolding Goldbach.no_divisor Goldbach.is_prime Goldbach.sum_of_primes Goldbach.goldbach
    Goldbach.main holds_upto
goldbach_returns = refl

if_else_returns : IfElse.main ≡ some 0
unfolding IfElse.if_else IfElse.main holds_upto
if_else_returns = refl

leap_year_returns : LeapYear.main ≡ some 0
unfolding LeapYear.is_leap_year LeapYear.main holds_upto
leap_year_returns = refl

load_store_returns : LoadStore.main ≡ some 0
unfolding LoadStore.store_all LoadStore.main holds_upto
load_store_returns = refl

matrix_mul_returns : MatrixMul.main ≡ some 0
unfolding MatrixMul.inner MatrixMul.main holds_upto
matrix_mul_returns = refl

max_returns : Max.main ≡ some 0
unfolding Max.max Max.main holds_upto
max_returns = refl

min3_returns : Min3.main ≡ some 0
unfolding Min3.min3 Min3.main holds_upto
min3_returns = refl

mov_c_returns : MovC.main ≡ some 0
unfolding MovC.filled MovC.main holds_upto
mov_c_returns = refl

movsx_returns : Movsx.main ≡ some 0
unfolding Movsx.main holds_upto
movsx_returns = refl

mul_longlong_returns : MulLonglong.main ≡ some 0
unfolding MulLonglong.mul MulLonglong.main holds_upto
mul_longlong_returns = refl

pascal_returns : Pascal.main ≡ some 0
unfolding Pascal.next_row Pascal.rows Pascal.main holds_upto
pascal_returns = refl

prime_returns : Prime.main ≡ some 0
unfolding Prime.trial Prime.search Prime.main holds_upto
prime_returns = refl

recursion_returns : Recursion.main ≡ some 0
unfolding Recursion.func Recursion.main holds_upto
recursion_returns = refl

shift_returns : Shift.main ≡ some 0
unfolding Shift.main holds_upto
shift_returns = refl

shuixianhua_returns : Shuixianhua.main ≡ some 0
unfolding Shuixianhua.cube Shuixianhua.search Shuixianhua.main holds_upto
shuixianhua_returns = refl

sub_longlong_returns : SubLonglong.main ≡ some 0
unfolding SubLonglong.sub SubLonglong.main holds_upto
sub_longlong_returns = refl

sum_returns : Sum.main ≡ some 0
unfolding Sum.sum_from Sum.main holds_upto
sum_returns = refl

switch_returns : Switch.main ≡ some 0
unfolding Switch.switch_case Switch.main holds_upto
switch_returns = refl

to_lower_case_returns : ToLowerCase.main ≡ some 0
unfolding ToLowerCase.to_lower_case ToLowerCase.main holds_upto
to_lower_case_returns = refl

unalign_returns : Unalign.main ≡ some 0
unfolding Unalign.rounds Unalign.main holds_upto
unalign_returns = refl

wanshu_returns : Wanshu.main ≡ some 0
unfolding Wanshu.sum_divisors Wanshu.search Wanshu.main holds_upto
wanshu_returns = refl

bubble_main_returns : bubble_main ≡ some 0
unfolding bubble_main bubble_sort bubble_rounds bubble_pass int_order holds_upto
bubble_main_returns = refl

select_main_returns : select_main ≡ some 0
unfolding select_main select_sort select_rounds select_least int_order holds_upto
select_main_returns = refl

quick_main_returns : quick_main ≡ some 0
unfolding quick_main quick_sort partition partition_loop scan_down scan_up int_order holds_upto
quick_main_returns = refl

quick_sort_lem_example :
    (b : ℕ → ℕ) × (quick_sort 20 0 19 a ≡ some b) × Rearranges 0 19 a b × Sorted 0 19 b
quick_sort_lem_example = quick_sort_lem 20 0 19 a (omega arith)
