-- ===== src/Cputest/Programs.antt =====
-- The programs of tests/cputest/tests, one module each. `main` is `some 0` where the program
-- returns 0, and `none` where an assertion halts it.
pub mod Add
pub mod AddLonglong
pub mod Bit
pub mod Div
pub mod Fact
pub mod Fib
pub mod Goldbach
pub mod IfElse
pub mod LeapYear
pub mod LoadStore
pub mod MatrixMul
pub mod Max
pub mod Min3
pub mod MovC
pub mod Movsx
pub mod MulLonglong
pub mod Pascal
pub mod Prime
pub mod Recursion
pub mod Shift
pub mod Shuixianhua
pub mod SubLonglong
pub mod Sum
pub mod Switch
pub mod ToLowerCase
pub mod Unalign
pub mod Wanshu
