-- ===== src/Cputest/Programs/Recursion.antt =====
-- recursion.c of tests/cputest/tests.
use nexus_am_ame.Base.{
  ℕ, zero, suc, ◌+◌, ◌-◌, ◌*◌, ◌/◌, ◌%◌, ◌^◌, ◌&&◌, ◌==◌, ltb, if◌then◌else◌, Option, some, none,
  ◌>>=◌, guard,
}

-- The globals.
pub record Counters : Type 0 where
  pub rec : ℕ
  pub lvl : ℕ

abbrev pub enter : ℕ → Counters → Counters
enter l c = record { rec = c.rec + 1; lvl = if ltb c.lvl l then l else c.lvl }

-- `func[which](n, l)` for n ≥ 0, on fuel.
unfoldable pub func : ℕ → ℕ → ℕ → ℕ → Counters → Option (ℕ × Counters)
func zero which n l c = none
func (suc fuel) which n l c =
    let call = λ (next : ℕ) (m : ℕ) (d : Counters). func fuel next m (l + 1) d in
    let c' = enter l c in
    let f0 = call 3 (n / 3) c' in
    let f1 = call 0 (n - 1) c' in
    let f2 = call 1 n c' >>= λ r. some ((r.0 + 9) % 2 ^ 32, r.1) in
    let f3 = call 2 (n / 2) c' >>= λ r.
    call 2 (n / 2) r.1 >>= λ s. some ((r.0 * 3 + s.0 * 2) % 2 ^ 32, s.1) in
    if n == 0
    then some (1, c')
    else (if which == 0 then f0 else (if which == 1 then f1 else (if which == 2 then f2 else f3)))

unfoldable pub main : Option ℕ
main = func 57485 0 14371 0 (record { rec = 0; lvl = 0 }) >>= λ r.
    guard ((r.0 == 38270) && (r.1.rec == 218) && (r.1.lvl == 20)) (some 0)
