-- ===== src/Microbench/Queen.antt =====
-- apps/microbench/src/queen/queen.c. Its words are unsigned ints.
use nexus_am_ame.Base.{
  ℕ, zero, suc, ◌+◌, ◌-◌, ◌*◌, ◌/◌, ◌%◌, ◌^◌, bit_and, bit_or, ◌==◌, if◌then◌else◌, Option, some,
  none, ◌>>=◌,
}

-- `~x`
abbrev flipped : ℕ → ℕ
flipped x = 2 ^ 32 - 1 - x

-- The loop of dfs on fuel; `call` is dfs itself.
unfoldable pub choose : (ℕ → ℕ → ℕ → Option ℕ) → ℕ → ℕ → ℕ → ℕ → ℕ → ℕ → Option ℕ
choose call zero row ld rd pos ans = none
choose call (suc fuel) row ld rd pos ans =
    let p = bit_and pos ((flipped pos + 1) % 2 ^ 32) in
    let rest = call (bit_or row p) (bit_or ld p * 2 % 2 ^ 32) (bit_or rd p / 2) >>= λ found.
    choose call fuel row ld rd (pos - p) ((ans + found) % 2 ^ 32) in
    if pos == 0 then some ans else rest

-- On fuel for the depth; the loop takes a bit of 32 off in each round.
unfoldable pub dfs : ℕ → ℕ → ℕ → ℕ → ℕ → Option ℕ
dfs zero full row ld rd = none
dfs (suc fuel) full row ld rd =
    let count =
      choose (dfs fuel full) 33 row ld rd (bit_and full (flipped (bit_or (bit_or row ld) rd))) 0 in
    if row == full then some 1 else count

-- bench_queen_prepare and bench_queen_run
unfoldable pub bench_queen_run : ℕ → Option ℕ
bench_queen_run size = dfs (size + 1) (2 ^ size - 1) 0 0 0
