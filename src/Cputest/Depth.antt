-- ===== src/Cputest/Depth.antt =====
-- recursion.c of tests/cputest/tests: its calls end.
use nexus_am_ame.Base.{ℕ, zero, suc, ◌+◌, ◌-◌, ◌*◌, ◌/◌, ◌%◌, ◌^◌, ◌<◌, ◌≡◌, arith, Option, some}
use nexus_am_ame.Cputest.Programs.Recursion.{Counters, enter, func}
use native.Mathlib.Decide.{ℕ_discrete}

abbrev Ends : Option (ℕ × Counters) → Type 0
Ends o = (v : ℕ) × (d : Counters) × (o ≡ some (v, d))

-- func[which](n, l) returns when the depth of the calls may exceed 4 * n + which.
pub func_ends :
    (fuel which n l : ℕ) (c : Counters)
    → which < 4
    → 4 * n + which < fuel
    → (v : ℕ) × (d : Counters) × (func fuel which n l c ≡ some (v, d))
unfolding func
func_ends zero which n l c w more = absurd (omega arith)
func_ends (suc fuel) which n l c w more = elim (ℕ_discrete n 0) [
  | yes z ↦ (1, enter l c, ground arith)
  | no nz ↦ elim (ℕ_discrete which 0) [
    | yes is0 ↦
        let (v, d, e) = func_ends fuel 3 (n / 3) (l + 1) (enter l c) (omega arith) (omega arith) in
        (v, d, ground arith)
    | no n0 ↦ elim (ℕ_discrete which 1) [
      | yes is1 ↦
          let (v, d, e) =
            func_ends fuel 0 (n - 1) (l + 1) (enter l c) (omega arith) (omega arith) in
          (v, d, ground arith)
      | no n1 ↦ elim (ℕ_discrete which 2) [
        | yes is2 ↦
            let (v, d, e) = func_ends fuel 1 n (l + 1) (enter l c) (omega arith) (omega arith) in
            ((v + 9) % 2 ^ 32, d, ground arith)
        | no n2 ↦
            let (v, d, e) =
              func_ends fuel 2 (n / 2) (l + 1) (enter l c) (omega arith) (omega arith) in
            let (v', d', e') = func_ends fuel 2 (n / 2) (l + 1) d (omega arith) (omega arith) in
            ((v * 3 + v' * 2) % 2 ^ 32, d', ground arith)
      ]
    ]
  ]
]
