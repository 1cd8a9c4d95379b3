-- ===== src/Softmdu/Tests.antt =====
-- The test program passes, and the theorems at concrete inputs.
use nexus_am_ame.Base.{◌*◌, some, ◌/◌, ◌%◌, ◌≡◌, ◌-◌, ◌^◌, refl, arith, true, false}
use nexus_am_ame.Softmdu.{softdiv, negate, softmul, booth, mul_rounds, div_rounds, apply_signs}
use nexus_am_ame.Softmdu.Division.{softdiv_lem}
use nexus_am_ame.Softmdu.Product.{int_product, softmul_lem}
use nexus_am_ame.Softmdu.Zero.{softdiv_by_zero}
use nexus_am_ame.Softmdu.Instr.{
  Registers, put_slot, illegal_instr, m_instr, muldiv, illegal_instr_lem,
}
use nexus_am_ame.Softmdu.Check.{main, check_mul, check_div, check_divu}

main_passes : main ≡ true
unfolding main check_mul check_div check_divu softmul softdiv booth mul_rounds div_rounds
    apply_signs
main_passes = refl

-- -7 / 2
softdiv_lem_example :
    (softdiv (2 ^ 32 - 7) 2 true false ≡ negate 3) × (softdiv (2 ^ 32 - 7) 2 true true ≡ negate 1)
softdiv_lem_example = softdiv_lem (2 ^ 32 - 7) 2 true (omega arith) (omega arith) (omega arith)

-- -2147483648 times -3
softmul_lem_example :
    (softmul (2 ^ 31) (2 ^ 32 - 3) true true ≡ int_product (2 ^ 31) (2 ^ 32 - 3) / 2 ^ 32)
    × (softmul (2 ^ 31) (2 ^ 32 - 3) true false ≡ int_product (2 ^ 31) (2 ^ 32 - 3) % 2 ^ 32)
softmul_lem_example = softmul_lem (2 ^ 31) (2 ^ 32 - 3) (omega arith) (omega arith)

softdiv_by_zero_example :
    (softdiv (2 ^ 32 - 7) 0 true false ≡ 1) × (softdiv (2 ^ 32 - 7) 0 true true ≡ 2 ^ 32 - 7)
softdiv_by_zero_example = softdiv_by_zero (2 ^ 32 - 7) true (omega arith)

abbrev seven_each : Registers
seven_each = record { pdir = 0x8000_0000; x = λ r. 7 * r }

-- rem x5, x9, x4
illegal_instr_lem_example :
    illegal_instr seven_each (m_instr 5 6 9 4) ≡ some (put_slot seven_each 5 (muldiv 6 63 28))
illegal_instr_lem_example =
    illegal_instr_lem seven_each 5 6 9 4 (omega arith) (omega arith) (omega arith) (omega arith)
      (omega arith) (omega arith) (omega arith)
