-- ===== src/Softmdu/Instr.antt =====
-- The emulation of the M instructions of RV32, am/src/noop/isa/riscv/instr.c: __am_illegal_instr
-- on the registers of a context, with the word that it reads at the program counter, and the
-- routines that the compiler calls. It does not move sepc.
use nexus_am_ame.Base.{
  ℕ, zero, suc, ◌+◌, ◌*◌, ◌/◌, ◌%◌, ◌^◌, ◌<◌, ◌≡◌, ◌≢◌, arith, refl, ap, Bool, true, false, ◌==◌,
  leb, if◌then◌else◌, ◌&&◌, Option, some, none, guard, ◌>>=◌,
}
use nexus_am_ame.Softmdu.{is_negative, negate, differ, softmul, softdiv}
use nexus_am_ame.Softmdu.Division.{size, softdiv_lem}
use nexus_am_ame.Softmdu.Product.{int_product, softmul_lem}

-- The fields of an instruction.
abbrev opcode : ℕ → ℕ
opcode val = val % 2 ^ 7

abbrev rd : ℕ → ℕ
rd val = val / 2 ^ 7 % 2 ^ 5

abbrev func : ℕ → ℕ
func val = val / 2 ^ 12 % 2 ^ 3

abbrev rs1 : ℕ → ℕ
rs1 val = val / 2 ^ 15 % 2 ^ 5

abbrev rs2 : ℕ → ℕ
rs2 val = val / 2 ^ 20 % 2 ^ 5

abbrev func2 : ℕ → ℕ
func2 val = val / 2 ^ 25 % 2 ^ 7

-- The union at the start of `_Context`: slot 0 of its gpr is pdir, and slot `i` the register xi.
pub record Registers : Type 0 where
  pub pdir : ℕ
  pub x : ℕ → ℕ

abbrev pub slot : Registers → ℕ → ℕ
slot c i = if i == 0 then c.pdir else c.x i

abbrev pub put_slot : Registers → ℕ → ℕ → Registers
put_slot c r v =
    if r == 0 then record c { pdir = v } else record c { x = λ i. if i == r then v else c.x i }

-- The switch on `func`.
abbrev run_muldiv : ℕ → ℕ → ℕ → Option ℕ
run_muldiv f a b =
    if f == 0
    then some (softmul a b true false)
    else (if f == 1
        then some (softmul a b true true)
        else (if f == 4
            then some (softdiv a b true false)
            else (if f == 5
                then some (softdiv a b false false)
                else (if f == 6
                    then some (softdiv a b true true)
                    else (if f == 7 then some (softdiv a b false true) else none)))))

-- `none` where it halts.
pub illegal_instr : Registers → ℕ → Option Registers
illegal_instr c val = guard ((opcode val == 0x33) && (func2 val == 1)) (
    run_muldiv (func val) (slot c (rs1 val)) (slot c (rs2 val)) >>= λ v.
    some (put_slot c (rd val) v))

divsi3 : ℕ → ℕ → ℕ
divsi3 a b = softdiv a b true false

modsi3 : ℕ → ℕ → ℕ
modsi3 a b = softdiv a b true true

umodsi3 : ℕ → ℕ → ℕ
umodsi3 a b = softdiv a b false true

udivsi3 : ℕ → ℕ → ℕ
udivsi3 a b = softdiv a b false false

-- An instruction of the M extension from its fields.
abbrev pub m_instr : ℕ → ℕ → ℕ → ℕ → ℕ
m_instr d f s t = 0x33 + d * 2 ^ 7 + f * 2 ^ 12 + s * 2 ^ 15 + t * 2 ^ 20 + 2 ^ 25

-- What the instructions MUL, MULH, DIV, DIVU, REM and REMU compute, where the divisor is not 0.
abbrev pub muldiv : ℕ → ℕ → ℕ → ℕ
muldiv f a b =
    let sign = f % 2 == 0 in
    let quotient = size sign a / size sign b in
    let rest = size sign a % size sign b in
    if f == 0
    then int_product a b % 2 ^ 32
    else (if f == 1
        then int_product a b / 2 ^ 32
        else (if leb f 5
            then (if differ (sign && is_negative a) (sign && is_negative b)
                then negate quotient
                else quotient)
            else (if sign && is_negative a then negate rest else rest)))

run_muldiv_lem :
    (f a b : ℕ)
    → f < 8
    → a < 2 ^ 32
    → b < 2 ^ 32
    → 0 < b
    → run_muldiv f a b ≡ (if leb 2 f && leb f 3 then none else some (muldiv f a b))
run_muldiv_lem zero a b hf ha hb pos = ap some (softmul_lem a b ha hb).1
run_muldiv_lem (suc zero) a b hf ha hb pos = ap some (softmul_lem a b ha hb).0
run_muldiv_lem (suc (suc zero)) a b hf ha hb pos = refl
run_muldiv_lem (suc (suc (suc zero))) a b hf ha hb pos = refl
run_muldiv_lem (suc (suc (suc (suc zero)))) a b hf ha hb pos =
    ap some (softdiv_lem a b true ha hb pos).0
run_muldiv_lem (suc (suc (suc (suc (suc zero))))) a b hf ha hb pos =
    ap some (softdiv_lem a b false ha hb pos).0
run_muldiv_lem (suc (suc (suc (suc (suc (suc zero)))))) a b hf ha hb pos =
    ap some (softdiv_lem a b true ha hb pos).1
run_muldiv_lem (suc (suc (suc (suc (suc (suc (suc zero))))))) a b hf ha hb pos =
    ap some (softdiv_lem a b false ha hb pos).1
run_muldiv_lem (suc (suc (suc (suc (suc (suc (suc (suc f)))))))) a b hf ha hb pos =
    absurd (omega arith)

module _ (c : Registers) (d f s t : ℕ) (hd : d < 32) (hf : f < 8) (hs : s < 32) (ht : t < 32) where
  -- The emulation of an M instruction halts for MULHSU and MULHU. For the others, with a second
  -- operand that is not 0, it writes what the instruction computes to the destination and leaves all
  -- else as it was. In place of x0 it uses pdir: as an operand it takes the value of pdir and not 0,
  -- and as the destination it overwrites pdir.
  pub illegal_instr_lem :
      slot c s < 2 ^ 32
      → slot c t < 2 ^ 32
      → slot c t ≢ 0
      → let v = muldiv f (slot c s) (slot c t) in
        illegal_instr c (m_instr d f s t) ≡ (
          if leb 2 f && leb f 3
          then none
          else some (
              if d == 0
              then record c { pdir = v }
              else record c { x = λ i. if i == d then v else c.x i }))
  unfolding illegal_instr
  illegal_instr_lem ha hb nz =
      let val = m_instr d f s t in
      let fields : (opcode val ≡ 0x33)
          × (func2 val ≡ 1)
          × (rd val ≡ d)
          × (func val ≡ f)
          × (rs1 val ≡ s)
          × (rs2 val ≡ t) =
        (omega arith, omega arith, omega arith, omega arith, omega arith, omega arith) in
      rw
        (
          fields.0,
          fields.1,
          fields.2,
          fields.3,
          fields.4,
          fields.5,
          run_muldiv_lem f (slot c s) (slot c t) hf ha hb (omega arith),
        )
        (written (leb 2 f && leb f 3) (muldiv f (slot c s) (slot c t)))
    where
      written :
          (b : Bool) (v : ℕ)
          → ((if b then none else some v) >>= λ r. some (put_slot c d r))
            ≡ (if b then none else some (put_slot c d v))
      written true v = refl
      written false v = refl
