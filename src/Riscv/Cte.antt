-- ===== src/Riscv/Cte.antt =====
-- Traps and their handlers, am/src/nemu/isa/riscv/cte.c in the 64-bit build, with the two
-- functions of vme.c that keep the address space of a context. A context is named by its address.
-- What a handler of the client does to the world is the client's: `none` if it halts.
pub mod Dispatch
pub mod Init
use nexus_am_ame.Base.{
  ℕ, zero, suc, ◌+◌, ◌-◌, ◌*◌, ◌/◌, ◌%◌, ◌^◌, bit_and, bit_or, Bool, Option, none, some, ltb, ◌==◌,
  ◌&&◌, not, if◌then◌else◌, guard, ◌>>=◌,
}

-- `event` of _Event; its other fields stay 0.
pub data Event : Type 0 where
  event_null event_error event_irq_soft event_irq_timer event_irq_iodev : Event
  event_pagefault event_syscall event_yield : Event

-- `pdir` is a name of gpr[0]: the two are in a union.
pub record Context : Type 0 where
  pub gpr : ℕ → ℕ
  pub scause : ℕ
  pub sstatus : ℕ
  pub sepc : ℕ

-- The contexts by address, and the registers and variables that the handlers use.
pub record World : Type 0 where
  pub contexts : ℕ → Context
  pub sip : ℕ
  pub satp : ℕ
  pub vme_enable : Bool

abbrev pub Custom : Type 0
Custom = Event → ℕ → World → Option World

-- The functions that the tables hold; `registered` is one of the client.
pub data Handler : Type 0 where
  default_handler ssip_handler stip_handler seip_handler secall_handler : Handler
  registered : (Event → ℕ → World → Option (Event × World)) → Handler

pub record Handlers : Type 0 where
  pub interrupt_handler : ℕ → Handler
  pub exception_handler : ℕ → Handler
  pub custom_soft_handler : Option Custom
  pub custom_timer_handler : Option Custom
  pub custom_external_handler : Option Custom
  pub custom_secall_handler : Option Custom

abbrev pub put_context : ℕ → Context → World → World
put_context c x w = record w { contexts = λ a. if a == c then x else w.contexts a }

-- INTR_BIT, SCAUSE_MASK, INTERRUPT_CAUSE_SIZE and EXCEPTION_CAUSE_SIZE
abbrev pub intr_bit : ℕ
intr_bit = 2 ^ 63

abbrev pub scause_mask : ℕ
scause_mask = 0x7fff

abbrev pub cause_size : ℕ
cause_size = 16

-- __am_get_cur_as
pub get_cur_as : ℕ → World → World
get_cur_as c w =
    let pdir = if w.vme_enable then w.satp * 2 ^ 12 % 2 ^ 64 else 0 in
    let x = w.contexts c in
    put_context c (record x { gpr = λ n. if n == 0 then pdir else x.gpr n }) w

-- __am_switch
pub am_switch : ℕ → World → World
am_switch c w =
    let pdir = (w.contexts c).gpr 0 in
    if w.vme_enable && not (pdir == 0)
    then record w { satp = bit_or (8 * 2 ^ 60) (pdir / 2 ^ 12) }
    else w

-- The call of a handler of the client, if there is one. What it returns is not used.
abbrev pub call_custom : Option Custom → Event → ℕ → World → Option (Event × World)
call_custom none ev c w = some (ev, w)
call_custom (some f) ev c w = f ev c w >>= λ w'. some (ev, w')

-- `csrwi sip, 0`
abbrev pub clear_sip : World → World
clear_sip w = record w { sip = 0 }

-- __am_irq_SECALL_handler; GPR1 is register a7.
pub secall : Option Custom → ℕ → World → Option (Event × World)
secall custom c w =
    let x = w.contexts c in
    call_custom custom (if x.gpr 17 == 2 ^ 64 - 1 then event_yield else event_syscall) c
      (put_context c (record x { sepc = (x.sepc + 4) % 2 ^ 64 }) w)

pub run_handler : Handlers → Handler → Event → ℕ → World → Option (Event × World)
run_handler hs default_handler ev c w = none
run_handler hs ssip_handler ev c w =
    call_custom hs.custom_soft_handler event_irq_soft c (clear_sip w)
run_handler hs stip_handler ev c w =
    call_custom hs.custom_timer_handler event_irq_timer c (clear_sip w)
run_handler hs seip_handler ev c w =
    call_custom hs.custom_external_handler event_irq_iodev c (clear_sip w)
run_handler hs secall_handler ev c w = secall hs.custom_secall_handler c w
run_handler hs (registered f) ev c w = f ev c w

-- __am_irq_handle: the address of the context to go on with.
pub irq_handle : Handlers → ℕ → World → Option (ℕ × World)
irq_handle hs c w =
    let w' = get_cur_as c w in
    let cause = (w'.contexts c).scause in
    let code = bit_and cause scause_mask in
    (if bit_and cause intr_bit == 0
      then guard (ltb code cause_size) (run_handler hs (hs.exception_handler code) event_null c w')
      else guard (ltb code cause_size) (run_handler hs (hs.interrupt_handler code) event_null c w'))
    >>= λ r. some (c, am_switch c r.1)

abbrev pub put_handler : (ℕ → Handler) → ℕ → Handler → ℕ → Handler
put_handler table i f k = if k == i then f else table k

pub irq_handler_reg : ℕ → Handler → Handlers → Option Handlers
irq_handler_reg code f hs =
    let offset = code * 2 % 2 ^ 64 / 2 in
    if bit_and intr_bit code == 0
    then guard (ltb offset cause_size)
        (some (record hs { exception_handler = put_handler hs.exception_handler offset f }))
    else guard (ltb offset cause_size)
        (some (record hs { interrupt_handler = put_handler hs.interrupt_handler offset f }))

-- ssip_handler_reg, stip_handler_reg, seip_handler_reg and secall_handler_reg, by the cause;
-- any other cause halts.
pub custom_handler_reg : ℕ → Custom → Handlers → Option Handlers
custom_handler_reg code f hs =
    if code == intr_bit + 1
    then some (record hs { custom_soft_handler = some f })
    else (if code == intr_bit + 5
        then some (record hs { custom_timer_handler = some f })
        else (if code == intr_bit + 9
            then some (record hs { custom_external_handler = some f })
            else (if code == 9 then some (record hs { custom_secall_handler = some f }) else none)))

-- The two loops of _cte_init, with `left` entries to go from `i` on.
pub fill_interrupts : ℕ → ℕ → Handlers → Option Handlers
fill_interrupts zero i hs = some hs
fill_interrupts (suc left) i hs = irq_handler_reg (bit_or intr_bit i) default_handler hs >>= λ hs'.
    fill_interrupts left (i + 1) hs'

pub fill_exceptions : ℕ → ℕ → Handlers → Handlers
fill_exceptions zero i hs = hs
fill_exceptions (suc left) i hs =
    fill_exceptions left (i + 1)
      (record hs { exception_handler = put_handler hs.exception_handler i default_handler })

-- The tables as _cte_init leaves them.
pub cte_init : Handlers → Option Handlers
cte_init hs = fill_interrupts cause_size 0 hs >>= λ hs₁.
    let hs₂ = fill_exceptions cause_size 0 hs₁ in
    some (record hs₂ {
      interrupt_handler =
          put_handler
            (put_handler (put_handler hs₂.interrupt_handler 1 ssip_handler) 5 stip_handler) 9
            seip_handler;
      exception_handler = put_handler hs₂.exception_handler 9 secall_handler;
    })

-- MSTATUS_SPP(MODE_S) | MSTATUS_PIE(MODE_S)
abbrev pub kernel_status : ℕ
kernel_status = bit_or (1 * 2 ^ 8) (1 * 2 ^ 1 * 2 ^ 4)

-- The size of a _Context: 35 words of 8 bytes.
abbrev pub context_size : ℕ
context_size = 35 * 8

-- _kcontext: the address of a context at the end of the stack, whose other registers and cause
-- stay what the memory held.
pub kcontext : ℕ → ℕ → ℕ → World → ℕ × World
kcontext end entry arg w =
    let c = end - context_size in
    let x = w.contexts c in
    let gpr : ℕ → ℕ =
      λ n. if n == 0 then 0 else (if n == 10 then arg else (if n == 2 then 0 else x.gpr n)) in
    (c, put_context c (record x { gpr = gpr; sepc = entry; sstatus = kernel_status }) w)

-- _ucontext, as _kcontext, in the address space with the tables `pdir`
pub ucontext : ℕ → ℕ → ℕ → World → ℕ × World
ucontext pdir end entry w =
    let c = end - context_size in
    let x = w.contexts c in
    let gpr : ℕ → ℕ = λ n. if n == 0 then pdir else (if n == 2 then 1 else x.gpr n) in
    (c, put_context c (record x { gpr = gpr; sepc = entry; sstatus = kernel_status }) w)
