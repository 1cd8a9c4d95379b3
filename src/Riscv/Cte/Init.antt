-- ===== src/Riscv/Cte/Init.antt =====
-- The tables that _cte_init makes.
use nexus_am_ame.Base.{
  ℕ, zero, suc, ◌+◌, ◌/◌, ◌%◌, ◌^◌, ◌<◌, ◌≤◌, ◌≡◌, arith, refl, ap, ◌∙◌, bit_or, bit_or_disjoint,
  ltb→lt, Bool-cases, false, inl, inr, some, ltb, leb, ◌==◌, ◌&&◌, if◌then◌else◌, ◌>>=◌,
}
use nexus_am_ame.Riscv.Cte.{
  event_null, World, Handler, Handlers, default_handler, ssip_handler, stip_handler, seip_handler,
  secall_handler, get_cur_as, am_switch, run_handler, irq_handle, put_handler, fill_interrupts,
  fill_exceptions, cte_init, intr_bit,
}
use nexus_am_ame.Riscv.Cte.Dispatch.{
  handle_by, handler_for, irq_handle_lem, irq_handler_reg_lem, with_tables, run_handler-with_tables,
}

filled : ℕ → ℕ → (ℕ → Handler) → ℕ → Handler
filled zero i t = t
filled (suc left) i t = filled left (i + 1) (put_handler t i default_handler)

filled-at :
    (left i k : ℕ) (t : ℕ → Handler)
    → filled left i t k ≡ (if leb i k && ltb k (i + left) then default_handler else t k)
unfolding filled
filled-at zero i k t = ground arith
filled-at (suc left) i k t =
    ground (arith, filled-at left (i + 1) k (put_handler t i default_handler))

fill_exceptions_lem :
    (left i : ℕ) (hs : Handlers)
    → fill_exceptions left i hs
      ≡ record hs { exception_handler = filled left i hs.exception_handler }
unfolding filled fill_exceptions
fill_exceptions_lem zero i hs = refl
fill_exceptions_lem (suc left) i hs = fill_exceptions_lem left (i + 1) _

fill_interrupts_lem :
    (left i : ℕ) (hs : Handlers)
    → i + left ≤ 16
    → fill_interrupts left i hs
      ≡ some (record hs { interrupt_handler = filled left i hs.interrupt_handler })
unfolding filled fill_interrupts
fill_interrupts_lem zero i hs h = refl
fill_interrupts_lem (suc left) i hs h =
    let code : bit_or intr_bit i ≡ 2 ^ 63 + i = bit_or_disjoint 63 1 i (omega arith) in
    let is_interrupt : ((2 ^ 63 + i) / 2 ^ 63 == 0) ≡ false = ground arith in
    let same : (2 ^ 63 + i) % 2 ^ 63 ≡ i = omega arith in
    rw (code, irq_handler_reg_lem (2 ^ 63 + i) default_handler hs (omega arith) (omega arith))
      (rw (is_interrupt, same) (fill_interrupts_lem left (i + 1) _ (omega arith)))

-- The handler that _cte_init provides for a cause.
abbrev pub default_for : ℕ → Handler
default_for cause =
    let code = cause % 2 ^ 15 in
    if cause / 2 ^ 63 == 0
    then (if code == 9 then secall_handler else default_handler)
    else (if code == 1
        then ssip_handler
        else (if code == 5
            then stip_handler
            else (if code == 9 then seip_handler else default_handler)))

-- The state after _cte_init.
abbrev initialized : Handlers → Handlers
initialized hs =
    with_tables
      (put_handler
        (put_handler (put_handler (filled 16 0 hs.interrupt_handler) 1 ssip_handler) 5 stip_handler)
        9 seip_handler)
      (put_handler (filled 16 0 hs.exception_handler) 9 secall_handler) hs

handler_for-initialized :
    (hs : Handlers) (cause : ℕ)
    → cause % 2 ^ 15 < 16
    → handler_for (initialized hs) cause ≡ default_for cause
handler_for-initialized hs cause h = ground (
  arith,
  filled-at 16 0 (cause % 2 ^ 15) hs.interrupt_handler,
  filled-at 16 0 (cause % 2 ^ 15) hs.exception_handler,
)

-- _cte_init fills the tables whatever they held: from then on the supervisor's software, timer and
-- external interrupts and its ecall reach their handlers, and every other trap halts.
pub cte_init-irq_handle :
    (hs : Handlers) (c : ℕ) (w : World)
    → (w.contexts c).scause < 2 ^ 64
    → (hs' : Handlers) × (cte_init hs ≡ some hs')
      × (irq_handle hs' c w ≡ handle_by hs (default_for (w.contexts c).scause) c w)
unfolding cte_init run_handler
cte_init-irq_handle hs c w h = (
  initialized hs,
  rw (fill_interrupts_lem 16 0 hs (omega arith)) (
      rw
        (fill_exceptions_lem 16 0
          (record hs { interrupt_handler = filled 16 0 hs.interrupt_handler }))
        refl),
  irq_handle_lem (initialized hs) c w h
      ∙ elim (Bool-cases (ltb ((w.contexts c).scause % 2 ^ 15) 16)) [
        | inl small ↦ rw small (
            ap (λ o. o >>= λ r. some (c, am_switch c r.1))
              (run_handler-with_tables (initialized hs).interrupt_handler
                (initialized hs).exception_handler hs
                (handler_for (initialized hs) (w.contexts c).scause) event_null c (get_cur_as c w))
            ∙ ap (λ g. handle_by hs g c w)
                (handler_for-initialized hs (w.contexts c).scause (ltb→lt _ _ small)))
        | inr big ↦ rw (big, nobody (w.contexts c).scause big) refl
      ],
)
  where
    nobody : (cause : ℕ) → ltb (cause % 2 ^ 15) 16 ≡ false → default_for cause ≡ default_handler
    nobody cause e = ground arith
