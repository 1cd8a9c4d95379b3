-- ===== src/Riscv/Cte/Dispatch.antt =====
-- Which handler a trap reaches.
use nexus_am_ame.Base.{
  ℕ, ◌*◌, ◌/◌, ◌%◌, ◌^◌, ◌<◌, ◌≡◌, arith, refl, sym, ap, ◌∙◌, bit_and, bit_and_low, bit_and_high,
  bit_and_comm, eq→==, lt→ltb, Bool-cases, Bool, true, false, inl, inr, Option, some, ltb, ◌==◌,
  ◌&&◌, if◌then◌else◌, guard, ◌>>=◌,
}
use nexus_am_ame.Riscv.Cte.{
  Event, event_null, World, Handler, Handlers, default_handler, ssip_handler, stip_handler,
  seip_handler, secall_handler, registered, get_cur_as, am_switch, run_handler, irq_handle,
  irq_handler_reg, put_handler, intr_bit,
}

-- A trap that is given to the handler `f`.
abbrev pub handle_by : Handlers → Handler → ℕ → World → Option (ℕ × World)
handle_by hs f c w =
    run_handler hs f event_null c (get_cur_as c w) >>= λ r. some (c, am_switch c r.1)

-- The entry for a cause: bit 63 says whether it is an interrupt.
abbrev pub handler_for : Handlers → ℕ → Handler
handler_for hs cause =
    if cause / 2 ^ 63 == 0
    then hs.exception_handler (cause % 2 ^ 15)
    else hs.interrupt_handler (cause % 2 ^ 15)

top_bit : (x : ℕ) → x < 2 ^ 64 → (bit_and x (2 ^ 63) == 0) ≡ (x / 2 ^ 63 == 0)
top_bit x h = ground (arith, bit_and_high 63 x 1, bit_and_low 1 (x / 2 ^ 63))

same_cause : (c : ℕ) (w : World) → ((get_cur_as c w).contexts c).scause ≡ (w.contexts c).scause
unfolding get_cur_as
same_cause c w = rw (eq→== c c refl) refl

-- Both branches of the handling under one test.
one_guard {ℓ κ} :
    {A : Type ℓ} {B : Type κ} (b g : Bool) (x y : Handler) (run : Handler → Option A)
    (k : A → Option B)
    → ((if b then guard g (run x) else guard g (run y)) >>= k)
      ≡ guard g (run (if b then x else y) >>= k)
one_guard true true x y run k = refl
one_guard true false x y run k = refl
one_guard false true x y run k = refl
one_guard false false x y run k = refl

pub irq_handle_lem :
    (hs : Handlers) (c : ℕ) (w : World)
    → (w.contexts c).scause < 2 ^ 64
    → irq_handle hs c w
      ≡ guard
          (ltb ((w.contexts c).scause % 2 ^ 15) 16)
          (handle_by hs (handler_for hs (w.contexts c).scause) c w)
unfolding irq_handle
irq_handle_lem hs c w h =
    let cause = (w.contexts c).scause in
    rw (same_cause c w, top_bit cause h, bit_and_low 15 cause)
      (one_guard (cause / 2 ^ 63 == 0) (ltb (cause % 2 ^ 15) 16)
        (hs.exception_handler (cause % 2 ^ 15)) (hs.interrupt_handler (cause % 2 ^ 15))
        (λ f. run_handler hs f event_null c (get_cur_as c w)) _)

-- The tables with one entry changed.
abbrev pub with_handler : ℕ → Handler → Handlers → Handlers
with_handler code f hs =
    if code / 2 ^ 63 == 0
    then record hs { exception_handler = put_handler hs.exception_handler (code % 2 ^ 63) f }
    else record hs { interrupt_handler = put_handler hs.interrupt_handler (code % 2 ^ 63) f }

pub irq_handler_reg_lem :
    (code : ℕ) (f : Handler) (hs : Handlers)
    → code < 2 ^ 64
    → code % 2 ^ 63 < 16
    → irq_handler_reg code f hs ≡ some (with_handler code f hs)
unfolding irq_handler_reg
irq_handler_reg_lem code f hs h small =
    let offset : code * 2 % 2 ^ 64 / 2 ≡ code % 2 ^ 63 = omega arith in
    rw (bit_and_comm intr_bit code, top_bit code h, offset, lt→ltb (code % 2 ^ 63) 16 small)
      (elim (Bool-cases (code / 2 ^ 63 == 0)) [ inl e ↦ rw e refl | inr e ↦ rw e refl ])

-- The handlers of the client are those of `hs`, whatever the tables hold.
abbrev pub with_tables : (ℕ → Handler) → (ℕ → Handler) → Handlers → Handlers
with_tables ints excs hs = record hs { interrupt_handler = ints; exception_handler = excs }

pub run_handler-with_tables :
    (ints excs : ℕ → Handler) (hs : Handlers) (g : Handler) (ev : Event) (c : ℕ) (w : World)
    → run_handler (with_tables ints excs hs) g ev c w ≡ run_handler hs g ev c w
unfolding run_handler
run_handler-with_tables ints excs hs default_handler ev c w = refl
run_handler-with_tables ints excs hs ssip_handler ev c w = refl
run_handler-with_tables ints excs hs stip_handler ev c w = refl
run_handler-with_tables ints excs hs seip_handler ev c w = refl
run_handler-with_tables ints excs hs secall_handler ev c w = refl
run_handler-with_tables ints excs hs (registered f) ev c w = refl

handle_by-with_handler :
    (code : ℕ) (f : Handler) (hs : Handlers) (g : Handler) (c : ℕ) (w : World)
    → handle_by (with_handler code f hs) g c w ≡ handle_by hs g c w
handle_by-with_handler code f hs g c w =
    ap (λ o. o >>= λ r. some (c, am_switch c r.1))
      (elim (Bool-cases (code / 2 ^ 63 == 0)) [
        | inl e ↦ rw e (run_handler-with_tables _ _ hs g event_null c (get_cur_as c w))
        | inr e ↦ rw e (run_handler-with_tables _ _ hs g event_null c (get_cur_as c w))
      ])

handler_for-with_handler :
    (code cause : ℕ) (f : Handler) (hs : Handlers)
    → code < 2 ^ 64
    → cause < 2 ^ 64
    → handler_for (with_handler code f hs) cause ≡ (
        if (cause / 2 ^ 63 == code / 2 ^ 63) && (cause % 2 ^ 15 == code % 2 ^ 63)
        then f
        else handler_for hs cause)
handler_for-with_handler code cause f hs h h' = ground arith

-- A guard that the test implies.
guard-choice :
    {A : Type 0} (test g : Bool) (x y : Handler) (run : Handler → Option A)
    → (test ≡ true → g ≡ true)
    → guard g (run (if test then x else y)) ≡ (if test then run x else guard g (run y))
guard-choice true g x y run h = ap (λ b. guard b (run x)) (h refl)
guard-choice false g x y run h = refl

-- After irq_handler_reg for a cause, a trap with that cause is given to the new handler, and
-- every other trap does what it did before. The causes are below 16, as interrupts or as
-- exceptions; of the cause that the processor reports, bit 63 and the low fifteen bits count.
pub irq_handler_reg-irq_handle :
    (code : ℕ) (f : Handler) (hs : Handlers) (c : ℕ) (w : World)
    → code < 2 ^ 64
    → code % 2 ^ 63 < 16
    → (w.contexts c).scause < 2 ^ 64
    → let cause = (w.contexts c).scause in
      (hs' : Handlers) × (irq_handler_reg code f hs ≡ some hs')
      × (irq_handle hs' c w ≡ (
          if (cause / 2 ^ 63 == code / 2 ^ 63) && (cause % 2 ^ 15 == code % 2 ^ 63)
          then handle_by hs f c w
          else irq_handle hs c w))
irq_handler_reg-irq_handle code f hs c w h small hw = (
  with_handler code f hs,
  irq_handler_reg_lem code f hs h small,
  irq_handle_lem (with_handler code f hs) c w hw
      ∙ ap (guard (ltb ((w.contexts c).scause % 2 ^ 15) 16))
          (handle_by-with_handler code f hs _ c w)
      ∙ ap (λ g. guard (ltb ((w.contexts c).scause % 2 ^ 15) 16) (handle_by hs g c w))
          (handler_for-with_handler code (w.contexts c).scause f hs h hw)
      ∙ guard-choice _ _ f (handler_for hs (w.contexts c).scause) (λ g. handle_by hs g c w)
          (in_range (w.contexts c).scause)
      ∙ ap
          (λ o.
            if ((w.contexts c).scause / 2 ^ 63 == code / 2 ^ 63)
              && ((w.contexts c).scause % 2 ^ 15 == code % 2 ^ 63)
            then handle_by hs f c w
            else o)
          (sym (irq_handle_lem hs c w hw)),
)
  where
    in_range :
        (cause : ℕ)
        → ((cause / 2 ^ 63 == code / 2 ^ 63) && (cause % 2 ^ 15 == code % 2 ^ 63)) ≡ true
        → ltb (cause % 2 ^ 15) 16 ≡ true
    in_range cause e = ground arith
