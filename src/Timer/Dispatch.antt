-- ===== src/Timer/Dispatch.antt =====
-- src/kernel/drivers/arm_timer.c with src/kernel/drivers/gicv3.c: the interrupt of a timer that was
-- set up reaches the timer's routine.
use kernelite.Base.{ℕ, ◌+◌, ◌*◌, ◌/◌, ◌%◌, ◌^◌, ◌<◌, ◌≡◌, refl, ap, arith, ◌∙◌, ◌-◌}
use kernelite.Base.{true, false, ◌==◌, if◌then◌else◌, ◌||◌, Mem, some, List, ◌∷◌, leb, u64}
use kernelite.Gicv3.Registers.{Memap}
use kernelite.Gicv3.Dispatch.{
  HandlerData, DispatchTable, set_entry, configure_irq, gicv3_handle_irq, gicv3_register_irq,
}
use kernelite.Gicv3.Handlers.{configure_irq_succeeds}
use kernelite.Fdt.Interrupts.{Interrupt}
use kernelite.Timer.State.{CntpCtl, Timer, timer_isr, set_period}
use kernelite.Timer.Ticks.{timer_isr-IsTick}
use kernelite.Timer.Setup.{
  Machine, icu_handle_irq, timer_intid, private_handler, enabled, setup_isr, setup_with,
}

-- A call of a handler by its address: `isr` is timer_isr, and `others` are all the others.
unfoldable pub call :
    {S : Type 0}
    → ℕ
    → (HandlerData → Timer S → Timer S)
    → (HandlerData → S → S)
    → CntpCtl
    → HandlerData
    → Timer S
    → Timer S
call isr others run reg h t = if h.handler == isr then timer_isr run reg t else others h t

-- The timer after a set-up.
abbrev armed : {S : Type 0} → ℕ → ℕ → HandlerData → Timer S → Timer S
armed now period handler t = record t {
  period_ticks = period;
  tick_handler = handler;
  cntp_ctl = enabled;
  cntp_cval = u64 (now + period);
}

setup_with-succeeds :
    {S : Type 0} (memap : Memap) (core isr now freq milliseconds id : ℕ) (handler : HandlerData)
    (secure intr : Interrupt) (intrs : List Interrupt) (t : Timer S) (table : DispatchTable)
    (regs : Mem)
    → timer_intid intr ≡ some id
    → id < 1020
    → freq * milliseconds < 1000 * 2 ^ 32
    → setup_with memap core isr now freq milliseconds handler
        (secure ∷ intr ∷ intrs)
        (t, (table, regs))
      ≡ (
        true,
        (
          armed now (freq * milliseconds / 1000) handler t,
          (set_entry id (some (private_handler isr)) table, (configure_irq memap core id regs).1),
        ),
      )
unfolding setup_with setup_isr set_period gicv3_register_irq
setup_with-succeeds memap core isr now freq milliseconds id handler secure intr intrs t table regs
      number l fits =
    let period : u64 (freq * milliseconds) / 1000 ≡ freq * milliseconds / 1000 = omega arith in
    let short : leb (u64 (freq * milliseconds) / 1000) (2 ^ 32 - 1) ≡ true = ground arith in
    let low : leb 1024 id ≡ false = ground arith in
    let icu : DispatchTable × Mem =
      (set_entry id (some (private_handler isr)) table, (configure_irq memap core id regs).1) in
    rw (short, number, setup_with, low, configure_irq_succeeds memap core id regs)
      (ap (λ p. (true, (armed now p handler t, icu))) period)

handle_irq-timer :
    {S : Type 0} (isr id : ℕ) (others : HandlerData → Timer S → Timer S) (run : HandlerData → S → S)
    (reg : CntpCtl) (table : DispatchTable) (t : Timer S)
    → id < 1020
    → icu_handle_irq
        (call isr others run reg)
        id
        (set_entry id (some (private_handler isr)) table)
        t
      ≡ (timer_isr run reg t, some id, false)
unfolding icu_handle_irq gicv3_handle_irq call set_entry
handle_irq-timer isr id others run reg table t l =
    let whole : id % 2 ^ 24 ≡ id = omega arith in
    let a : ((id == 1023) || (id == 1022)) ≡ false = ground arith in
    let b : leb 1024 id ≡ false = ground arith in
    let same_id : (id == id) ≡ true = ground arith in
    let same_isr : (isr == isr) ≡ true = ground arith in rw (whole, a, b, same_id, same_isr) refl

-- With an interrupt below 1020 and a period that fits, the set-up succeeds; the timer interrupt, taken when the condition is met,
-- then runs the tick handler once, moves the comparison value from one period after the set-up to two periods after it, leaves
-- the timer enabled, and is ended.
pub handle_irq-setup :
    {S : Type 0} (memap : Memap) (core isr now freq milliseconds id : ℕ) (handler : HandlerData)
    (others : HandlerData → Timer S → Timer S) (run : HandlerData → S → S) (reg : CntpCtl)
    (secure intr : Interrupt) (intrs : List Interrupt) (m : Machine S)
    → timer_intid intr ≡ some id
    → id < 1020
    → freq * milliseconds < 1000 * 2 ^ 32
    → reg.is_condition_fulfilled ≡ true
    → let (ok, (t', (table', regs'))) =
        setup_with memap core isr now freq milliseconds handler (secure ∷ intr ∷ intrs) m in
      let (t'', eoi, unmasked) = icu_handle_irq (call isr others run reg) id table' t' in
      (ok ≡ true)
      × (t''.cntp_cval ≡ (now + 2 * (freq * milliseconds / 1000)) % 2 ^ 64)
      × (t''.system ≡ run handler m.0.system)
      × (t''.cntp_ctl.is_enable ≡ true)
      × (t''.cntp_ctl.is_masked ≡ false)
      × (eoi ≡ some id)
      × (unmasked ≡ false)
handle_irq-setup memap core isr now freq milliseconds id handler others run reg secure intr intrs
      (t, (table, regs)) number l fits met =
    let after = armed now (freq * milliseconds / 1000) handler t in
    let (cval, system, _, _, (on, unmasked)) = timer_isr-IsTick run reg after met in
    rw
      (
        setup_with-succeeds memap core isr now freq milliseconds id handler secure intr intrs t
            table regs number l fits,
        handle_irq-timer isr id others run reg table after l,
      )
      (refl, cval ∙ omega arith, system, on, unmasked, refl, refl)
