-- ===== src/Tests/Timer.antt =====
-- The system timer on the tree of Tests/Fdt, at 62.5 MHz, with a tick of 10 milliseconds.
use kernelite.Base.{ℕ, ◌+◌, ◌*◌, ◌/◌, ◌%◌, ◌^◌, ◌≡◌, refl, arith}
use kernelite.Base.{Bool, true, false, none, some, [], ◌∷◌}
use kernelite.Gicv3.Registers.{Memap}
use kernelite.Gicv3.Dispatch.{HandlerData}
use kernelite.Fdt.Interrupts.{Interrupt, level_high, interrupt_to_intid}
use kernelite.Timer.State.{CntpCtl, Timer, timer_isr}
use kernelite.Timer.Setup.{
  Machine, icu_handle_irq, timer_intid, enabled, setup_with, setup_sys_timer,
}
use kernelite.Timer.Ticks.{interrupts, fired, IsAfter, interrupts-IsAfter}
use kernelite.Timer.Outcome.{Outcome, IsTimerIntr, setup_sys_timer-Outcome}
use kernelite.Timer.Dispatch.{call, handle_irq-setup}
use kernelite.Tests.Fdt.{board, board-Advances, board-Descends}

abbrev virt : Memap
virt = record { dist_base = 0xFFFF_0000_0800_0000; redist_base = 0xFFFF_0000_080A_0000 }

abbrev tick : HandlerData
tick = record { handler = 2; private_data = 5 }

abbrev count_ticks : HandlerData → ℕ → ℕ
count_ticks h s = s + h.private_data

abbrev pending : CntpCtl
pending = record { is_enable = true; is_masked = false; is_condition_fulfilled = true }

abbrev stopped : Timer ℕ
stopped = record {
  period_ticks = 0;
  tick_handler = record { handler = 0; private_data = 0 };
  cntp_ctl = record { is_enable = false; is_masked = false; is_condition_fulfilled = false };
  cntp_cval = 0;
  system = 0;
}

abbrev running : Timer ℕ
running = record stopped {
  period_ticks = 625000;
  tick_handler = tick;
  cntp_ctl = enabled;
  cntp_cval = 700000;
}

abbrev machine : Machine ℕ
machine = (stopped, (λ n. none, λ a. 0))

abbrev ppi : ℕ → Interrupt
ppi n = record { type = 1; id = n; trigger = level_high }

-- Two ticks, and one interrupt that comes too early.
three_interrupts : (interrupts count_ticks (pending ∷ enabled ∷ pending ∷ []) running).system ≡ 10
unfolding interrupts timer_isr
three_interrupts = refl

interrupts-IsAfter_example :
    IsAfter count_ticks
      (fired (pending ∷ enabled ∷ pending ∷ []))
      running
      (interrupts count_ticks (pending ∷ enabled ∷ pending ∷ []) running)
interrupts-IsAfter_example =
    interrupts-IsAfter count_ticks (pending ∷ enabled ∷ pending ∷ []) running (omega arith)
      (refl, refl)

setup_sys_timer-Outcome_example :
    (r : Bool × Machine ℕ) × (setup_sys_timer virt 0 1 75000 62500000 13 201
        (some board)
        10
        tick
        machine
      ≡ some r)
    × Outcome virt 0 1 75000 62500000 10 tick machine (IsTimerIntr 13 201 board) r
setup_sys_timer-Outcome_example =
    setup_sys_timer-Outcome virt 0 1 75000 62500000 10 tick board 200 201 13 machine board-Advances
      board-Descends (omega arith)

intid_30 : timer_intid (ppi 14) ≡ some 30
unfolding timer_intid interrupt_to_intid
intid_30 = refl

handle_irq-setup_example :
    let (ok, (t', (table', regs'))) =
      setup_with virt 0 1 75000 62500000 10 tick (ppi 13 ∷ ppi 14 ∷ []) machine in
    let (t'', eoi, unmasked) =
      icu_handle_irq (call 1 (λ h t. t) count_ticks pending) 30 table' t' in
    (ok ≡ true)
    × (t''.cntp_cval ≡ (75000 + 2 * (62500000 * 10 / 1000)) % 2 ^ 64)
    × (t''.system ≡ 5)
    × (t''.cntp_ctl.is_enable ≡ true)
    × (t''.cntp_ctl.is_masked ≡ false)
    × (eoi ≡ some 30)
    × (unmasked ≡ false)
handle_irq-setup_example =
    handle_irq-setup virt 0 1 75000 62500000 10 30 tick (λ h t. t) count_ticks pending (ppi 13)
      (ppi 14) [] machine intid_30 (omega arith) (omega arith) refl
