-- ===== src/Timer/Setup.antt =====
-- src/kernel/timer/timer.c, the set-up functions of src/kernel/drivers/arm_timer.c, and the
-- registration of src/kernel/icu/icu.c they go through.
use kernelite.Base.{ℕ, ◌+◌, ◌-◌, ◌^◌, Bool, true, false, ltb, u64, if◌then◌else◌, Mem}
use kernelite.Base.{Option, none, some, List, [], ◌∷◌, inl, inr}
use kernelite.Gicv3.Registers.{Memap}
use kernelite.Gicv3.Dispatch.{
  HandlerData, DispatchTable, gicv3_register_irq, gicv3_unregister_irq, gicv3_handle_irq,
}
use kernelite.Fdt.Tree.{FdtInt, offset, error, Fdt, get_nodes_by_compatible}
use kernelite.Fdt.Interrupts.{Interrupt, interrupt_to_intid, get_intr_property}
use kernelite.Timer.State.{CntpCtl, Timer, write_ctl, write_cval, set_period}

abbrev pub max_timers : ℕ
max_timers = 10

abbrev pub max_timer_interrupts : ℕ
max_timer_interrupts = 4

-- The timer, the dispatch table and the registers of the interrupt controller.
abbrev pub Machine : Type 0 → Type 0
Machine S = Timer S × (DispatchTable × Mem)

unfoldable pub icu_register_irq :
    Memap → ℕ → ℕ → HandlerData → DispatchTable × Mem → Bool × (DispatchTable × Mem)
icu_register_irq memap core irq_num handler_data icu =
    gicv3_register_irq memap core irq_num (some handler_data) icu

unfoldable pub icu_unregister_irq : Memap → ℕ → ℕ → DispatchTable × Mem → DispatchTable × Mem
icu_unregister_irq memap core irq_num icu = gicv3_unregister_irq memap core irq_num icu

unfoldable pub icu_handle_irq :
    {S : Type 0} → (HandlerData → S → S) → ℕ → DispatchTable → S → S × Option ℕ × Bool
icu_handle_irq run iar table s = gicv3_handle_irq run iar table s

-- The INTID of the interrupt as an int32_t: `none` is a negative number.
unfoldable pub timer_intid : Interrupt → Option ℕ
timer_intid intr = elim (interrupt_to_intid intr) [
  | none ↦ none
  | some id ↦ (if ltb (2 ^ 31 - 1) id then none else some id)
]

-- timer_isr at the address `isr`, with NULL.
abbrev pub private_handler : ℕ → HandlerData
private_handler isr = record { handler = isr; private_data = 0 }

abbrev pub enabled : CntpCtl
enabled = record { is_enable = true; is_masked = false; is_condition_fulfilled = false }

-- `now` is CNTPCT_EL0 and `freq` CNTFRQ_EL0.
module _ {S : Type 0} (memap : Memap) (core isr now freq : ℕ) where
  unfoldable pub setup_isr : ℕ → HandlerData → Machine S → Bool × Machine S
  unfolding icu_register_irq write_ctl write_cval
  setup_isr int_id handler (t, icu) =
      let (ok, icu') = icu_register_irq memap core int_id (private_handler isr) icu in
      if ok
      then (
        true,
        (
          write_ctl enabled
              (write_cval (u64 (now + t.period_ticks)) (record t { tick_handler = handler })),
          icu',
        ),
      )
      else (false, (record t { tick_handler = handler }, icu'))

  -- With the interrupts that were read; the second is the non-secure one.
  unfoldable pub setup_with : ℕ → HandlerData → List Interrupt → Machine S → Bool × Machine S
  unfolding set_period timer_intid setup_isr
  setup_with milliseconds handler [] m = (false, m)
  setup_with milliseconds handler (secure ∷ []) m = (false, m)
  setup_with milliseconds handler (secure ∷ intr ∷ others) (t, icu) =
      let (fits, t') = set_period freq milliseconds t in
      if fits
      then elim (timer_intid intr) as (λ _. Bool × Machine S) [
        | none ↦ (false, (t', icu))
        | some intid ↦ setup_isr intid handler (t', icu)
      ]
      else (false, (t', icu))

  unfoldable pub setup_arm64_sys_timer :
      ℕ → ℕ → Fdt → FdtInt → ℕ → HandlerData → Machine S → Option (Bool × Machine S)
  unfolding setup_with
  setup_arm64_sys_timer err_internal fuel none node milliseconds handler m = some (false, m)
  setup_arm64_sys_timer err_internal fuel (some t) (error e) milliseconds handler m =
      some (false, m)
  setup_arm64_sys_timer err_internal fuel (some t) (offset node) milliseconds handler m =
      elim (get_intr_property err_internal fuel (some t) (offset node) max_timer_interrupts) [
        | none ↦ none
        | some r ↦
            some
              (elim r [ inl e ↦ (false, m) | inr intrs ↦ setup_with milliseconds handler intrs m ])
      ]

  unfoldable pub setup_sys_timer :
      ℕ → ℕ → Fdt → ℕ → HandlerData → Machine S → Option (Bool × Machine S)
  unfolding setup_arm64_sys_timer
  setup_sys_timer err_internal fuel none milliseconds handler m = some (false, m)
  setup_sys_timer err_internal fuel (some t) milliseconds handler m =
      elim (get_nodes_by_compatible err_internal fuel (some t) "arm,armv8-timer" max_timers) [
        | none ↦ none
        | some r ↦ elim r [
          | inl e ↦ some (false, m)
          | inr nodes ↦ elim nodes [
            | [] ↦ some (false, m)
            | node ∷ others ↦ elim others [
              | [] ↦
                  setup_arm64_sys_timer err_internal fuel (some t) (offset node) milliseconds
                    handler m
              | _ ∷ _ ↦ some (false, m)
            ]
          ]
        ]
      ]
