-- ===== src/Timer/State.antt =====
-- src/kernel/drivers/arm_timer.c: the timer's variables and registers, its interrupt handler and its
-- period. What a tick handler does to the rest of the system is a parameter; it leaves the timer alone.
use kernelite.Base.{ℕ, ◌+◌, ◌-◌, ◌*◌, ◌/◌, ◌^◌, Bool, true, false, leb, u64, if◌then◌else◌}
use kernelite.Gicv3.Dispatch.{HandlerData}

-- CNTP_CTL_EL0. A write of `is_condition_fulfilled` is ignored by the hardware.
pub record CntpCtl : Type 0 where
  pub is_enable : Bool
  pub is_masked : Bool
  pub is_condition_fulfilled : Bool

-- `cntp_ctl` is the value written last, `system` the rest of the system.
pub record Timer (S : Type 0) : Type 0 where
  pub period_ticks : ℕ
  pub tick_handler : HandlerData
  pub cntp_ctl : CntpCtl
  pub cntp_cval : ℕ
  pub system : S

unfoldable pub write_ctl : {S : Type 0} → CntpCtl → Timer S → Timer S
write_ctl ctl t = record t { cntp_ctl = ctl }

unfoldable pub write_cval : {S : Type 0} → ℕ → Timer S → Timer S
write_cval cval t = record t { cntp_cval = cval }

unfoldable pub call_tick_handler : {S : Type 0} → (HandlerData → S → S) → Timer S → Timer S
call_tick_handler run t = record t { system = run t.tick_handler t.system }

-- `reg` is what the read of CNTP_CTL_EL0 gives.
unfoldable pub timer_isr : {S : Type 0} → (HandlerData → S → S) → CntpCtl → Timer S → Timer S
unfolding write_ctl write_cval call_tick_handler
timer_isr run reg t =
    let ticked = call_tick_handler run (write_ctl (record reg { is_masked = true }) t) in
    let next = write_cval (u64 (ticked.cntp_cval + ticked.period_ticks)) ticked in
    if reg.is_condition_fulfilled
    then write_ctl (record reg { is_enable = true; is_masked = false }) next
    else t

-- `freq` is CNTFRQ_EL0.
unfoldable pub set_period : {S : Type 0} → ℕ → ℕ → Timer S → Bool × Timer S
set_period freq period_ms t =
    let ticks = u64 (freq * period_ms) / 1000 in
    (leb ticks (2 ^ 32 - 1), record t { period_ticks = ticks })
