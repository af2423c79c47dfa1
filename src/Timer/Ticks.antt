-- ===== src/Timer/Ticks.antt =====
-- src/kernel/drivers/arm_timer.c: what a series of timer interrupts does.
use kernelite.Base.{ℕ, zero, suc, ◌+◌, ◌*◌, ◌%◌, ◌^◌, ◌≤◌, ◌<◌, ◌≡◌, refl, arith}
use kernelite.Base.{true, false, List, [], ◌∷◌, Bool-cases, inl, inr, leb, u64, if◌then◌else◌}
use kernelite.Gicv3.Dispatch.{HandlerData}
use kernelite.Timer.State.{CntpCtl, Timer, timer_isr, set_period}

-- One interrupt for each value that is read from CNTP_CTL_EL0.
unfoldable pub interrupts : {S : Type 0} → (HandlerData → S → S) → List CntpCtl → Timer S → Timer S
interrupts run [] t = t
interrupts run (reg ∷ regs) t = interrupts run regs (timer_isr run reg t)

-- Those where the timer's condition was met.
unfoldable pub fired : List CntpCtl → ℕ
fired [] = 0
fired (reg ∷ regs) = let n = fired regs in if reg.is_condition_fulfilled then suc n else n

unfoldable pub iterate : {S : Type 0} → ℕ → (S → S) → S → S
iterate zero f s = s
iterate (suc n) f s = iterate n f (f s)

abbrev pub IsRunning : {S : Type 0} → Timer S → Type 0
IsRunning t = (t.cntp_ctl.is_enable ≡ true) × (t.cntp_ctl.is_masked ≡ false)

-- The state that `n` ticks lead to.
abbrev pub IsAfter : {S : Type 0} → (HandlerData → S → S) → ℕ → Timer S → Timer S → Type 0
IsAfter run n t t' =
    (t'.cntp_cval ≡ (t.cntp_cval + n * t.period_ticks) % 2 ^ 64)
    × (t'.system ≡ iterate n (run t.tick_handler) t.system)
    × IsRunning t'

abbrev pub IsTick : {S : Type 0} → (HandlerData → S → S) → Timer S → Timer S → Type 0
IsTick run t t' =
    (t'.cntp_cval ≡ (t.cntp_cval + t.period_ticks) % 2 ^ 64)
    × (t'.system ≡ run t.tick_handler t.system)
    × (t'.period_ticks ≡ t.period_ticks)
    × (t'.tick_handler ≡ t.tick_handler)
    × IsRunning t'

pub timer_isr-IsTick :
    {S : Type 0} (run : HandlerData → S → S) (reg : CntpCtl) (t : Timer S)
    → reg.is_condition_fulfilled ≡ true
    → IsTick run t (timer_isr run reg t)
unfolding timer_isr
timer_isr-IsTick run reg t met = rw met (refl, refl, refl, refl, (refl, refl))

timer_isr-early :
    {S : Type 0} (run : HandlerData → S → S) (reg : CntpCtl) (t : Timer S)
    → reg.is_condition_fulfilled ≡ false
    → timer_isr run reg t ≡ t
unfolding timer_isr
timer_isr-early run reg t early = rw early refl

fired-met :
    (reg : CntpCtl) (regs : List CntpCtl)
    → reg.is_condition_fulfilled ≡ true
    → fired (reg ∷ regs) ≡ suc (fired regs)
unfolding fired
fired-met reg regs met = rw met refl

fired-early :
    (reg : CntpCtl) (regs : List CntpCtl)
    → reg.is_condition_fulfilled ≡ false
    → fired (reg ∷ regs) ≡ fired regs
unfolding fired
fired-early reg regs early = rw early refl

IsAfter-tick :
    {S : Type 0} (run : HandlerData → S → S) (n : ℕ) (t t1 t2 : Timer S)
    → IsTick run t t1
    → IsAfter run n t1 t2
    → IsAfter run (suc n) t t2
unfolding iterate
IsAfter-tick run n t t1 t2 (cval, system, period, handler, running) (cval', system', running') =
    (rw (cval', cval, period) (omega arith), rw (system', system, handler) refl, running')

-- The comparison value does not drift: after any interrupts on a running timer it has moved on by the period once
-- for each of them where the condition was met, as a 64-bit number, the tick handler has run as often,
-- and the timer still runs unmasked.
pub interrupts-IsAfter :
    {S : Type 0} (run : HandlerData → S → S) (regs : List CntpCtl) (t : Timer S)
    → t.cntp_cval < 2 ^ 64
    → IsRunning t
    → IsAfter run (fired regs) t (interrupts run regs t)
unfolding interrupts iterate fired
interrupts-IsAfter run [] t l on = (omega arith, refl, on)
interrupts-IsAfter run (reg ∷ regs) t l on = elim (Bool-cases reg.is_condition_fulfilled) [
  | inr early ↦
      rw (fired-early reg regs early, interrupts, timer_isr-early run reg t early)
        (interrupts-IsAfter run regs t l on)
  | inl met ↦
      let tick = timer_isr-IsTick run reg t met in
      rw (fired-met reg regs met) (
        IsAfter-tick run (fired regs) t (timer_isr run reg t)
          (interrupts run regs (timer_isr run reg t)) tick
          (interrupts-IsAfter run regs (timer_isr run reg t) (omega (arith, tick.0)) tick.4))
]

-- A period whose product with the frequency is a 64-bit number is stored as the ticks that fit in it,
-- and is accepted exactly if these are a 32-bit number.
set_period_lem :
    {S : Type 0} (freq period_ms : ℕ) (t : Timer S)
    → freq * period_ms < 2 ^ 64
    → let (ok, t') = set_period freq period_ms t in
      (t'.period_ticks * 1000 ≤ freq * period_ms)
      × (freq * period_ms < (t'.period_ticks + 1) * 1000)
      × (ok ≡ leb (t'.period_ticks + 1) (2 ^ 32))
unfolding set_period
set_period_lem freq period_ms t l =
    let whole : u64 (freq * period_ms) ≡ freq * period_ms = omega arith in
    rw whole (omega arith, omega arith, ground arith)
