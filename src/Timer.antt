-- ===== src/Timer.antt =====
-- The system timer: src/kernel/timer/timer.c and src/kernel/drivers/arm_timer.c.
pub mod State
pub mod Setup
pub mod Ticks
pub mod Outcome
pub mod Dispatch
