-- ===== src/Gicv3.antt =====
-- src/kernel/drivers/gicv3.c: configuration and dispatch of interrupts.
pub mod Registers
pub mod Configure
pub mod Dispatch
pub mod Lanes
pub mod Effects
pub mod Handlers
pub mod Startup
pub mod Wake
pub mod Window
pub mod WindowMap
