-- ===== src/Mmu.antt =====
-- src/kernel/mmu/mmu.c and src/include/mmu/mmu.h: the registers that turn the translation on.
pub mod Place
pub mod Tcr
pub mod Sctlr
pub mod Mair
pub mod Enable
pub mod Outcome
