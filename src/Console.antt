-- ===== src/Console.antt =====
-- src/kernel/utils/kprintf.c: formatted output.
pub mod Printf
pub mod Digits
pub mod Output
pub mod Plain
