-- ===== src/Tests.antt =====
-- Runs on small inputs, and the theorems of the development at inputs that meet their hypotheses.
mod Pages
mod Paging
mod Interrupts
mod Strings
mod Fdt
mod Heap
mod Timer
mod Startup
mod Console
