-- ===== src/Fdt.antt =====
-- src/kernel/fdt/fdt.c and src/include/fdt/fdt.h: what the kernel reads from the device tree.
pub mod Tree
pub mod Memory
pub mod Interrupts
pub mod Decode
pub mod Bounds
