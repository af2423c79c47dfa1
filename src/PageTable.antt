-- ===== src/PageTable.antt =====
-- src/kernel/page_table/page_table.c
pub mod Layout
pub mod Fields
pub mod Map
pub mod Address
pub mod Walk
pub mod Leaf
pub mod Mapping
pub mod Remap
pub mod KernelMap
