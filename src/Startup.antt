-- ===== src/Startup.antt =====
-- src/kernel/utils/utils.c, the start-up of src/kernel/main.c and setup_kernel_id_map of src/kernel/page_table/page_table.c.
pub mod Steps
pub mod Frames
pub mod Pool
pub mod Regions
pub mod Reserve
pub mod Leave
pub mod Main
pub mod Ready
pub mod Grants
pub mod HeapPages
pub mod Header
pub mod IdFrame
pub mod HighHalf
pub mod IdMap
