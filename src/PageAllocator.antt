-- ===== src/PageAllocator.antt =====
-- src/kernel/allocator/page_allocator.c
pub mod Chunk
pub mod Bitmap
pub mod Scan
pub mod Alloc
pub mod Init
pub mod Regions
