-- ===== src/KernelHeap.antt =====
-- src/kernel/allocator/kalloc.c: kmalloc and kfree over the page allocator.
pub mod State
pub mod Blocks
pub mod Members
pub mod Chains
pub mod Search
pub mod Invariant
pub mod Reserve
pub mod Find
pub mod Payload
pub mod Separate
pub mod Malloc
pub mod Unlink
pub mod Release
pub mod Free
pub mod Cycle
