-- ===== src/Lib.antt =====
-- Kernelite, an AArch64 kernel: a verification library.
--
-- Parts and files. Paths of the source are from the repository's root.
--
-- * src/include/mem_layout, src/kernel/mem_layout/mem_layout.c is MemLayout: the kernel's base address and
--   the translations va_to_pa and pa_to_va. The variable kernel_base_va is an argument.
-- * src/kernel/allocator/page_allocator.c is PageAllocator. Chunk is memory_chunk_t (a record) with
--   the functions on one chunk (page_init_chunk, reserve_page_chunk, page_alloc_chunk,
--   page_free_chunk); Regions is the array mem_chunks with the functions of the header
--   (page_allocator_add_region, reserve_page, page_alloc, page_free and so on). The bitmap of a chunk stands
--   in memory, a function from addresses to bytes that each operation passes on. Bitmap, Scan, Alloc,
--   Init, Regions/Lookup and Regions/Calls hold the proofs.
-- * src/kernel/page_table/page_table.c and src/include/page_table/page_table.h are PageTable. Layout has
--   the descriptors, bit field by bit field, and Map has allocate_new_table, get_next_level_table
--   and map_page. Memory is a function from addresses to 64-bit words. page_alloc and
--   phy_to_virt reach map_page through the interface record Frames of PageTable/Walk. The
--   hardware's walk (translate, in PageTable/Walk) goes over four levels; it reads a table entry bit by bit, and a leaf
--   through the layout, wanting its valid, page and access bits.
--   KernelMap has map_mem_region and setup_kernel_map, KernelMap/Linear and KernelMap/Setup their proofs, with
--   the changes of a translation of Remap.
-- * src/kernel/allocator/kalloc.c is KernelHeap. State has the descriptors and management pages: a descriptor
--   for each address, the links between pages, and the state of the page allocator. Blocks has the operations, down to
--   kmalloc and kfree; page_alloc and page_free reach the proofs through the interface record Pages of
--   KernelHeap/Invariant. The other modules hold the proofs, one for each step of the operations.
-- * src/kernel/fdt/fdt.c and src/include/fdt/fdt.h are Fdt: Tree has the searches, Memory get_mem and
--   get_reg_property, Interrupts get_intr_property. The calls of libfdt are the fields of the record
--   Libfdt. Decode and Bounds hold the proofs. That the nodes of a search come at growing offsets (Advances) and that
--   a parent comes before its children (Descends) are hypotheses, from the layout of a flattened tree.
-- * src/kernel/drivers/arm_timer.c and src/kernel/timer/timer.c are Timer: State has the registers and timer_isr,
--   Setup the set-up, which calls Fdt and, through src/kernel/icu/icu.c, Gicv3. Ticks, Outcome and Dispatch
--   hold the proofs. The counter, its frequency and the value read from CNTP_CTL_EL0 are arguments; the tick handler
--   is a function on the rest of the system, so it does not touch the timer.
-- * src/kernel/drivers/gicv3.c and src/include/icu/icu.h are Gicv3: Registers has the addresses, Configure
--   the steps that set up and tear down one interrupt, Dispatch the table of handlers with
--   gicv3_register_irq, gicv3_unregister_irq and gicv3_handle_irq. The registers are the last words written to their
--   addresses; handlers, the acknowledged interrupt and the number of the core are arguments.
--   Window has map_continuous, which maps the registers, and Startup gicv3_init with its steps; what the hardware
--   answers to the two loops that wait for it is an argument. Lanes, Effects, Handlers, WindowMap and Wake hold the proofs.
-- * src/kernel/mmu/mmu.c and src/include/mmu/mmu.h are Mmu: Tcr, Sctlr and Mair have the fields of the system registers as bit
--   fields of a word (Place), Enable has enable_mmu and its steps. Outcome holds the proof, against the fields that the
--   architecture gives a walk of four levels.
-- * src/kernel/utils/utils.c, setup_kernel_id_map of src/kernel/page_table/page_table.c and main of src/kernel/main.c are Startup:
--   Steps has setup_page_allocator and setup_kernel_id_map, Main the function main up to the jump to the high half, HighHalf how high_half_main leaves the low one. They run
--   over the code of the other parts; Frames makes the page allocator of PageAllocator an instance of the interface
--   Frames of PageTable/Walk, and HeapPages makes it one of the interface Pages of KernelHeap/Invariant. Header, IdFrame, Pool, Regions, Reserve, IdMap,
--   Ready, Grants and Leave hold the proofs. The symbols of the linker script,
--   the device tree and the registers are arguments; fdt_totalsize is a function of memory as it is when the code calls it, since the bitmaps that are
--   written before may lie over the tree. The other reads of the tree come before any bitmap of a region is written.
-- * src/kernel/utils/kprintf.c is Console: Printf has putc, itoa and vprintf, over a console that keeps the characters in a list,
--   the texts and the buffer in memory, and the variadic arguments as a function. Digits, Output and Plain
--   hold the proofs.
-- * src/kernel/utils/string.c is Strings: Memory has memcpy, memmove, memset and memset_s over a memory of
--   bytes, Read the functions that only read, Moves and Texts the proofs.
-- * Base holds the shared names, the fixed widths and shifts of C and lt_wf; Bits the lemmas on
--   bit_and and bit_or, bit by bit. Tests holds runs of the code and examples of the theorems.
--
-- Numbers and loops. Values of type uint64_t, size_t and addresses are natural numbers, with the wrap-around
-- of the source written out (u64, u32, u8, sub64); the pointers of string.c are not wrapped, since C leaves that undefined. Loops that count are structural recursion on the number of
-- rounds that are left, so they end by construction. The loops that follow a list or a tree
-- in memory (KernelHeap, Fdt, Strings/Read), the loops over pages (PageTable/KernelMap, Gicv3/Window, Startup), the loops
-- of the console and the loops that wait for the interrupt controller, take fuel, one unit a round, and give `none` when it runs out; the theorems show
-- that more fuel than the lists or the texts are long, than the tree has bytes, than there are pages or digits, or than the hardware takes reads to answer, is enough
-- for a result.
--
-- Not modelled: the functions that only print (the dump functions, the messages of the other parts), assembly (the boot code, the
-- vectors, the jump to the high half), what main.c does once it has left the low half, caches, barriers and the TLB, interrupts that arrive in the
-- middle of an operation, exceptions, the device tree library, the linker script itself, and the UART. No hardware is
-- there to answer for them, or their effect is only text.
pub mod Base
pub mod Console
pub mod Bits
pub mod MemLayout
pub mod Mmu
pub mod PageAllocator
pub mod PageTable
pub mod KernelHeap
pub mod Fdt
pub mod Gicv3
pub mod Startup
pub mod Strings
pub mod Tests
pub mod Timer
