-- ===== src/Startup/HighHalf.antt =====
-- src/kernel/main.c: how high_half_main leaves the low half of the address space. The console, the vector table, barriers and
-- the TLB are left out.
use kernelite.Base.{ℕ, ◌+◌, List, Mem}
use kernelite.MemLayout.{update_kernel_base_va, va_to_pa, pa_to_va}
use kernelite.PageAllocator.Chunk.{Chunk}
use kernelite.PageAllocator.Regions.{fixup_page_allocator, page_free}
use kernelite.Mmu.Enable.{disable_ttbr0}
use kernelite.Startup.Steps.{id_map_num_pages}
use kernelite.Startup.Main.{Symbols, Machine, machine}

-- Memory under high addresses: what the kernel's half shows of the memory that low addresses named.
abbrev pub seen_high : ℕ → Mem → Mem
seen_high kernel_base_va m a = m (va_to_pa kernel_base_va a)

-- The symbol is taken at the high program counter, so its address is a high one.
unfoldable pub free_id_map : ℕ → Symbols → List Chunk → Mem → Mem
free_id_map kernel_base_va sym cs m =
    let id_map_region = pa_to_va kernel_base_va sym.idmap_pg_dir_bitmap_start in
    page_free (va_to_pa kernel_base_va id_map_region) (id_map_num_pages + 1) cs m

unfoldable pub leave_low_half : Symbols → Machine → Machine
unfolding update_kernel_base_va free_id_map
leave_low_half sym g =
    let kernel_base_va = update_kernel_base_va 0 in
    let cs = fixup_page_allocator kernel_base_va g.mem_chunks in
    machine cs (free_id_map kernel_base_va sym cs (seen_high kernel_base_va g.bitmaps))
      (seen_high kernel_base_va g.tables) (disable_ttbr0 g.regs)
