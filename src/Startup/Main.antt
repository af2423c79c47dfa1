-- ===== src/Startup/Main.antt =====
-- src/kernel/main.c: main, up to the call of high_half_main. The console, the tests and the switch of the program counter
-- are left out; kernel_base_va is 0 all along.
use kernelite.Base.{ℕ, ◌+◌, Bool, false, Option, none, some, List, [], if◌then◌else◌, Mem}
use kernelite.MemLayout.{kernel_base}
use kernelite.PageAllocator.Chunk.{Chunk}
use kernelite.PageAllocator.Regions.{page_alloc}
use kernelite.Fdt.Tree.{Fdt, fdt_is_error}
use kernelite.Fdt.Memory.{MemoryMap, get_mem}
use kernelite.PageTable.Layout.{device}
use kernelite.PageTable.Map.{map_page}
use kernelite.PageTable.KernelMap.{setup_kernel_map}
use kernelite.Mmu.Enable.{SysRegs, enable_mmu}
use kernelite.Startup.Steps.{serial_perms, setup_page_allocator, setup_kernel_id_map}

abbrev pub uart0_base : ℕ
uart0_base = 0x0900_0000

-- The symbols of the linker script, as addresses.
pub record Symbols : Type 0 where
  pub image_start : ℕ
  pub image_end : ℕ
  pub idmap_pg_dir_bitmap_start : ℕ
  pub idmap_pg_dir_start : ℕ
  pub kernel_pg_dir_root_start : ℕ

-- The array of chunks, the memory of the bitmaps and of the tables, and the system registers.
pub record Machine : Type 0 where
  pub mem_chunks : List Chunk
  pub bitmaps : Mem
  pub tables : Mem
  pub regs : SysRegs

abbrev pub machine : List Chunk → Mem → Mem → SysRegs → Machine
machine cs m tm regs = record { mem_chunks = cs; bitmaps = m; tables = tm; regs = regs }

module _ (sym : Symbols) where
  -- The map of the UART and the MMU. `false` is `return 1`.
  unfoldable pub turn_on : List Chunk → Mem × Mem → SysRegs → Bool × Machine
  turn_on cs st regs =
      let (uart_mapped, (m', tm')) =
        map_page 0 (page_alloc 1 cs) sym.kernel_pg_dir_root_start (uart0_base + kernel_base)
          uart0_base serial_perms device st in
      let (on, regs') = enable_mmu 0 sym.idmap_pg_dir_start sym.kernel_pg_dir_root_start regs in
      if uart_mapped then (on, machine cs m' tm' regs') else (false, machine cs m' tm' regs)

  -- From setup_kernel_map on.
  unfoldable pub map_kernel :
      ℕ → MemoryMap → List Chunk → Mem × Mem → SysRegs → Option (Bool × Machine)
  unfolding turn_on
  map_kernel fuel mmap cs st regs =
      elim (setup_kernel_map 0 (page_alloc 1 cs) sym.image_start sym.image_end
        sym.kernel_pg_dir_root_start fuel mmap st) [
          | none ↦ none
          | some (ok, (m', tm')) ↦
              some (if ok then turn_on cs (m', tm') regs else (false, machine cs m' tm' regs))
        ]

  -- From get_mem on. fdt_totalsize reads the header of the tree at `fdt_addr` from memory as it is then.
  unfoldable pub set_up_memory :
      ℕ → ℕ → ℕ → Fdt → (Mem → ℕ) → ℕ → List Chunk → Mem × Mem → SysRegs → Option (Bool × Machine)
  unfolding map_kernel
  set_up_memory err_internal nodes fuel fdt fdt_totalsize fdt_addr cs (m, tm) regs =
      elim (get_mem err_internal nodes fdt []) [
        | none ↦ none
        | some (r, mmap) ↦
            (if fdt_is_error r
              then some (false, machine cs m tm regs)
              else elim (setup_page_allocator sym.image_start sym.image_end 0 err_internal nodes fdt
                  fdt_totalsize fdt_addr cs m) [
                    | none ↦ none
                    | some (ok, cs', m') ↦
                        (if ok
                          then map_kernel fuel mmap cs' (m', tm) regs
                          else some (false, machine cs' m' tm regs))
                  ])
      ]

  -- `nodes` is fuel for the walk through the device tree, and `fuel` for the loops over pages.
  unfoldable pub main : ℕ → ℕ → ℕ → Fdt → (Mem → ℕ) → ℕ → Machine → Option (Bool × Machine)
  unfolding set_up_memory
  main err_internal nodes fuel fdt fdt_totalsize fdt_addr start =
      elim (setup_kernel_id_map sym.image_start sym.image_end 0 fuel sym.idmap_pg_dir_bitmap_start
        sym.idmap_pg_dir_start uart0_base start.mem_chunks (start.bitmaps, start.tables)) [
          | none ↦ none
          | some (ok, cs, (m, tm)) ↦
              (if ok
                then set_up_memory err_internal nodes fuel fdt fdt_totalsize fdt_addr cs (m, tm)
                    start.regs
                else some (false, machine cs m tm start.regs))
        ]
