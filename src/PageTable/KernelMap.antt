-- ===== src/PageTable/KernelMap.antt =====
-- src/kernel/page_table/page_table.c, the map of the kernel: map_mem_region and setup_kernel_map.
-- `image_start` and `image_end` are symbols of the linker script, and `kernel_map_root` is
-- get_kernel_map_root().
pub mod Linear
pub mod Setup
pub mod Keeps
use kernelite.Base.{
  ℕ, zero, suc, ◌+◌, Bool, true, false, ◌&&◌, not, Option, none, some, List, [], ◌∷◌,
}
use kernelite.Base.{ltb, leb, if◌then◌else◌, u64, Mem}
use kernelite.MemLayout.{kernel_base}
use kernelite.PageAllocator.Chunk.{page_size}
use kernelite.Fdt.Memory.{MemoryRegion, MemoryMap}
use kernelite.PageTable.Layout.{PagePermissions, normal}
use kernelite.PageTable.Map.{map_page, page_table_init}

-- Pages of the kernel image may be executed.
unfoldable pub region_perms : ℕ → ℕ → ℕ → PagePermissions
region_perms image_start image_end phy_addr = record {
  read = true;
  write = true;
  execute = leb image_start phy_addr && ltb phy_addr image_end;
  user_accessible = false;
}

module _ (kernel_base_va : ℕ) {S : Type 0} (page_alloc : S → ℕ × S)
    (image_start image_end root : ℕ) where
  -- The loop over the pages; `none` is no fuel left.
  unfoldable pub map_pages : ℕ → ℕ → ℕ → S × Mem → Option (Bool × (S × Mem))
  unfolding region_perms
  map_pages zero cur end st = none
  map_pages (suc fuel) cur end st =
      let (ok, st') =
        map_page kernel_base_va page_alloc root (u64 (cur + kernel_base)) cur
          (region_perms image_start image_end cur) normal st in
      let rest = map_pages fuel (u64 (cur + page_size)) end st' in
      if ltb cur end then (if ok then rest else some (false, st')) else some (true, st)

  unfoldable pub map_mem_region : ℕ → MemoryRegion → S × Mem → Option (Bool × (S × Mem))
  unfolding map_pages
  map_mem_region fuel region st = map_pages fuel region.base (u64 (region.base + region.size)) st

  unfoldable pub map_mem_regions : ℕ → MemoryMap → S × Mem → Option (Bool × (S × Mem))
  unfolding map_mem_region
  map_mem_regions fuel [] st = some (true, st)
  map_mem_regions fuel (region ∷ mmap) st = elim (map_mem_region fuel region st) [
    | none ↦ none
    | some (ok, st') ↦
        (let rest = map_mem_regions fuel mmap st' in if ok then rest else some (false, st'))
  ]

  unfoldable pub setup_kernel_map : ℕ → MemoryMap → S × Mem → Option (Bool × (S × Mem))
  unfolding map_mem_regions page_table_init
  setup_kernel_map fuel [] st = some (false, st)
  setup_kernel_map fuel (region ∷ mmap) (s, tm) =
      map_mem_regions fuel (region ∷ mmap) (s, page_table_init root tm)
