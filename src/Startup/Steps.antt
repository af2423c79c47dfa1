-- ===== src/Startup/Steps.antt =====
-- src/kernel/utils/utils.c and setup_kernel_id_map of src/kernel/page_table/page_table.c: how the page
-- allocator and the identity map are set up. `image_start`, `image_end`, `idmap_pg_dir_bitmap_start` and
-- `idmap_pg_dir_start` are symbols of the linker script; the variable kernel_base_va is an argument, and what is printed is left out.
use kernelite.Base.{ℕ, zero, suc, ◌+◌, ◌*◌, Bool, true, false, Option, none, some, List, [], ◌∷◌}
use kernelite.Base.{ltb, ◌==◌, ◌!=◌, if◌then◌else◌, u64, sub64, Mem}
use kernelite.MemLayout.{va_to_pa, pa_to_va}
use kernelite.PageAllocator.Chunk.{Chunk, page_size, num_pages}
use kernelite.PageAllocator.Regions.{
  page_allocator_add_region, page_allocator_remove_region, reserve_page, page_alloc,
}
use kernelite.Fdt.Tree.{Fdt, check_fdt, fdt_is_error}
use kernelite.Fdt.Memory.{MemoryMap, get_mem}
use kernelite.PageTable.Layout.{PagePermissions, device, normal}
use kernelite.PageTable.Map.{map_page}

-- ID_MAP_NUM_PAGES and ID_MAP_SIZE
abbrev pub id_map_num_pages : ℕ
id_map_num_pages = 6

abbrev pub id_map_size : ℕ
id_map_size = id_map_num_pages * page_size

-- `kernel_exe_perms`, and the permissions of the serial device.
abbrev pub kernel_exe_perms : PagePermissions
kernel_exe_perms = record { read = true; write = true; execute = true; user_accessible = false }

abbrev pub serial_perms : PagePermissions
serial_perms = record { read = true; write = true; execute = false; user_accessible = false }

module _ (image_start image_end kernel_base_va : ℕ) where
  unfoldable pub get_image_size : ℕ
  get_image_size = sub64 image_end image_start

  unfoldable pub reserve_kernel_img_pages : List Chunk → Mem → Bool × Mem
  unfolding get_image_size
  reserve_kernel_img_pages cs m =
      reserve_page (va_to_pa kernel_base_va image_start) (num_pages get_image_size) cs m

  -- fdt_totalsize is libfdt's and reads the header of the tree from memory as it is then.
  unfoldable pub reserve_fdt_pages : (Mem → ℕ) → ℕ → List Chunk → Mem → Bool × Mem
  reserve_fdt_pages fdt_totalsize fdt_addr cs m =
      reserve_page (va_to_pa kernel_base_va fdt_addr) (num_pages (fdt_totalsize m)) cs m

  -- The loop of setup_page_allocator over the regions.
  unfoldable pub add_regions : MemoryMap → List Chunk → Mem → Bool × List Chunk × Mem
  add_regions [] cs m = (true, cs, m)
  add_regions (region ∷ mmap) cs m =
      let (ok, cs', m') =
        page_allocator_add_region image_start image_end kernel_base_va region.base region.size true
          cs m in
      let rest = add_regions mmap cs' m' in if ok then rest else (false, cs', m')

  -- From the point where the regions have been added: the image, then the tree.
  unfoldable pub reserve_all : (Mem → ℕ) → ℕ → List Chunk → Mem → Bool × Mem
  reserve_all fdt_totalsize fdt_addr cs m =
      let (image_ok, m') = reserve_kernel_img_pages cs m in
      let rest = reserve_fdt_pages fdt_totalsize fdt_addr cs m' in
      if image_ok then rest else (false, m')

  unfoldable pub setup_regions :
      (Mem → ℕ) → ℕ → MemoryMap → List Chunk → Mem → Bool × List Chunk × Mem
  unfolding add_regions reserve_all
  setup_regions fdt_totalsize fdt_addr mmap cs m =
      let (added, cs', m') = add_regions mmap cs m in
      let (reserved, m'') = reserve_all fdt_totalsize fdt_addr cs' m' in
      if added then (reserved, cs', m'') else (false, cs', m')

  -- The tree at `fdt_addr` is `fdt` as long as get_mem reads it, before any bitmap is written; `none` is no fuel left in get_mem.
  unfoldable pub setup_page_allocator :
      ℕ → ℕ → Fdt → (Mem → ℕ) → ℕ → List Chunk → Mem → Option (Bool × List Chunk × Mem)
  unfolding setup_regions
  setup_page_allocator err_internal fuel fdt fdt_totalsize fdt_addr cs m =
      if check_fdt fdt
      then elim (get_mem err_internal fuel fdt []) [
        | none ↦ none
        | some (r, mmap) ↦ some (
            if fdt_is_error r
            then (false, cs, m)
            else setup_regions fdt_totalsize fdt_addr mmap cs m)
      ]
      else some (false, cs, m)

  -- The loop of setup_kernel_id_map over the pages of the image; `none` is no fuel left. Memory is
  -- that of the bitmaps and that of the tables.
  unfoldable pub map_image : ℕ → List Chunk → ℕ → ℕ → Mem × Mem → Option (Bool × (Mem × Mem))
  map_image zero cs root cur_vaddr st = none
  map_image (suc fuel) cs root cur_vaddr st =
      let (ok, st') =
        map_page kernel_base_va (page_alloc 1 cs) root cur_vaddr cur_vaddr kernel_exe_perms normal
          st in
      let rest = map_image fuel cs root (u64 (cur_vaddr + page_size)) st' in
      if ltb cur_vaddr image_end then (if ok then rest else some (false, st')) else some (true, st)

  -- The mapping of the serial device, and the removal of the chunk.
  unfoldable pub map_serial :
      ℕ → ℕ → ℕ → List Chunk → Bool × (Mem × Mem) → Bool × List Chunk × (Mem × Mem)
  map_serial idmap_start idmap_root serial cs (ok, st) =
      let (mapped, st') =
        map_page kernel_base_va (page_alloc 1 cs) idmap_root serial serial serial_perms device st in
      if ok
      then if mapped
        then (true, (page_allocator_remove_region idmap_start cs).1, st')
        else (false, cs, st')
      else (false, cs, st)

  -- From the point where the root has been allocated.
  unfoldable pub map_from_root :
      ℕ → ℕ → ℕ → ℕ → List Chunk → ℕ → Mem × Mem → Option (Bool × List Chunk × (Mem × Mem))
  unfolding map_image map_serial
  map_from_root fuel idmap_start idmap_root serial cs root st =
      elim (map_image fuel cs root image_start st) [
        | none ↦ none
        | some r ↦ some (map_serial idmap_start idmap_root serial cs r)
      ]

  unfoldable pub setup_kernel_id_map :
      ℕ → ℕ → ℕ → ℕ → List Chunk → Mem × Mem → Option (Bool × List Chunk × (Mem × Mem))
  unfolding map_from_root
  setup_kernel_id_map fuel idmap_start idmap_root serial cs (m, tm) =
      let (added, cs', m') =
        page_allocator_add_region image_start image_end kernel_base_va idmap_start
          (id_map_size + page_size) false cs m in
      let (root_phys, m'') = page_alloc 1 cs' m' in
      let root = pa_to_va kernel_base_va root_phys in
      if added
      then if root_phys == 0
        then some (false, cs', (m'', tm))
        else if root != idmap_root
        then some (false, cs', (m'', tm))
        else map_from_root fuel idmap_start idmap_root serial cs' root (m'', tm)
      else some (false, cs', (m', tm))
