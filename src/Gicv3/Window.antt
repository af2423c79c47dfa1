-- ===== src/Gicv3/Window.antt =====
-- src/kernel/drivers/gicv3.c, map_continuous: a window of device memory in the kernel's address space.
-- `root` is get_kernel_map_root().
use kernelite.Base.{ℕ, zero, suc, ◌+◌, ◌%◌, Bool, true, false, Option, none, some, Mem}
use kernelite.Base.{ltb, ◌==◌, ◌!=◌, if◌then◌else◌, u64}
use kernelite.PageAllocator.Chunk.{page_size, align_up}
use kernelite.PageTable.Layout.{PagePermissions, MemType}
use kernelite.PageTable.Map.{map_page}

module _ (kernel_base_va : ℕ) {S : Type 0} (page_alloc : S → ℕ × S) (root : ℕ)
    (perms : PagePermissions) (mem_type : MemType) where
  -- The loop over the pages; `none` is no fuel left.
  unfoldable pub map_run : ℕ → ℕ → ℕ → ℕ → S × Mem → Option (Bool × (S × Mem))
  map_run zero p_start v_start end st = none
  map_run (suc fuel) p_start v_start end st =
      let (ok, st') = map_page kernel_base_va page_alloc root v_start p_start perms mem_type st in
      let rest = map_run fuel (u64 (p_start + page_size)) (u64 (v_start + page_size)) end st' in
      if ltb p_start end then (if ok then rest else some (false, st')) else some (true, st)

  -- `(size + PAGE_SIZE - 1) & ~(PAGE_SIZE - 1)` is the computation of align_up.
  unfoldable pub map_continuous : ℕ → ℕ → ℕ → ℕ → S × Mem → Option (Bool × (S × Mem))
  unfolding map_run align_up
  map_continuous fuel p_base v_base size st =
      let rounded = if size % page_size != 0 then align_up size else size in
      if p_base % page_size != 0
      then some (false, st)
      else if v_base % page_size != 0
      then some (false, st)
      else if size == 0
      then some (false, st)
      else map_run fuel p_base v_base (u64 (p_base + rounded)) st
