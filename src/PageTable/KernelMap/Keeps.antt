-- ===== src/PageTable/KernelMap/Keeps.antt =====
-- What map_page does to the state of the allocator: nothing but calls of page_alloc.
use kernelite.Base.{
  ℕ, zero, suc, ◌+◌, Bool, true, false, ◌≡◌, Bool-cases, inl, inr, not, ◌==◌, ◌!=◌, ◌||◌,
}
use kernelite.Base.{bit_and, Mem, Option, none, some, [], ◌∷◌, ltb, u64}
use mathlib.Core.Path.{subst}
use kernelite.Base.{refl}
use kernelite.MemLayout.{kernel_base}
use kernelite.PageAllocator.Chunk.{page_size}
use kernelite.Fdt.Memory.{MemoryMap}
use kernelite.PageTable.Layout.{PagePermissions, MemType, normal, table_desc, page_value}
use kernelite.PageTable.Map.{
  allocate_new_table, get_next_level_table, descend, write_leaf, map_page, check_table_permissions,
  entry_at, page_table_init, table_index, leaf_desc,
}
use kernelite.PageTable.KernelMap.{
  region_perms, map_pages, map_mem_region, map_mem_regions, setup_kernel_map,
}

-- P is kept by each call of the allocator.
module _ (kernel_base_va : ℕ) {S : Type 0} (page_alloc : S → ℕ × S) (P : S → Type 0)
    (step : (s : S) → P s → P (page_alloc s).1) where
  get_next_level_table-keeps :
      (entry : ℕ) (perms : PagePermissions) (st : S × Mem)
      → P st.0
      → P (get_next_level_table kernel_base_va page_alloc entry perms st).1.0
  unfolding get_next_level_table allocate_new_table
  get_next_level_table-keeps entry perms (s, tm) h =
      elim (Bool-cases ((table_desc (tm entry)).valid == 0)) [
        | inl new ↦ elim (Bool-cases ((page_alloc s).0 == 0)) [
          | inl none' ↦ rw (new, none') (step s h)
          | inr granted ↦ rw (new, granted) (step s h)
        ]
        | inr old ↦
            elim (Bool-cases (not (check_table_permissions (table_desc (tm entry)) perms))) [
              | inl denied ↦ rw (old, denied) h
              | inr fine ↦ rw (old, fine) h
            ]
      ]

  descend-keeps :
      (perms : PagePermissions) (i : ℕ) (r : ℕ × (S × Mem))
      → P r.1.0
      → P (descend kernel_base_va page_alloc perms i r).1.0
  unfolding descend
  descend-keeps perms i (table, st) h = elim (Bool-cases (table == 0)) [
    | inl null ↦ rw null h
    | inr real ↦ rw real (get_next_level_table-keeps (entry_at table i) perms st h)
  ]

  write_leaf-keeps :
      (i leaf : ℕ) (r : ℕ × (S × Mem))
      → P r.1.0
      → P (write_leaf kernel_base_va page_alloc i leaf r).1.0
  unfolding write_leaf
  write_leaf-keeps i leaf (table, (s, tm)) h = elim (Bool-cases (table == 0)) [
    | inl null ↦ rw null h
    | inr real ↦ rw real h
  ]

  pub map_page-keeps :
      (root v p : ℕ) (perms : PagePermissions) (mt : MemType) (st : S × Mem)
      → P st.0
      → P (map_page kernel_base_va page_alloc root v p perms mt st).1.0
  unfolding map_page
  map_page-keeps root v p perms mt st h =
      elim (Bool-cases ((bit_and p 0xFFF != 0) || (bit_and v 0xFFF != 0))) [
        | inl unaligned ↦ rw unaligned h
        | inr aligned ↦
            let first = descend-keeps perms (table_index 39 v) (root, st) h in
            let second = descend-keeps perms (table_index 30 v) _ first in
            let third = descend-keeps perms (table_index 21 v) _ second in
            rw aligned
              (write_leaf-keeps (table_index 12 v) (page_value (leaf_desc p perms mt)) _ third)
      ]

  module _ (image_start image_end root : ℕ) where
    abbrev Kept : Option (Bool × (S × Mem)) → Type 0
    Kept none = Unit
    Kept (some r) = P r.1.0

    map_pages-keeps :
        (fuel cur end : ℕ) (st : S × Mem)
        → P st.0
        → Kept (map_pages kernel_base_va page_alloc image_start image_end root fuel cur end st)
    unfolding map_pages
    map_pages-keeps zero cur end st h = tt
    map_pages-keeps (suc fuel) cur end st h =
        let r =
          map_page kernel_base_va page_alloc root (u64 (cur + kernel_base)) cur
            (region_perms image_start image_end cur) normal st in
        let h' =
          map_page-keeps root (u64 (cur + kernel_base)) cur (region_perms image_start image_end cur)
            normal st h in
        elim (Bool-cases (ltb cur end)) [
          | inr done ↦ rw done h
          | inl more ↦ elim (Bool-cases r.0) [
            | inr stuck ↦ rw (more, stuck) h'
            | inl fine ↦ rw (more, fine) (map_pages-keeps fuel (u64 (cur + page_size)) end r.1 h')
          ]
        ]

    map_mem_regions-keeps :
        (fuel : ℕ) (mmap : MemoryMap) (st : S × Mem)
        → P st.0
        → Kept (map_mem_regions kernel_base_va page_alloc image_start image_end root fuel mmap st)
    unfolding map_mem_regions map_mem_region
    map_mem_regions-keeps fuel [] st h = h
    map_mem_regions-keeps fuel (region ∷ mmap) st h =
        go
          (map_pages kernel_base_va page_alloc image_start image_end root fuel region.base
            (u64 (region.base + region.size)) st)
          refl (map_pages-keeps fuel region.base (u64 (region.base + region.size)) st h)
          (λ st' h'. map_mem_regions-keeps fuel mmap st' h')
      where
        go :
            (o : Option (Bool × (S × Mem)))
            → map_pages kernel_base_va page_alloc image_start image_end root fuel region.base
                (u64 (region.base + region.size))
                st
              ≡ o
            → Kept o
            → ((st' : S × Mem)
                → P st'.0
                → Kept (
                    map_mem_regions kernel_base_va page_alloc image_start image_end root fuel mmap
                      st'))
            → Kept (
                map_mem_regions kernel_base_va page_alloc image_start image_end root fuel
                  (region ∷ mmap)
                  st)
        go none e h' rest = rw (e, map_mem_regions) tt
        go (some (true, st')) e h' rest = rw (e, map_mem_regions) (rest st' h')
        go (some (false, st')) e h' rest = rw (e, map_mem_regions) h'

    -- If setup_kernel_map returns, P still holds.
    pub setup_kernel_map-keeps :
        (fuel : ℕ) (mmap : MemoryMap) (st : S × Mem) (r : Bool × (S × Mem))
        → P st.0
        → setup_kernel_map kernel_base_va page_alloc image_start image_end root fuel mmap st
          ≡ some r
        → P r.1.0
    unfolding setup_kernel_map
    setup_kernel_map-keeps fuel [] (s, tm) r h e = subst Kept {x = some (false, (s, tm))} e h
    setup_kernel_map-keeps fuel (region ∷ mmap) (s, tm) r h e =
        subst Kept e (map_mem_regions-keeps fuel (region ∷ mmap) (s, page_table_init root tm) h)
