-- ===== src/Tests/Paging.antt =====
-- Page tables over an allocator that hands out one page after another.
use kernelite.Base.{ℕ, ◌+◌, ◌*◌, ◌%◌, ◌^◌, ◌<◌, ◌≡◌, ◌≢◌, refl, arith}
use kernelite.Base.{Mem, some, true, false, ltb, if◌then◌else◌, ◌==◌}
use kernelite.MemLayout.{va_to_pa}
use kernelite.PageTable.Layout.{PagePermissions, device, table_desc, page_value}
use kernelite.PageTable.Map.{map_page, leaf_desc}
use kernelite.PageTable.Walk.Tree.{Frames, Tree}
use kernelite.PageTable.Walk.Link.{IsBase}
use kernelite.PageTable.Mapping.{Mapped, map_page-Mapped, leaf_desc_lem}
use kernelite.Base.{Bool, [], ◌∷◌, ◌⊎◌, ◌&&◌}
use kernelite.Fdt.Memory.{MemoryRegion}
use kernelite.Base.{◌≤◌, ◌/◌}
use kernelite.PageTable.Remap.{Remap, within}
use kernelite.Gicv3.Window.{map_continuous}
use kernelite.Gicv3.WindowMap.{first, shifted, map_continuous-Remap}
use kernelite.PageTable.KernelMap.{setup_kernel_map}
use kernelite.PageTable.KernelMap.Setup.{covered, Exactly, setup_kernel_map-Exactly}

abbrev next_page : ℕ → ℕ × ℕ
next_page s = if ltb s (2 ^ 36) then (s * 4096, s + 1) else (0, s)

pages_aligned : (s : ℕ) → (next_page s).0 % 4096 ≡ 0
pages_aligned s = ground arith

pages_small : (s : ℕ) → (next_page s).0 < 2 ^ 48
pages_small s = ground arith

pages_fresh : (s : ℕ) → (next_page s).0 ≢ 0 → ¬ ((next_page s).0 < s * 4096)
pages_fresh s h = ground arith

pages_granted : (s : ℕ) → (next_page s).0 ≢ 0 → (next_page s).0 < (next_page s).1 * 4096
pages_granted s h = ground arith

pages_kept : (s p : ℕ) → p < s * 4096 → p < (next_page s).1 * 4096
pages_kept s p h = ground arith

abbrev pages : Frames ℕ
pages = record {
  page_alloc = next_page;
  in_use = λ s p. p < s * 4096;
  aligned = pages_aligned;
  small = pages_small;
  fresh = pages_fresh;
  granted = pages_granted;
  kept = pages_kept;
}

abbrev empty : Mem
empty = λ a. 0

no_base : IsBase 0
no_base = omega arith

abbrev only_root : ℕ → ℕ
only_root t = if t == 0x1000 then 0 else 4

only_root-eq : (t : ℕ) → only_root t < 4 → t ≡ 0x1000
only_root-eq t h = ground arith

empty-Tree : Tree 0 (λ p. p < 2 * 4096) 0x1000 empty
unfolding va_to_pa table_desc
empty-Tree = record {
  level = only_root;
  slot = λ t. 0;
  top = refl;
  page = λ t h. ground (arith, only_root-eq t h);
  used = λ t h. ground (arith, only_root-eq t h);
  is_table = λ t i h k v. absurd (v refl);
  below = λ t i h k v. absurd (v refl);
  parent = λ t i h k v. absurd (v refl);
}

abbrev rw_perms : PagePermissions
rw_perms = record { read = true; write = true; execute = false; user_accessible = false }

map_page-Mapped_example :
    Mapped 0 no_base pages 0x1000 empty 0x4020_1000
      (some (leaf_desc 0x900_0000 rw_perms device))
      (map_page 0 next_page 0x1000 0x4020_1000 0x900_0000 rw_perms device (2, empty))
map_page-Mapped_example =
    map_page-Mapped 0 no_base pages 0x1000 0x4020_1000 0x900_0000 rw_perms device 2 empty empty-Tree

leaf_desc_lem_example :
    let w = page_value (leaf_desc 0x900_0000 rw_perms device) in
    (w % 2 ≡ 1)
    × (w / 2 % 2 ≡ 1)
    × (w / 2 ^ 10 % 2 ≡ 1)
    × (w / 2 ^ 12 % 2 ^ 36 * 2 ^ 12 ≡ 0x900_0000)
    × (w / 2 ^ 54 % 2 ≡ 1)
    × (w / 2 ^ 53 % 2 ≡ 1)
    × (w / 2 ^ 6 % 4 ≡ 0)
    × (w / 2 ^ 2 % 8 ≡ 0)
    × (w / 2 ^ 8 % 4 ≡ 0)
leaf_desc_lem_example = leaf_desc_lem 0x900_0000 rw_perms device (omega arith) (omega arith)

abbrev ram : MemoryRegion
ram = record { base = 0x4000_0000; size = 0x20_0000 }

root_used : 0x1000 < 2 * 4096
root_used = omega arith

setup_kernel_map-Exactly_example :
    (r : Bool × (ℕ × Mem)) × (setup_kernel_map 0 next_page 0x4008_0000 0x4009_0000 0x1000 600
        (ram ∷ [])
        (2, empty)
      ≡ some r)
    × Tree 0 (λ p. p < r.1.0 * 4096) 0x1000 r.1.1
    × (((r.0 ≡ true)
          × Exactly 0 no_base pages 0x4008_0000 0x4009_0000 0x1000 (covered (ram ∷ [])) r.1.1)
        ⊎ ((r.0 ≡ false)
            × ((P : ℕ → Bool) × Exactly 0 no_base pages 0x4008_0000 0x4009_0000 0x1000
                  (λ n. covered (ram ∷ []) n && P n)
                  r.1.1)))
unfolding va_to_pa
setup_kernel_map-Exactly_example =
    setup_kernel_map-Exactly 0 no_base pages 0x4008_0000 0x4009_0000 0x1000 600 ram [] 2 empty
      (omega arith) root_used ((omega arith, omega arith), tt) (omega arith, tt)

map_continuous-Remap_example :
    (r : Bool × (ℕ × Mem)) × (map_continuous 0 next_page 0x1000 rw_perms device 20
        (4096 * 0x8000)
        (4096 * 0xF_FFF0_0000_8000)
        0x10000
        (2, empty)
      ≡ some r)
    × Tree 0 (λ p. p < r.1.0 * 4096) 0x1000 r.1.1
    × ((k : ℕ) × (k ≤ (0x10000 + 4095) / 4096)
        × (((r.0 ≡ true) × (k ≡ (0x10000 + 4095) / 4096)) ⊎ (r.0 ≡ false))
        × Remap 0 0x1000
            (shifted 0 no_base pages 0x1000 rw_perms device 0x8000 0xF_FFF0_0000_8000)
            empty
            r.1.1
            (within
              (first 0 no_base pages 0x1000 rw_perms device 0x8000 0xF_FFF0_0000_8000)
              (first 0 no_base pages 0x1000 rw_perms device 0x8000 0xF_FFF0_0000_8000 + k)))
map_continuous-Remap_example =
    map_continuous-Remap 0 no_base pages 0x1000 rw_perms device 0x8000 0xF_FFF0_0000_8000 20 0x10000
      2 empty empty-Tree refl (omega arith) (omega arith) (omega arith) (omega arith) (omega arith)
