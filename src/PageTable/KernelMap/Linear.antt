-- ===== src/PageTable/KernelMap/Linear.antt =====
-- src/kernel/page_table/page_table.c: what map_mem_region makes of the translation.
use kernelite.Base.{
  ℕ, zero, suc, ◌+◌, ◌*◌, ◌/◌, ◌%◌, ◌^◌, ◌≤◌, ◌<◌, ◌≡◌, refl, ap, sym, ◌∙◌, inl, inr, arith,
}
use kernelite.Base.{Mem, some, Bool, true, false, Bool-cases, ◌==◌, ◌&&◌, ltb, u64}
use kernelite.Base.{ltb→lt}
use kernelite.MemLayout.{kernel_base}
use kernelite.PageAllocator.Chunk.{page_size}
use kernelite.Fdt.Memory.{MemoryRegion}
use kernelite.PageTable.Layout.{PageDesc, normal}
use kernelite.PageTable.Map.{map_page, leaf_desc}
use kernelite.PageTable.Walk.Tree.{Frames, Tree}
use kernelite.PageTable.Walk.Link.{IsBase}
use kernelite.PageTable.Remap.{page_of, within, Remap, Remap-trans, Remap-congr, map_page-Remap}
use kernelite.PageTable.KernelMap.{region_perms, map_pages, map_mem_region}

-- A region whose start is aligned and that ends below 2^48.
abbrev pub Fits : MemoryRegion → Type 0
Fits region = (region.base % 4096 ≡ 0) × (region.base + region.size ≤ 2 ^ 48)

-- The pages of a region, from its first to the one after its last.
abbrev pub first_page : MemoryRegion → ℕ
first_page region = region.base / 4096

abbrev pub end_page : MemoryRegion → ℕ
end_page region = (region.base + region.size + 4095) / 4096

module _ (kernel_base_va : ℕ) (base : IsBase kernel_base_va) {S : Type 0} (F : Frames S)
    (image_start image_end root : ℕ) where
  -- The leaf of the physical page with number `n`.
  abbrev pub linear : ℕ → PageDesc
  linear n = leaf_desc (4096 * n) (region_perms image_start image_end (4096 * n)) normal

  -- From `before` to `after`, the pages of which P holds are mapped to the physical pages of the same number,
  -- and the translation of the others is as it was.
  abbrev pub Linear : Mem → Mem → (ℕ → Bool) → Type 0
  Linear = Remap kernel_base_va root linear

  abbrev pub Good : S × Mem → Type 0
  Good (s, tm) = Tree kernel_base_va (F.in_use s) root tm

  abbrev map_one : ℕ → S × Mem → Bool × (S × Mem)
  map_one i st =
      map_page kernel_base_va F.page_alloc root (u64 (4096 * i + kernel_base)) (4096 * i)
        (region_perms image_start image_end (4096 * i)) normal st

  map_page-Linear :
      (i : ℕ) (st : S × Mem)
      → i < 2 ^ 36
      → Good st
      → Good (map_one i st).1 × Linear st.1 (map_one i st).1.1 (λ n. (map_one i st).0 && (n == i))
  unfolding region_perms
  map_page-Linear i (s, tm) l T =
      let v = u64 (4096 * i + kernel_base) in
      map_page-Remap kernel_base_va root linear base F v (4096 * i) i
        (region_perms image_start image_end (4096 * i)) normal s tm refl (omega arith) refl T

  -- What a loop from page `i` to the page before `last` may have done: it stopped at page `k`, and `ok` says that this is
  -- the end.
  abbrev pub Progress : ℕ → ℕ → S × Mem → Bool × (S × Mem) → Type 0
  Progress i last st r =
      Good r.1
      × ((k : ℕ) × (i ≤ k) × (k ≤ last) × (r.0 ≡ true → k ≡ last) × Linear st.1 r.1.1 (within i k))

  map_pages-Progress :
      (fuel i end : ℕ) (st : S × Mem)
      → Good st
      → end ≤ 2 ^ 48
      → (end + 4095) / 4096 < i + fuel
      → i ≤ (end + 4095) / 4096
      → (r : Bool × (S × Mem)) × (map_pages kernel_base_va F.page_alloc image_start image_end root
            fuel
            (4096 * i)
            end
            st
          ≡ some r)
        × Progress i ((end + 4095) / 4096) st r
  unfolding map_pages
  map_pages-Progress zero i end st T fits enough low = absurd (omega arith)
  map_pages-Progress (suc fuel) i end st T fits enough low =
      elim (Bool-cases (ltb (4096 * i) end)) [
        | inr done ↦
            let empty : (n : ℕ) → within i i n ≡ false = λ n. ground arith in
            (
              (true, st),
              rw done refl,
              (T, (i, omega arith, low, λ e. ground arith, λ w. rw (empty (page_of w)) refl)),
            )
        | inl more ↦
            let (tree, linear') =
              map_page-Linear i st (omega (arith, ltb→lt (4096 * i) end more)) T in
            elim (Bool-cases (map_one i st).0) [
              | inr stuck ↦ (
                (false, (map_one i st).1),
                rw (more, stuck) refl,
                (
                  tree,
                  (
                    i,
                    omega arith,
                    low,
                    λ e. absurd (cc),
                    Remap-congr kernel_base_va root linear st.1 (map_one i st).1.1
                        (λ n. (map_one i st).0 && (n == i)) (within i i) linear'
                        (λ n. rw stuck (ground arith)),
                  ),
                ),
              )
              | inl fine ↦
                  let next : u64 (4096 * i + page_size) ≡ 4096 * suc i = omega arith in
                  let (r, q, (good, (k, from, upto, all, after))) =
                    map_pages-Progress fuel (suc i) end (map_one i st).1 tree fits (omega arith)
                      (omega (arith, ltb→lt (4096 * i) end more)) in
                  (
                    r,
                    rw (more, fine)
                        (ap
                            (λ c.
                              map_pages kernel_base_va F.page_alloc image_start image_end root fuel
                                c end (map_one i st).1)
                            next
                          ∙ q),
                    (
                      good,
                      (
                        k,
                        omega (arith, from),
                        upto,
                        all,
                        Remap-trans kernel_base_va root linear st.1 (map_one i st).1.1 r.1.1
                            (λ n. (map_one i st).0 && (n == i)) (within (suc i) k) (within i k)
                            linear' after (λ n. rw fine (ground (arith, from))),
                      ),
                    ),
                  )
            ]
      ]

  -- map_mem_region on a region that fits, with more fuel than it has pages, returns and keeps the tables a tree. The
  -- pages from the first of the region on, up to some page of it, are mapped to the physical pages with their numbers;
  -- if it succeeds these are all the pages of the region, and every other page is translated as before.
  pub map_mem_region-Progress :
      (fuel : ℕ) (region : MemoryRegion) (st : S × Mem)
      → Good st
      → Fits region
      → end_page region < first_page region + fuel
      → (r : Bool × (S × Mem)) × (map_mem_region kernel_base_va F.page_alloc image_start image_end
            root fuel region st
          ≡ some r)
        × Progress (first_page region) (end_page region) st r
  unfolding map_mem_region
  map_mem_region-Progress fuel region st T (aligned, fits) enough =
      let end : u64 (region.base + region.size) ≡ region.base + region.size = omega arith in
      let start : 4096 * first_page region ≡ region.base = omega arith in
      let (r, q, progress) =
        map_pages-Progress fuel (first_page region) (region.base + region.size) st T fits
          (omega arith) (omega arith) in
      (
        r,
        ap
              (λ e.
                map_pages kernel_base_va F.page_alloc image_start image_end root fuel region.base e
                  st)
              end
            ∙ ap
                (λ b.
                  map_pages kernel_base_va F.page_alloc image_start image_end root fuel b
                    (region.base + region.size) st)
                (sym start)
            ∙ q,
        progress,
      )
