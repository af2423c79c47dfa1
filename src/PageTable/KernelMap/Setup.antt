-- ===== src/PageTable/KernelMap/Setup.antt =====
-- src/kernel/page_table/page_table.c: the whole map that setup_kernel_map builds.
use kernelite.Base.{ℕ, ◌+◌, ◌%◌, ◌≤◌, ◌<◌, ◌≡◌, refl, ap, sym, ◌⊎◌, inl, inr, arith}
use kernelite.Base.{
  Mem, none, some, Bool, true, false, Bool-cases, [], ◌∷◌, ◌&&◌, ◌||◌, if◌then◌else◌,
}
use kernelite.MemLayout.{va_to_pa}
use kernelite.Fdt.Memory.{MemoryRegion, MemoryMap}
use kernelite.Base.{All}
use kernelite.PageTable.Map.{entry_at, page_table_init}
use kernelite.PageTable.Walk.{translate}
use kernelite.PageTable.Walk.Tree.{Frames, Tree, zero_entries-at}
use kernelite.PageTable.Walk.Root.{translate-none, root-Tree}
use kernelite.PageTable.Walk.Link.{IsBase}
use kernelite.PageTable.Remap.{page_of, within, Remap-trans}
use kernelite.PageTable.KernelMap.{map_mem_regions, setup_kernel_map}
use kernelite.PageTable.KernelMap.Linear.{
  Fits, first_page, end_page, linear, Linear, Good, map_mem_region-Progress,
}

-- Whether a region has the page.
unfoldable pub covered : MemoryMap → ℕ → Bool
covered [] n = false
covered (region ∷ mmap) n = within (first_page region) (end_page region) n || covered mmap n

or_comm : (a b : Bool) → (a || b) ≡ (b || a)
or_comm a b = ground arith

sub :
    (p c : Bool) (region : MemoryRegion) (k n : ℕ)
    → k ≤ end_page region
    → (p ≡ true → c ≡ true)
    → (p || within (first_page region) k n) ≡ true
    → (within (first_page region) (end_page region) n || c) ≡ true
sub p c region k n upto f e = elim (Bool-cases p) [
  | inl yes' ↦ let d : c ≡ true = f yes' in ground arith
  | inr no' ↦ ground arith
]

both : (p c : Bool) → (p ≡ true → c ≡ true) → (c && p) ≡ p
both p c f = elim (Bool-cases p) [
  | inl yes' ↦ let d : c ≡ true = f yes' in ground arith
  | inr no' ↦ ground arith
]

module _ (kernel_base_va : ℕ) (base : IsBase kernel_base_va) {S : Type 0} (F : Frames S)
    (image_start image_end root : ℕ) where
  -- What was mapped: pages of the regions, and all of them if `ok` is true.
  abbrev pub MapsSome : MemoryMap → Mem → Bool × (S × Mem) → Type 0
  MapsSome mmap before r =
      Good kernel_base_va base F image_start image_end root r.1
      × ((P : ℕ → Bool) × ((n : ℕ) → P n ≡ true → covered mmap n ≡ true)
          × (r.0 ≡ true → (n : ℕ) → P n ≡ covered mmap n)
          × Linear kernel_base_va base F image_start image_end root before r.1.1 P)

  map_mem_regions-MapsSome :
      (fuel : ℕ) (mmap : MemoryMap) (st : S × Mem)
      → Good kernel_base_va base F image_start image_end root st
      → All Fits mmap
      → All (λ region. end_page region < first_page region + fuel) mmap
      → (r : Bool × (S × Mem)) × (map_mem_regions kernel_base_va F.page_alloc image_start image_end
            root fuel mmap st
          ≡ some r)
        × MapsSome mmap st.1 r
  unfolding map_mem_regions covered
  map_mem_regions-MapsSome fuel [] st T fits enough =
      ((true, st), refl, (T, (λ n. false, λ n e. e, λ e n. refl, λ w. refl)))
  map_mem_regions-MapsSome fuel (region ∷ mmap) st T fits enough =
      let (r1, q1, (tree1, (k, from, upto, all, here))) =
        map_mem_region-Progress kernel_base_va base F image_start image_end root fuel region st T
          fits.0 enough.0 in
      elim (Bool-cases r1.0) [
        | inr stuck ↦ (
          r1,
          rw (q1, map_mem_regions, stuck) (ap some (λ i. (sym stuck i, r1.1))),
          (
            tree1,
            (within (first_page region) k, λ n e. ground (arith, upto), λ e. absurd (cc), here),
          ),
        )
        | inl fine ↦
            let (r2, q2, (tree2, (P, some', all2, later))) =
              map_mem_regions-MapsSome fuel mmap r1.1 tree1 fits.1 enough.1 in
            (
              r2,
              rw (q1, map_mem_regions, fine) q2,
              (
                tree2,
                (
                  λ n. P n || within (first_page region) k n,
                  λ n e. sub (P n) (covered mmap n) region k n upto (some' n) e,
                  λ e n.
                      rw (all2 e n, all fine)
                        (or_comm (covered mmap n) (within (first_page region) (end_page region) n)),
                  Remap-trans kernel_base_va root
                      (linear kernel_base_va base F image_start image_end root) st.1 r1.1.1 r2.1.1
                      (within (first_page region) k) P (λ n. P n || within (first_page region) k n)
                      here later (λ n. refl),
                ),
              ),
            )
      ]

  cleared-invalid : (tm : Mem) (i : ℕ) → i < 512 → page_table_init root tm (entry_at root i) ≡ 0
  unfolding page_table_init
  cleared-invalid tm i l = zero_entries-at root 512 0 tm i (omega arith) l

  cleared-translate :
      (tm : Mem) (w : ℕ) → translate kernel_base_va root w (page_table_init root tm) ≡ none
  cleared-translate tm w =
      translate-none kernel_base_va root (page_table_init root tm) (cleared-invalid tm) w

  -- The address space after a set-up: the pages for which P holds are mapped, and nothing else is.
  abbrev pub Exactly : (ℕ → Bool) → Mem → Type 0
  Exactly P tm =
      (w : ℕ)
      → translate kernel_base_va root w tm ≡ (
          if P (page_of w)
          then some (linear kernel_base_va base F image_start image_end root (page_of w))
          else none)

  -- The map that setup_kernel_map builds, whatever the memory held, for a list of at least one region, all aligned and ending below 2^48, and a root that is an
  -- aligned page in use. With more fuel than each region has pages it returns, and the tables are a tree. If it succeeds, the
  -- address space is exactly this: each page of a region is translated to the physical page with its number, and
  -- every other address is not translated; if it fails, some of the pages of the regions are translated so.
  pub setup_kernel_map-Exactly :
      (fuel : ℕ) (region : MemoryRegion) (mmap : MemoryMap) (s : S) (tm : Mem)
      → root % 4096 ≡ 0
      → F.in_use s (va_to_pa kernel_base_va root)
      → All Fits (region ∷ mmap)
      → All (λ r. end_page r < first_page r + fuel) (region ∷ mmap)
      → (r : Bool × (S × Mem)) × (setup_kernel_map kernel_base_va F.page_alloc image_start image_end
            root fuel
            (region ∷ mmap)
            (s, tm)
          ≡ some r)
        × Tree kernel_base_va (F.in_use r.1.0) root r.1.1
        × (((r.0 ≡ true) × Exactly (covered (region ∷ mmap)) r.1.1)
            ⊎ ((r.0 ≡ false)
                × ((P : ℕ → Bool) × Exactly (λ n. covered (region ∷ mmap) n && P n) r.1.1)))
  unfolding setup_kernel_map
  setup_kernel_map-Exactly fuel region mmap s tm aligned used fits enough =
      let (r, q, (tree, (P, some', all, mapped))) =
        map_mem_regions-MapsSome fuel (region ∷ mmap) (s, page_table_init root tm)
          (root-Tree kernel_base_va root (page_table_init root tm) (cleared-invalid tm) (F.in_use s)
            aligned used)
          fits enough in
      (
        r,
        q,
        tree,
        elim (Bool-cases r.0) [
          | inl ok ↦ inl (ok, λ w. rw (← all ok (page_of w), ← cleared-translate tm w) (mapped w))
          | inr failed ↦ inr (
            failed,
            (
              P,
              λ w.
                  rw
                    (
                      both (P (page_of w)) (covered (region ∷ mmap) (page_of w))
                          (some' (page_of w)),
                      ← cleared-translate tm w,
                    )
                    (mapped w),
            ),
          )
        ],
      )
