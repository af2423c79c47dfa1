-- ===== src/Startup/Grants.antt =====
-- src/kernel/utils/utils.c and src/kernel/allocator/page_allocator.c: what the page allocator gives out after the
-- start-up has reserved its pages.
use kernelite.Base.{ℕ, ◌+◌, ◌*◌, ◌%◌, ◌≤◌, ◌<◌, ◌≡◌, ◌≢◌, ◌⊎◌, inl, inr, refl, arith}
use kernelite.Base.{List, [], ◌∷◌, All, Mem}
use native.Mathlib.Decide.{ℕ_discrete, dec_lt}
use kernelite.PageAllocator.Chunk.{Chunk, page_size}
use kernelite.PageAllocator.Regions.{page_alloc}
use kernelite.PageAllocator.Regions.Lookup.{Live, WellFormed}
use kernelite.PageAllocator.Regions.Calls.{Granted-of}
use kernelite.Startup.Header.{image_addr, image_pages}
use kernelite.Startup.Reserve.{Held, Granted-Held, Held-page_alloc, Reserved, tree_addr, tree_pages}

-- The addresses that a sequence of calls of page_alloc returns, each with the number of pages.
abbrev pub grants : List Chunk → List ℕ → Mem → List (ℕ × ℕ)
grants cs [] m = []
grants cs (k ∷ ks) m = let (p, m') = page_alloc k cs m in (p, k) ∷ grants cs ks m'

not_lt : {a b : ℕ} → ¬ (a < b) → b ≤ a
not_lt h = omega arith

-- A call returned null, or a range that does not meet the `n` pages at `s`.
abbrev pub Misses : ℕ → ℕ → ℕ × ℕ → Type 0
Misses s n (p, k) = (p ≡ 0) ⊎ ((p + k * page_size ≤ s) ⊎ (s + n * page_size ≤ p))

module _ (cs : List Chunk) (well : WellFormed cs)
    (aligned : (c : Chunk) → Live c cs → c.mem_base % page_size ≡ 0) (s n : ℕ)
    (on_page : s % page_size ≡ 0) (some' : n ≢ 0) where
  page_alloc-Misses :
      (k : ℕ) (m : Mem) → k ≢ 0 → Held cs m s n → Misses s n ((page_alloc k cs m).0, k)
  page_alloc-Misses k m hk h =
      let (p, m') = page_alloc k cs m in
      elim (ℕ_discrete p 0) [
        | yes null ↦ inl null
        | no real ↦
            let g = Granted-of cs k m m' p well hk refl real in
            let apart =
              Granted-Held cs k s n m p m' well g h (aligned h.by h.live) on_page hk some' in
            inr (elim (dec_lt s (p + k * page_size)) [
              | yes l ↦ inr (not_lt (apart l))
              | no l ↦ inl (not_lt l)
            ])
      ]

  grants-Misses :
      (ks : List ℕ) (m : Mem)
      → All (λ k. k ≢ 0) ks
      → Held cs m s n
      → All (Misses s n) (grants cs ks m)
  grants-Misses [] m hk h = tt
  grants-Misses (k ∷ ks) m hk h = (
    page_alloc-Misses k m hk.0 h,
    grants-Misses ks (page_alloc k cs m).1 hk.1 (Held-page_alloc k s n cs m h),
  )

-- Once the start-up has reserved the pages of the kernel image and of the device tree, both of
-- them at least one and at the start of a page, no call in a sequence of calls of page_alloc, each
-- for at least one page, is granted one of these pages.
pub grants-Reserved :
    (image_start image_end kernel_base_va fdt_addr fdt_size limit : ℕ) (cs : List Chunk) (m : Mem)
    (ks : List ℕ)
    → Reserved image_start image_end kernel_base_va fdt_addr fdt_size limit cs m
    → image_addr image_start kernel_base_va % page_size ≡ 0
    → image_pages image_start image_end kernel_base_va ≢ 0
    → tree_addr kernel_base_va fdt_addr % page_size ≡ 0
    → tree_pages fdt_size ≢ 0
    → All (λ k. k ≢ 0) ks
    → All
        (Misses
          (image_addr image_start kernel_base_va)
          (image_pages image_start image_end kernel_base_va))
        (grants cs ks m)
      × All (Misses (tree_addr kernel_base_va fdt_addr) (tree_pages fdt_size)) (grants cs ks m)
grants-Reserved image_start image_end kernel_base_va fdt_addr fdt_size limit cs m ks R i hi t ht
      hk =
    (
      grants-Misses cs R.well R.aligned _ _ i hi ks m hk R.image,
      grants-Misses cs R.well R.aligned _ _ t ht ks m hk R.tree,
    )
