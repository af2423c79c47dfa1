-- ===== src/Startup/Reserve.antt =====
-- src/kernel/utils/utils.c: the pages that the start-up reserves, and what becomes of them.
use kernelite.Base.{
  ℕ, ◌+◌, ◌-◌, ◌*◌, ◌/◌, ◌%◌, ◌^◌, ◌≤◌, ◌<◌, max, Bool, true, false, ◌≡◌, ◌≢◌, ◌⊎◌, inl, inr,
}
use kernelite.Base.{
  All-map, ◌∙◌, refl, sym, ap, arith, List, [], All, Option, none, some, Mem, u64, Bool-cases,
}
use mathlib.Core.Path.{subst}
use kernelite.MemLayout.{va_to_pa}
use kernelite.Fdt.Tree.{Libfdt, FdtInt, check_fdt, fdt_is_error}
use kernelite.Fdt.Memory.{MemoryMap, get_mem}
use kernelite.PageAllocator.Chunk.{Chunk, page_size, is_used, reserve_page_chunk, num_pages}
use kernelite.PageAllocator.Bitmap.{within}
use kernelite.PageAllocator.Alloc.{IsValid, page_of}
use kernelite.PageAllocator.Init.{Inside, reserve_page_chunk_lem}
use kernelite.PageAllocator.Regions.{reserve_page, reserve_in, find_chunk_for_address, page_alloc}
use kernelite.PageAllocator.Regions.Lookup.{Live, WellFormed, Owner, find_chunk_for_address-Owner}
use kernelite.PageAllocator.Regions.Calls.{Granted, Granted-bounds}
use kernelite.PageAllocator.Regions.Marks.{page_alloc-kept, reserve_page-kept}
use kernelite.Startup.Steps.{
  reserve_all, reserve_kernel_img_pages, reserve_fdt_pages, setup_regions, add_regions,
  setup_page_allocator,
}
use kernelite.Startup.Regions.{Below, Bounded, Fresh, Laid, Empty-Laid, add_regions-Laid}
use kernelite.Startup.Pool.{Empty}
use kernelite.Startup.Header.{image_addr, image_pages, Spared, ReadsHeader, kept_until_tree}

-- The `num` pages at `start` lie in a live chunk and are all in use.
pub record Held (cs : List Chunk) (m : Mem) (start num : ℕ) : Type 0 where
  pub by : Chunk
  pub live : Live by cs
  pub inside : Inside start num by
  pub used : (j : ℕ) → within (page_of by start) num j ≡ true → is_used by.bitmap m j ≡ true

reserve_page_chunk-Held :
    (start num : ℕ) (cs : List Chunk) (c : Chunk) (m : Mem)
    → Live c cs
    → IsValid c
    → start + num * page_size < 2 ^ 64
    → (reserve_page_chunk start num c m).0 ≡ true
    → Held cs (reserve_page_chunk start num c m).1 start num
reserve_page_chunk-Held start num cs c m live v small ok =
    let (is_inside, marks, _) = reserve_page_chunk_lem start num c m v small in
    record {
      by = c;
      live = live;
      inside = ground (arith, is_inside, ok);
      used = λ j w. ground (arith, marks j, is_inside, ok, w);
    }

reserve_in-Held :
    (start num : ℕ) (cs : List Chunk) (m : Mem) (o : Option Chunk)
    → ((c : Chunk) → Live c cs → IsValid c)
    → start + num * page_size < 2 ^ 64
    → Owner start cs o
    → (reserve_in start num m o).0 ≡ true
    → Held cs (reserve_in start num m o).1 start num
unfolding reserve_in
reserve_in-Held start num cs m none valid small owner ok = absurd (cc ok)
reserve_in-Held start num cs m (some c) valid small owner ok =
    reserve_page_chunk-Held start num cs c m owner.0 (valid c owner.0) small ok

-- A successful reservation leaves its pages in use.
reserve_page-Held :
    (start num : ℕ) (cs : List Chunk) (m : Mem)
    → ((c : Chunk) → Live c cs → IsValid c)
    → start + num * page_size < 2 ^ 64
    → (reserve_page start num cs m).0 ≡ true
    → Held cs (reserve_page start num cs m).1 start num
unfolding reserve_page
reserve_page-Held start num cs m valid small ok =
    reserve_in-Held start num cs m (find_chunk_for_address start cs) valid small
      (find_chunk_for_address-Owner start cs) ok

Held-reserve_page :
    (start num s n : ℕ) (cs : List Chunk) (m : Mem)
    → Held cs m s n
    → Held cs (reserve_page start num cs m).1 s n
Held-reserve_page start num s n cs m h = record {
  by = h.by;
  live = h.live;
  inside = h.inside;
  used = λ j w. reserve_page-kept h.by.bitmap j start num cs m (h.used j w);
}

pub Held-page_alloc :
    (num s n : ℕ) (cs : List Chunk) (m : Mem) → Held cs m s n → Held cs (page_alloc num cs m).1 s n
Held-page_alloc num s n cs m h = record {
  by = h.by;
  live = h.live;
  inside = h.inside;
  used = λ j w. page_alloc-kept h.by.bitmap j num cs m (h.used j w);
}

-- A grant has no page that is held.
pub Granted-Held :
    (cs : List Chunk) (k s n : ℕ) (m : Mem) (p : ℕ) (m' : Mem)
    → WellFormed cs
    → Granted cs k m p m'
    → (h : Held cs m s n) → h.by.mem_base % page_size ≡ 0
    → s % page_size ≡ 0
    → k ≢ 0
    → n ≢ 0
    → s < p + k * page_size
    → ¬ (p < s + n * page_size)
Granted-Held cs k s n m p m' w g h chunk_aligned aligned hk hn l l' =
    elim (w.separate g.from h.by g.live h.live) [
      | inl same ↦
          let base : g.from.mem_base ≡ h.by.mem_base = ap (λ (c : Chunk). c.mem_base) same in
          let j : ℕ = max g.given.index (page_of h.by s) in
          let taken : is_used g.from.bitmap m j ≡ true =
            subst (λ x. is_used x.bitmap m j ≡ true) (sym same)
              (h.used j (ground (arith, g.given.address, g.given.fit.fits, h.inside))) in
          let free : is_used g.from.bitmap m j ≡ false =
            g.given.fit.free j (omega arith) (omega (arith, g.given.address, h.inside)) in
          absurd (cc)
      | inr apart ↦
          let a : ℕ = max p s in
          let b = Granted-bounds cs k m p m' g in
          apart a (omega (arith, b, h.inside)) (omega (arith, b, h.inside))
    ]

-- The pages of the tree, as the source counts them.
abbrev pub tree_addr : ℕ → ℕ → ℕ
tree_addr kernel_base_va fdt_addr = va_to_pa kernel_base_va fdt_addr

abbrev pub tree_pages : ℕ → ℕ
tree_pages fdt_size = num_pages fdt_size

module _ (image_start image_end kernel_base_va fdt_addr fdt_size limit : ℕ) where
  -- A well-formed allocator of aligned chunks in which the image and the tree are held.
  pub record Reserved (cs : List Chunk) (m : Mem) : Type 0 where
    pub well : WellFormed cs
    pub aligned : (c : Chunk) → Live c cs → c.mem_base % page_size ≡ 0
    pub image :
        Held cs m
          (image_addr image_start kernel_base_va)
          (image_pages image_start image_end kernel_base_va)
    pub below : (c : Chunk) → Live c cs → c.mem_base + c.total_pages * page_size ≤ limit
    pub tree : Held cs m (tree_addr kernel_base_va fdt_addr) (tree_pages fdt_size)

  reserve_all-Reserved :
      (fdt_totalsize : Mem → ℕ) (done : MemoryMap) (cs : List Chunk) (m : Mem)
      → let r = reserve_all image_start image_end kernel_base_va fdt_totalsize fdt_addr cs m in
        fdt_totalsize (reserve_kernel_img_pages image_start image_end kernel_base_va cs m).1
          ≡ fdt_size
        → (image_addr image_start kernel_base_va)
            + (image_pages image_start image_end kernel_base_va) * page_size
          < 2 ^ 64
        → (tree_addr kernel_base_va fdt_addr) + (tree_pages fdt_size) * page_size < 2 ^ 64
        → Laid limit done cs
        → r.0 ≡ true
        → Reserved cs r.1
  unfolding reserve_all reserve_kernel_img_pages reserve_fdt_pages
  reserve_all-Reserved fdt_totalsize done cs m size image_small tree_small laid =
      let m' =
        (reserve_page (image_addr image_start kernel_base_va)
          (image_pages image_start image_end kernel_base_va) cs m).1 in
      elim (Bool-cases
        (reserve_page (image_addr image_start kernel_base_va)
          (image_pages image_start image_end kernel_base_va) cs m).0) [
            | inr failed ↦ rw failed (λ ok. absurd (cc))
            | inl image_ok ↦
                rw (image_ok, size)
                  (λ ok. record {
                    well = laid.well;
                    aligned = laid.aligned;
                    below = laid.below;
                    image =
                        Held-reserve_page (tree_addr kernel_base_va fdt_addr) (tree_pages fdt_size)
                          (image_addr image_start kernel_base_va)
                          (image_pages image_start image_end kernel_base_va) cs m'
                          (reserve_page-Held (image_addr image_start kernel_base_va)
                            (image_pages image_start image_end kernel_base_va) cs m laid.well.valid
                            image_small image_ok);
                    tree =
                        reserve_page-Held (tree_addr kernel_base_va fdt_addr) (tree_pages fdt_size)
                          cs m' laid.well.valid tree_small ok;
                  })
          ]

  setup_regions-Reserved :
      (fdt_totalsize : Mem → ℕ) (mmap : MemoryMap) (cs : List Chunk) (m : Mem)
      → let (ok, cs', m') =
          setup_regions image_start image_end kernel_base_va fdt_totalsize fdt_addr mmap cs m in
        kernel_base_va < 2 ^ 64
        → ReadsHeader fdt_totalsize fdt_addr
        → fdt_totalsize m ≡ fdt_size
        → ((a : ℕ) → fdt_addr ≤ a → a < fdt_addr + 8 → All (Spared kernel_base_va a) mmap)
        → (image_addr image_start kernel_base_va)
            + (image_pages image_start image_end kernel_base_va) * page_size
          < 2 ^ 64
        → (tree_addr kernel_base_va fdt_addr) + (tree_pages fdt_size) * page_size < 2 ^ 64
        → limit < 2 ^ 64
        → All (Below limit) mmap
        → Fresh [] mmap
        → Empty cs
        → (ok ≡ false) ⊎ ((ok ≡ true) × Reserved cs' m')
  unfolding setup_regions
  setup_regions-Reserved fdt_totalsize mmap cs m in_range reads size spared image_small tree_small
        limited bounded fresh empty =
      let (added, cs', m') = add_regions image_start image_end kernel_base_va mmap cs m in
      let (done, laid) =
        add_regions-Laid image_start image_end kernel_base_va limit mmap [] cs m limited bounded
          fresh (Empty-Laid limit cs empty) in
      elim (Bool-cases added) [
        | inr stuck ↦ rw stuck (inl refl)
        | inl fine ↦
            let r =
              reserve_all image_start image_end kernel_base_va fdt_totalsize fdt_addr cs' m' in
            let still : fdt_totalsize
                  (reserve_kernel_img_pages image_start image_end kernel_base_va cs' m').1
                ≡ fdt_size =
              reads m (reserve_kernel_img_pages image_start image_end kernel_base_va cs' m').1
                (λ a from upto.
                  kept_until_tree image_start image_end kernel_base_va a in_range mmap cs m
                    (All-map {P = Below limit} {Q = Bounded} mmap (λ r h. omega (arith, h, limited))
                      bounded)
                    (spared a from upto) (λ c l. absurd (empty c l)) laid.well.valid image_small)
              ∙ size in
            rw fine (elim (Bool-cases r.0) [
              | inr failed ↦ inl failed
              | inl ok ↦ inr (
                ok,
                reserve_all-Reserved fdt_totalsize done cs' m' still image_small tree_small laid ok,
              )
            ])
      ]

  -- setup_page_allocator, where get_mem returns a memory map whose regions end below a limit,
  -- itself below 2^64, and are apart, where the pages of the image and of the tree end below 2^64,
  -- and where no chunk is live yet; fdt_totalsize reads only the first 8 bytes of the tree, and these bytes are in none of
  -- the pages that the bitmaps of the regions take: it returns. If it gives true, the chunks are
  -- valid, aligned, below the limit and manage disjoint memory, and the pages of the kernel
  -- image, and as many pages from the one on where the device tree starts as its size has, rounded
  -- up, lie in a chunk and are in use. For a tree at a page boundary these are all of its pages.
  pub setup_page_allocator-Outcome :
      (err_internal fuel : ℕ) (t : Libfdt) (fdt_totalsize : Mem → ℕ) (cs : List Chunk) (m : Mem)
      (r : FdtInt) (mmap : MemoryMap)
      → kernel_base_va < 2 ^ 64
      → ReadsHeader fdt_totalsize fdt_addr
      → fdt_totalsize m ≡ fdt_size
      → ((a : ℕ) → fdt_addr ≤ a → a < fdt_addr + 8 → All (Spared kernel_base_va a) mmap)
      → get_mem err_internal fuel (some t) [] ≡ some (r, mmap)
      → limit < 2 ^ 64
      → All (Below limit) mmap
      → Fresh [] mmap
      → Empty cs
      → (image_addr image_start kernel_base_va)
          + (image_pages image_start image_end kernel_base_va) * page_size
        < 2 ^ 64
      → (tree_addr kernel_base_va fdt_addr) + (tree_pages fdt_size) * page_size < 2 ^ 64
      → (x : Bool × List Chunk × Mem) × (setup_page_allocator image_start image_end kernel_base_va
            err_internal fuel
            (some t)
            fdt_totalsize
            fdt_addr
            cs
            m
          ≡ some x)
        × ((x.0 ≡ false) ⊎ ((x.0 ≡ true) × Reserved x.1 x.2))
  unfolding setup_page_allocator
  setup_page_allocator-Outcome err_internal fuel t fdt_totalsize cs m r mmap in_range reads size
        spared got limited bounded fresh empty image_small tree_small =
      elim (Bool-cases (check_fdt (some t))) [
        | inr bad ↦ ((false, cs, m), rw bad refl, inl refl)
        | inl good ↦ elim (Bool-cases (fdt_is_error r)) [
          | inl bad ↦ ((false, cs, m), rw (good, got, bad) refl, inl refl)
          | inr fine ↦ (
            setup_regions image_start image_end kernel_base_va fdt_totalsize fdt_addr mmap cs m,
            rw (good, got, fine) refl,
            setup_regions-Reserved fdt_totalsize mmap cs m in_range reads size spared image_small
                tree_small limited bounded fresh empty,
          )
        ]
      ]

-- A tree that does not start at a page boundary, of a size that is a number of whole pages, in an
-- aligned valid chunk that manages its start, and ending more than a page below 2^64: it reaches
-- into one page more than reserve_fdt_pages counts, and the bit of that page is left as it was.
pub reserve_fdt_pages-tail :
    (image_start image_end kernel_base_va fdt_addr fdt_size : ℕ) (fdt_totalsize : Mem → ℕ)
    (cs : List Chunk) (c : Chunk) (m : Mem)
    → let a = tree_addr kernel_base_va fdt_addr in
      let m' =
        (reserve_fdt_pages image_start image_end kernel_base_va fdt_totalsize fdt_addr cs m).1 in
      fdt_totalsize m ≡ fdt_size
      → IsValid c
      → c.mem_base % page_size ≡ 0
      → find_chunk_for_address a cs ≡ some c
      → c.mem_base ≤ a
      → a % page_size ≢ 0
      → fdt_size % page_size ≡ 0
      → fdt_size ≢ 0
      → a + fdt_size + page_size < 2 ^ 64
      → is_used c.bitmap m' (page_of c (a + fdt_size - 1))
        ≡ is_used c.bitmap m (page_of c (a + fdt_size - 1))
unfolding reserve_fdt_pages reserve_page reserve_in num_pages
reserve_fdt_pages-tail image_start image_end kernel_base_va fdt_addr fdt_size fdt_totalsize cs c m
      size v aligned found low off whole some' small =
    let a = tree_addr kernel_base_va fdt_addr in
    let num : u64 (fdt_size + page_size - 1) / page_size ≡ fdt_size / page_size = omega arith in
    let r = reserve_page_chunk_lem a (fdt_size / page_size) c m v (omega arith) in
    let out : within (page_of c a) (fdt_size / page_size) (page_of c (a + fdt_size - 1)) ≡ false =
      ground arith in
    rw (size, found, num) (ground (arith, r.1 (page_of c (a + fdt_size - 1)), out))
