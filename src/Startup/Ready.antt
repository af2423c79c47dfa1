-- ===== src/Startup/Ready.antt =====
-- src/kernel/main.c: the state in which main hands over to high_half_main.
use kernelite.Base.{
  ℕ, ◌+◌, ◌-◌, ◌*◌, ◌/◌, ◌%◌, ◌^◌, ◌≤◌, ◌<◌, ◌≡◌, ◌≢◌, ◌⊎◌, inl, inr, refl, ap, ◌∙◌,
}
use kernelite.Base.{arith, Option, none, some, List, [], ◌∷◌, All, All-map, Mem, Bool, true, false}
use kernelite.Base.{Bool-cases, ◌==◌, ◌&&◌, if◌then◌else◌}
use kernelite.MemLayout.{kernel_base, va_to_pa}
use kernelite.Fdt.Tree.{Libfdt, FdtInt, fdt_is_error}
use kernelite.Fdt.Memory.{MemoryRegion, MemoryMap, get_mem}
use kernelite.PageAllocator.Chunk.{Chunk, page_size, num_pages}
use kernelite.PageAllocator.Alloc.{page_of}
use kernelite.PageAllocator.Regions.{page_alloc}
use kernelite.PageTable.Layout.{PageDesc, device, normal}
use kernelite.PageTable.Map.{map_page, leaf_desc, entry_at}
use kernelite.PageTable.Walk.{translate}
use kernelite.PageTable.Walk.Tree.{Tree}
use kernelite.PageTable.Walk.Link.{IsBase}
use kernelite.PageTable.Mapping.{map_page-Mapped}
use kernelite.PageTable.KernelMap.Linear.{Fits, first_page, end_page}
use kernelite.PageTable.KernelMap.Setup.{covered, Exactly, setup_kernel_map-Exactly}
use kernelite.PageTable.KernelMap.Keeps.{map_page-keeps, setup_kernel_map-keeps}
use kernelite.PageTable.KernelMap.{setup_kernel_map, region_perms}
use kernelite.PageTable.Remap
use kernelite.Mmu.Enable.{SysRegs}
use kernelite.Mmu.Outcome.{Configured, enable_mmu_lem}
use kernelite.Startup.Steps.{serial_perms, get_image_size, id_map_size}
use kernelite.Startup.Frames.{Marked, frames}
use kernelite.Startup.IdFrame.{setup_kernel_id_map-kept_byte}
use kernelite.Startup.Header.{Spared, ReadsHeader}
use kernelite.Startup.Reserve.{Held, Reserved, Held-page_alloc}
use kernelite.Startup.Reserve.{tree_addr, tree_pages, setup_page_allocator-Outcome}
use kernelite.Startup.Regions.{Below, Fresh}
use kernelite.Startup.Pool.{Empty}
use kernelite.Startup.IdMap.{setup_kernel_id_map-Identity}
use kernelite.Startup.Main.{
  Symbols, Machine, machine, uart0_base, turn_on, map_kernel, set_up_memory, main,
}

-- A page that is held is a page in use.
Held-Marked :
    (cs : List Chunk) (m : Mem) (s n p : ℕ) (h : Held cs m s n)
    → h.by.mem_base % page_size ≡ 0
    → s % page_size ≡ 0
    → s ≤ p
    → p < s + n * page_size
    → Marked cs m p
Held-Marked cs m s n p h chunk_aligned aligned low high = record {
  by = h.by;
  live = h.live;
  manages = omega (arith, h.inside);
  marked = h.used (page_of h.by p) (ground (arith, h.inside));
}

no_base : IsBase 0
no_base = omega arith

low_physical : (a : ℕ) → a < 2 ^ 48 → va_to_pa 0 a ≡ a
unfolding va_to_pa
low_physical a l = omega arith

-- The leaf of page `n` of the kernel's address space.
abbrev pub kernel_leaf : Symbols → MemoryMap → ℕ → Option PageDesc
kernel_leaf sym mmap n =
    if n == uart0_base / 4096
    then some (leaf_desc uart0_base serial_perms device)
    else if covered mmap n
    then some (leaf_desc (4096 * n) (region_perms sym.image_start sym.image_end (4096 * n)) normal)
    else none

-- The image and the tables in it are pages below 2^48.
pub record Placed (sym : Symbols) : Type 0 where
  pub start_aligned : sym.image_start % 4096 ≡ 0
  pub end_aligned : sym.image_end % 4096 ≡ 0
  pub end_low : sym.image_end ≤ 2 ^ 48
  pub root_aligned : sym.kernel_pg_dir_root_start % 4096 ≡ 0
  pub root_from : sym.image_start ≤ sym.kernel_pg_dir_root_start
  pub root_upto : sym.kernel_pg_dir_root_start + 4096 ≤ sym.image_end
  pub pool_aligned : sym.idmap_pg_dir_bitmap_start % 4096 ≡ 0
  pub pool_upto : sym.idmap_pg_dir_bitmap_start + (id_map_size + page_size) ≤ sym.image_end
  pub id_root_real : sym.idmap_pg_dir_start ≢ 0
  pub id_root_low : sym.idmap_pg_dir_start < 2 ^ 48
  pub root_real : sym.kernel_pg_dir_root_start ≢ 0

-- The pool of the identity map.
abbrev pub pool_region : Symbols → MemoryRegion
pool_region sym = record { base = sym.idmap_pg_dir_bitmap_start; size = id_map_size + page_size }

module _ (sym : Symbols) (placed : Placed sym) (fdt_addr fdt_size : ℕ) where
  abbrev pub ReservedIn : List Chunk → Mem → Type 0
  ReservedIn = Reserved sym.image_start sym.image_end 0 fdt_addr fdt_size (2 ^ 48)

  -- What the high half starts from.
  pub record Ready (mmap : MemoryMap) (r : Machine) : Type 0 where
    pub reserved : ReservedIn r.mem_chunks r.bitmaps
    pub configured : Configured r.regs
    pub low_root : r.regs.ttbr0_el1 ≡ sym.idmap_pg_dir_start
    pub high_root : r.regs.ttbr1_el1 ≡ sym.kernel_pg_dir_root_start
    pub space :
        (w : ℕ)
        → translate 0 sym.kernel_pg_dir_root_start w r.tables
          ≡ kernel_leaf sym mmap (Remap.page_of w)

  Reserved-page_alloc :
      (cs : List Chunk) (m : Mem) → ReservedIn cs m → ReservedIn cs (page_alloc 1 cs m).1
  Reserved-page_alloc cs m R = record {
    well = R.well;
    aligned = R.aligned;
    below = R.below;
    image = Held-page_alloc 1 _ _ cs m R.image;
    tree = Held-page_alloc 1 _ _ cs m R.tree;
  }

  root_used :
      (cs : List Chunk) (m : Mem)
      → ReservedIn cs m
      → Marked cs m (va_to_pa 0 sym.kernel_pg_dir_root_start)
  unfolding va_to_pa num_pages get_image_size
  root_used cs m R =
      Held-Marked cs m _ _ (va_to_pa 0 sym.kernel_pg_dir_root_start) R.image
        (R.aligned R.image.by R.image.live) (omega (arith, placed.start_aligned, placed.end_low))
        (omega (arith, placed.end_low)) (omega (arith, placed.end_low))

  turn_on-Ready :
      (mmap : MemoryMap) (cs : List Chunk) (m tm : Mem) (regs : SysRegs)
      → (R : ReservedIn cs m) → regs.sctlr_el1 < 2 ^ 64
      → Tree 0 (Marked cs m) sym.kernel_pg_dir_root_start tm
      → Exactly 0 no_base
          (frames cs R.well R.aligned R.below)
          sym.image_start
          sym.image_end
          sym.kernel_pg_dir_root_start
          (covered mmap)
          tm
      → let x = turn_on sym cs (m, tm) regs in (x.0 ≡ false) ⊎ ((x.0 ≡ true) × Ready mmap x.1)
  unfolding turn_on
  turn_on-Ready mmap cs m tm regs R small T exact =
      let F = frames cs R.well R.aligned R.below in
      let root = sym.kernel_pg_dir_root_start in
      let v = uart0_base + kernel_base in
      let r = map_page 0 (page_alloc 1 cs) root v uart0_base serial_perms device (m, tm) in
      let M = map_page-Mapped 0 no_base F root v uart0_base serial_perms device m tm T in
      let (on, configured, low, high, _, _, _) =
        enable_mmu_lem 0 sym.idmap_pg_dir_start root regs placed.id_root_real placed.root_real
          small in
      elim (Bool-cases r.0) [
        | inr stuck ↦ rw stuck (inl refl)
        | inl fine ↦ rw fine (
            inr (
              on,
              record {
                reserved =
                    map_page-keeps 0 (page_alloc 1 cs) (ReservedIn cs) (Reserved-page_alloc cs) root
                      v uart0_base serial_perms device (m, tm) R;
                configured = configured;
                low_root = low ∙ low_physical sym.idmap_pg_dir_start placed.id_root_low;
                high_root =
                    high ∙ low_physical root (omega (arith, placed.root_upto, placed.end_low));
                space = λ w.
                    M.translated w
                    ∙ ap
                        (λ b.
                          if b && (Remap.page_of w == uart0_base / 4096)
                          then some (leaf_desc uart0_base serial_perms device)
                          else translate 0 root w tm)
                        fine
                    ∙ ap
                        (λ o.
                          if Remap.page_of w == uart0_base / 4096
                          then some (leaf_desc uart0_base serial_perms device)
                          else o)
                        (exact w);
              },
            ))
      ]

  map_kernel-Ready :
      (fuel : ℕ) (mmap : MemoryMap) (cs : List Chunk) (m tm : Mem) (regs : SysRegs)
      → ReservedIn cs m
      → regs.sctlr_el1 < 2 ^ 64
      → All Fits mmap
      → All (λ r. end_page r < first_page r + fuel) mmap
      → (x : Bool × Machine) × (map_kernel sym fuel mmap cs (m, tm) regs ≡ some x)
        × ((x.0 ≡ false) ⊎ ((x.0 ≡ true) × Ready mmap x.1))
  unfolding map_kernel
  map_kernel-Ready fuel [] cs m tm regs R small fits enough =
      ((false, machine cs m tm regs), unfold setup_kernel_map in refl, inl refl)
  map_kernel-Ready fuel (region ∷ mmap) cs m tm regs R small fits enough =
      let root = sym.kernel_pg_dir_root_start in
      let F = frames cs R.well R.aligned R.below in
      let (r, q, tree, outcome) =
        setup_kernel_map-Exactly 0 no_base F sym.image_start sym.image_end root fuel region mmap m
          tm placed.root_aligned (root_used cs m R) fits enough in
      let R' : ReservedIn cs r.1.0 =
        setup_kernel_map-keeps 0 (page_alloc 1 cs) (ReservedIn cs) (Reserved-page_alloc cs)
          sym.image_start sym.image_end root fuel (region ∷ mmap) (m, tm) r R q in
      elim outcome [
        | inl (fine, exact) ↦ (
          turn_on sym cs r.1 regs,
          rw (q, map_kernel, fine) refl,
          turn_on-Ready (region ∷ mmap) cs r.1.0 r.1.1 regs R' small tree exact,
        )
        | inr (failed, _) ↦
            ((false, machine cs r.1.0 r.1.1 regs), rw (q, map_kernel, failed) refl, inl refl)
      ]

  set_up_memory-Ready :
      (err_internal nodes fuel : ℕ) (t : Libfdt) (fdt_totalsize : Mem → ℕ) (r : FdtInt)
      (mmap : MemoryMap) (cs : List Chunk) (m tm : Mem) (regs : SysRegs)
      → ReadsHeader fdt_totalsize fdt_addr
      → fdt_totalsize m ≡ fdt_size
      → ((a : ℕ) → fdt_addr ≤ a → a < fdt_addr + 8 → All (Spared 0 a) mmap)
      → regs.sctlr_el1 < 2 ^ 64
      → Empty cs
      → get_mem err_internal nodes (some t) [] ≡ some (r, mmap)
      → All Fits mmap
      → All (λ r. end_page r < first_page r + fuel) mmap
      → Fresh [] mmap
      → tree_addr 0 fdt_addr + tree_pages fdt_size * page_size < 2 ^ 64
      → (x : Bool × Machine) × (set_up_memory sym err_internal nodes fuel
            (some t)
            fdt_totalsize
            fdt_addr
            cs
            (m, tm)
            regs
          ≡ some x)
        × ((x.0 ≡ false) ⊎ ((x.0 ≡ true) × Ready mmap x.1))
  unfolding set_up_memory num_pages get_image_size va_to_pa
  set_up_memory-Ready err_internal nodes fuel t fdt_totalsize r mmap cs m tm regs reads size spared
        small empty got fits enough fresh tree_small =
      elim (Bool-cases (fdt_is_error r)) [
        | inl bad ↦ ((false, machine cs m tm regs), rw (got, set_up_memory, bad) refl, inl refl)
        | inr good ↦
            let (x, q, outcome) =
              setup_page_allocator-Outcome sym.image_start sym.image_end 0 fdt_addr fdt_size
                (2 ^ 48) err_internal nodes t fdt_totalsize cs m r mmap (omega arith) reads size
                spared got (omega arith)
                (All-map {P = Fits} {Q = Below (2 ^ 48)} mmap (λ r h. h.1) fits) fresh empty
                (omega
                  (arith, placed.start_aligned, placed.end_low, placed.root_from, placed.root_upto))
                tree_small in
            elim outcome [
              | inl failed ↦ (
                (false, machine x.1 x.2 tm regs),
                rw (got, set_up_memory, good, q, failed) refl,
                inl refl,
              )
              | inr (fine, R) ↦
                  let (y, e, ready) =
                    map_kernel-Ready fuel mmap x.1 x.2 tm regs R small fits enough in
                  (y, rw (got, set_up_memory, good, q, fine) e, ready)
            ]
      ]

  -- main, on an image of pages below 2^48 that holds the tables, with SCTLR_EL1 a 64-bit word, the
  -- root of the identity map all zero, no memory managed yet, a device tree from which get_mem
  -- reads regions that start at page boundaries, end below 2^48 and are apart, and whose pages end
  -- below 2^64; fdt_totalsize reads only the first 8 bytes of the tree, and these bytes are in none of the pages that the
  -- bitmaps of the regions and of the pool of the identity map take. With more fuel than the image and each
  -- region have pages it returns. If it hands over to the high half, the pages of the image, and as many pages from the one on
  -- where the device tree starts as its size has, rounded up, are held in a well-formed
  -- allocator, the MMU is configured for the two roots, and the kernel's half of the address space
  -- is exactly this: the page of the UART, the pages of the regions, at the physical pages with
  -- their numbers, and nothing else.
  pub main-Ready :
      (err_internal nodes fuel : ℕ) (t : Libfdt) (fdt_totalsize : Mem → ℕ) (r : FdtInt)
      (mmap : MemoryMap) (start : Machine)
      → ReadsHeader fdt_totalsize fdt_addr
      → fdt_totalsize start.bitmaps ≡ fdt_size
      → ((a : ℕ) → fdt_addr ≤ a → a < fdt_addr + 8 → Spared 0 a (pool_region sym))
      → ((a : ℕ) → fdt_addr ≤ a → a < fdt_addr + 8 → All (Spared 0 a) mmap)
      → start.regs.sctlr_el1 < 2 ^ 64
      → ((i : ℕ) → i < 512 → start.tables (entry_at sym.idmap_pg_dir_start i) ≡ 0)
      → Empty start.mem_chunks
      → get_mem err_internal nodes (some t) [] ≡ some (r, mmap)
      → All Fits mmap
      → All (λ r. end_page r < first_page r + fuel) mmap
      → Fresh [] mmap
      → (sym.image_end - sym.image_start) / 4096 < fuel
      → tree_addr 0 fdt_addr + tree_pages fdt_size * page_size < 2 ^ 64
      → (x : Bool × Machine) × (main sym err_internal nodes fuel
            (some t)
            fdt_totalsize
            fdt_addr
            start
          ≡ some x)
        × ((x.0 ≡ false) ⊎ ((x.0 ≡ true) × Ready mmap x.1))
  unfolding main
  main-Ready err_internal nodes fuel t fdt_totalsize r mmap start reads size off_pool spared small
        zeroed empty got fits enough fresh image_fuel tree_small =
      let (x, q, outcome) =
        setup_kernel_id_map-Identity sym.image_start sym.image_end fuel
          sym.idmap_pg_dir_bitmap_start sym.idmap_pg_dir_start uart0_base start.mem_chunks
          start.bitmaps start.tables placed.start_aligned placed.end_aligned
          (omega (arith, placed.root_from, placed.root_upto)) placed.end_low image_fuel
          placed.pool_aligned (omega (arith, placed.pool_upto, placed.end_low)) (omega arith) zeroed
          empty in
      elim outcome [
        | inl failed ↦
            ((false, machine x.1 x.2.0 x.2.1 start.regs), rw (q, main, failed) refl, inl refl)
        | inr (fine, nothing, _) ↦
            let (y, e, ready) =
              set_up_memory-Ready err_internal nodes fuel t fdt_totalsize r mmap x.1 x.2.0 x.2.1
                start.regs reads
                (reads start.bitmaps x.2.0 (λ a from upto.
                    setup_kernel_id_map-kept_byte sym.image_start sym.image_end fuel
                      sym.idmap_pg_dir_bitmap_start sym.idmap_pg_dir_start uart0_base a
                      start.mem_chunks start.bitmaps start.tables x
                      (omega (arith, placed.pool_upto, placed.end_low)) (off_pool a from upto) empty
                      q)
                  ∙ size)
                spared small nothing got fits enough fresh tree_small in
            (y, rw (q, main, fine) e, ready)
      ]
