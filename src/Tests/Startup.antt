-- ===== src/Tests/Startup.antt =====
-- The start-up on a board with 16 MB of memory at 0x4000_0000, with the kernel at 0x4008_0000 and the device tree at
-- 0x4010_0000.
use kernelite.Base.{ℕ, ◌+◌, ◌*◌, ◌%◌, ◌^◌, ◌≤◌, ◌<◌, ◌≡◌, ◌≢◌, ◌⊎◌, inl, inr, refl, arith}
use kernelite.Base.{
  Option, none, some, List, [], ◌∷◌, All, Mem, store, Bool, true, false, ◌==◌, ◌∙◌, sym, ap,
  if◌then◌else◌,
}
use mathlib.Core.Path.{subst}
use kernelite.MemLayout.{kernel_base, va_to_pa, pa_to_va}
use kernelite.Fdt.Tree.{offset, check_fdt, fdt_is_error}
use kernelite.Fdt.Memory.{MemoryMap, region, get_mem}
use kernelite.PageAllocator.Chunk.{
  Chunk, page_size, is_used, num_pages, set_range, set_page, zero_bytes, page_init_chunk,
  place_bitmap, reserve_page_chunk, align_up, bitmap_bytes, check_kernel_binary_overlap, chunk_end,
}
use kernelite.PageAllocator.Bitmap.{within}
use kernelite.PageAllocator.Alloc.{IsValid}
use kernelite.PageAllocator.Regions.{
  find_chunk_for_address, fixup_chunk, owns, page_allocator_add_region, reserve_page, reserve_in,
}
use kernelite.PageAllocator.Regions.Lookup.{Live, WellFormed}
use kernelite.Mmu.Place.{get, bits}
use kernelite.Mmu.Enable.{SysRegs, enable_mmu}
use kernelite.Mmu.Outcome.{Configured, enable_mmu_lem}
use kernelite.Startup.Steps.{
  setup_kernel_id_map, setup_page_allocator, reserve_fdt_pages, get_image_size, setup_regions,
  add_regions, reserve_all, reserve_kernel_img_pages,
}
use kernelite.Startup.Pool.{Empty}
use kernelite.Startup.Header.{Spared, ReadsHeader}
use kernelite.Startup.Reserve.{Reserved, setup_page_allocator-Outcome, reserve_fdt_pages-tail}
use kernelite.Startup.Grants.{grants, Misses, grants-Reserved}
use kernelite.Startup.IdMap.{Identity, setup_kernel_id_map-Identity}
use kernelite.Startup.Main.{Symbols, Machine, machine, main}
use kernelite.Startup.HighHalf.{leave_low_half}
use kernelite.Startup.Leave.{leave_low_half_lem}
use kernelite.Startup.Ready.{Placed, Ready, main-Ready}
use kernelite.Tests.Fdt.{board}

abbrev zeros : Mem
zeros a = 0

-- The header at 0x4010_0000 has the size 0x2000, with the highest byte first.
abbrev with_tree : Mem
with_tree a = if a == 0x4010_0006 then 0x20 else 0

abbrev tree_size : Mem → ℕ
tree_size m =
    m 0x4010_0004 * 2 ^ 24 + m 0x4010_0005 * 2 ^ 16 + m 0x4010_0006 * 2 ^ 8 + m 0x4010_0007

tree_size-ReadsHeader : ReadsHeader tree_size 0x4010_0000
tree_size-ReadsHeader m m' same = omega (
  arith,
  same 0x4010_0004 (omega arith) (omega arith),
  same 0x4010_0005 (omega arith) (omega arith),
  same 0x4010_0006 (omega arith) (omega arith),
  same 0x4010_0007 (omega arith) (omega arith),
)

-- Two free entries in the array of chunks.
abbrev free_chunk : Chunk
free_chunk = record { bitmap = 0; total_pages = 0; mem_base = 0; initialized = false }

abbrev two_free : List Chunk
two_free = free_chunk ∷ free_chunk ∷ []

not_live : (c : Chunk) → c ≡ free_chunk → c.initialized ≢ true
not_live c e on =
    let off : c.initialized ≡ false = ap (λ (x : Chunk). x.initialized) e in absurd (cc)

two_free-Empty : Empty two_free
two_free-Empty c l = elim l [
  | inl e ↦ not_live c e.0 e.1
  | inr l' ↦ elim l' [ inl e ↦ not_live c e.0 e.1 | inr none' ↦ absurd none' ]
]

abbrev ram : MemoryMap
ram = region 0x4000_0000 0x100_0000 ∷ []

ram_read : get_mem 13 201 (some board) [] ≡ some (offset 0, ram)
unfolding get_mem
ram_read = refl

ram_first : align_up 0x4000_0000 ≡ 0x4000_0000
unfolding align_up
ram_first = refl

header-Spared : (a : ℕ) → 0x4010_0000 ≤ a → a < 0x4010_0000 + 8 → All (Spared 0 a) ram
unfolding pa_to_va num_pages bitmap_bytes
header-Spared a from upto = (inr (omega (arith, ram_first)), tt)

abbrev symbols : Symbols
symbols = record {
  image_start = 0x4008_0000;
  image_end = 0x400A_C000;
  idmap_pg_dir_bitmap_start = 0x400A_0000;
  idmap_pg_dir_start = 0x400A_1000;
  kernel_pg_dir_root_start = 0x400A_7000;
}

symbols-Placed : Placed symbols
symbols-Placed = omega arith

abbrev reset : SysRegs
reset = record { mair_el1 = 0; tcr_el1 = 0; ttbr0_el1 = 0; ttbr1_el1 = 0; sctlr_el1 = 0x30D0_0800 }

succeeds : Option (Bool × List Chunk × Mem) → Bool
succeeds none = false
succeeds (some x) = x.0

allocator_set_up :
    succeeds (
      setup_page_allocator 0x4008_0000 0x400A_C000 0 13 201
        (some board)
        tree_size
        0x4010_0000
        two_free
        with_tree)
    ≡ true
unfolding setup_page_allocator check_fdt get_mem fdt_is_error setup_regions add_regions
    page_allocator_add_region page_init_chunk place_bitmap reserve_page reserve_page_chunk va_to_pa
    pa_to_va align_up bitmap_bytes num_pages check_kernel_binary_overlap reserve_all
    reserve_kernel_img_pages reserve_fdt_pages get_image_size find_chunk_for_address owns chunk_end
    reserve_in succeeds set_range set_page zero_bytes store
allocator_set_up = refl

pool_aligned : align_up 0x400A_0000 ≡ 0x400A_0000
unfolding align_up
pool_aligned = refl

main-Ready_example :
    (x : Bool × Machine) × (main symbols 13 201 5000
        (some board)
        tree_size
        0x4010_0000
        (machine two_free with_tree zeros reset)
      ≡ some x)
    × ((x.0 ≡ false) ⊎ ((x.0 ≡ true) × Ready symbols symbols-Placed 0x4010_0000 0x2000 ram x.1))
unfolding va_to_pa num_pages
main-Ready_example =
    main-Ready symbols symbols-Placed 0x4010_0000 0x2000 13 201 5000 board tree_size (offset 0) ram
      (machine two_free with_tree zeros reset) tree_size-ReadsHeader refl
      (λ a from upto. inr (unfold pa_to_va num_pages bitmap_bytes in omega (arith, pool_aligned)))
      header-Spared (omega arith) (λ i l. refl) two_free-Empty ram_read
      ((omega arith, omega arith), tt) (omega arith, tt) (tt, tt) (omega arith) (omega arith)

setup_kernel_id_map-Identity_example :
    (x : Bool × List Chunk × (Mem × Mem)) × (setup_kernel_id_map 0x4008_0000 0x400A_C000 0 50
        0x400A_0000 0x400A_1000 0x900_0000 two_free
        (zeros, zeros)
      ≡ some x)
    × ((x.0 ≡ false)
        ⊎ ((x.0 ≡ true)
            × Empty x.1
            × Identity 0x4008_0000 0x400A_C000 0x900_0000 0x400A_1000 x.2.1))
setup_kernel_id_map-Identity_example =
    setup_kernel_id_map-Identity 0x4008_0000 0x400A_C000 50 0x400A_0000 0x400A_1000 0x900_0000
      two_free zeros zeros (omega arith) (omega arith) (omega arith) (omega arith) (omega arith)
      (omega arith) (omega arith) (omega arith) (λ i l. refl) two_free-Empty

setup_page_allocator-Outcome_example :
    (x : Bool × List Chunk × Mem) × (setup_page_allocator 0x4008_0000 0x400A_C000 0 13 201
        (some board)
        tree_size
        0x4010_0000
        two_free
        with_tree
      ≡ some x)
    × ((x.0 ≡ false)
        ⊎ ((x.0 ≡ true) × Reserved 0x4008_0000 0x400A_C000 0 0x4010_0000 0x2000 (2 ^ 48) x.1 x.2))
unfolding va_to_pa num_pages get_image_size
setup_page_allocator-Outcome_example =
    setup_page_allocator-Outcome 0x4008_0000 0x400A_C000 0 0x4010_0000 0x2000 (2 ^ 48) 13 201 board
      tree_size two_free with_tree (offset 0) ram (omega arith) tree_size-ReadsHeader refl
      header-Spared ram_read (omega arith) (omega arith, tt) (tt, tt) two_free-Empty (omega arith)
      (omega arith)

enable_mmu_lem_example :
    let (ok, r) = enable_mmu 0 0x400A_1000 0x400A_7000 reset in
    (ok ≡ true)
    × Configured r
    × (r.ttbr0_el1 ≡ va_to_pa 0 0x400A_1000)
    × (r.ttbr1_el1 ≡ va_to_pa 0 0x400A_7000)
    × (get (bits 3 9) r.sctlr_el1 ≡ get (bits 3 9) reset.sctlr_el1)
    × (get (bits 13 12) r.sctlr_el1 ≡ get (bits 13 12) reset.sctlr_el1)
    × (get (bits 26 38) r.sctlr_el1 ≡ get (bits 26 38) reset.sctlr_el1)
enable_mmu_lem_example =
    enable_mmu_lem 0 0x400A_1000 0x400A_7000 reset (omega arith) (omega arith) (omega arith)

-- A chunk of eight pages; the image at 0x6000 has two of them and the tree at 0x9000 has one.
abbrev eight : Chunk
eight = record { bitmap = 0x4000; total_pages = 8; mem_base = 0x4000; initialized = true }

abbrev eight_only : List Chunk
eight_only = eight ∷ []

-- Pages 2, 3 and 5 are in use.
abbrev marked : Mem
marked a = if a == 0x4000 then 44 else 0

eight-IsValid : IsValid eight
eight-IsValid = omega arith

at_eight : (c : Chunk) → Live c eight_only → c ≡ eight
at_eight c l = elim l [ inl e ↦ e.0 | inr none' ↦ absurd none' ]

eight-WellFormed : WellFormed eight_only
eight-WellFormed = record {
  valid = λ c l. subst IsValid (sym (at_eight c l)) eight-IsValid;
  separate = λ c d l k. inl (at_eight c l ∙ sym (at_eight d k));
}

image_used : (j : ℕ) → within 2 2 j ≡ true → is_used 0x4000 marked j ≡ true
unfolding is_used
image_used j w =
    let which : (j ≡ 2) ⊎ (j ≡ 3) = ground arith in
    elim which [ inl e ↦ rw e refl | inr e ↦ rw e refl ]

tree_used : (j : ℕ) → within 5 1 j ≡ true → is_used 0x4000 marked j ≡ true
unfolding is_used
tree_used j w = let e : j ≡ 5 = ground arith in rw e refl

eight-Reserved : Reserved 0x6000 0x8000 0 0x9000 0x1000 (2 ^ 48) eight_only marked
unfolding va_to_pa num_pages get_image_size
eight-Reserved = record {
  well = eight-WellFormed;
  aligned = λ c l. subst (λ (x : Chunk). x.mem_base % page_size ≡ 0) (sym (at_eight c l)) refl;
  below = λ c l.
      subst (λ (x : Chunk). x.mem_base + x.total_pages * page_size ≤ 2 ^ 48) (sym (at_eight c l))
        (omega arith);
  image = record { by = eight; live = inl (refl, refl); inside = omega arith; used = image_used };
  tree = record { by = eight; live = inl (refl, refl); inside = omega arith; used = tree_used };
}

grants-Reserved_example :
    All (Misses 0x6000 2) (grants eight_only (2 ∷ 1 ∷ []) marked)
    × All (Misses 0x9000 1) (grants eight_only (2 ∷ 1 ∷ []) marked)
unfolding va_to_pa num_pages get_image_size
grants-Reserved_example =
    grants-Reserved 0x6000 0x8000 0 0x9000 0x1000 (2 ^ 48) eight_only marked (2 ∷ 1 ∷ [])
      eight-Reserved (omega arith) (omega arith) (omega arith) (omega arith)
      (omega arith, (omega arith, tt))

eight_found : find_chunk_for_address 0x5010 eight_only ≡ some eight
unfolding find_chunk_for_address owns
eight_found = refl

reserve_fdt_pages-tail_example :
    is_used 0x4000 (reserve_fdt_pages 0x6000 0x8000 0 (λ m. 0x1000) 0x5010 eight_only zeros).1 2
    ≡ is_used 0x4000 zeros 2
unfolding va_to_pa
reserve_fdt_pages-tail_example =
    reserve_fdt_pages-tail 0x6000 0x8000 0 0x5010 0x1000 (λ m. 0x1000) eight_only eight zeros refl
      eight-IsValid (omega arith) eight_found (omega arith) (omega arith) (omega arith)
      (omega arith) (omega arith)

-- The pool of the identity map in the first seven pages of the chunk.
abbrev pool_first : Symbols
pool_first = record {
  image_start = 0x4000;
  image_end = 0xC000;
  idmap_pg_dir_bitmap_start = 0x4000;
  idmap_pg_dir_start = 0x5000;
  kernel_pg_dir_root_start = 0xB000;
}

abbrev running : Machine
running = machine eight_only marked zeros (record {
  mair_el1 = 0xFF00;
  tcr_el1 = 0x2_B510_3510;
  ttbr0_el1 = 0x5000;
  ttbr1_el1 = 0xB000;
  sctlr_el1 = 0x30D0_1805;
})

leave_low_half_lem_example :
    let g' = leave_low_half pool_first running in
    let c' = fixup_chunk kernel_base eight in
    Live c' g'.mem_chunks
    × ((j : ℕ)
        → j < 8
        → is_used c'.bitmap g'.bitmaps j
          ≡ (if within 0 7 j then false else is_used 0x4000 marked j))
    × (get (bits 7 1) g'.regs.tcr_el1 ≡ 1)
    × (get (bits 0 7) g'.regs.tcr_el1 ≡ 0x10)
    × (get (bits 8 56) g'.regs.tcr_el1 ≡ 0x2_B5_1035)
    × (g'.regs.ttbr0_el1 ≡ 0)
    × (g'.regs.ttbr1_el1 ≡ 0xB000)
leave_low_half_lem_example =
    leave_low_half_lem pool_first running eight eight-WellFormed (inl (refl, refl)) (omega arith)
      (omega arith) (omega arith) (omega arith)
