-- ===== src/Startup/Header.antt =====
-- src/kernel/utils/utils.c: what the start-up writes into memory before it reads the size of the device tree.
use kernelite.Base.{ℕ, ◌+◌, ◌-◌, ◌*◌, ◌/◌, ◌^◌, ◌≤◌, ◌<◌, Bool, true, false, ◌≡◌, ◌⊎◌, inl, inr}
use kernelite.Base.{
  refl, sym, ap, ◌∙◌, arith, List, [], ◌∷◌, Mem, Bool-cases, All, Option, none, some,
}
use kernelite.Base.{leb, ◌==◌, ◌||◌, ◌&&◌, not, u64, sub64}
use mathlib.Core.Path.{subst}
use kernelite.MemLayout.{va_to_pa, pa_to_va}
use kernelite.MemLayout.RoundTrip.{translations_inverse}
use kernelite.Fdt.Memory.{MemoryRegion, MemoryMap}
use kernelite.PageAllocator.Chunk.{
  Chunk, page_size, page_init_chunk, place_bitmap, reserve_page_chunk, align_up,
  check_kernel_binary_overlap, num_pages, bitmap_bytes, zero_bytes,
}
use kernelite.PageAllocator.Bitmap.{Outside, set_range-Outside, zero_bytes-at}
use kernelite.PageAllocator.Alloc.{IsValid, page_of}
use kernelite.PageAllocator.Init.{reserve_page_chunk_lem, inside?}
use kernelite.PageAllocator.Regions.{
  page_allocator_add_region, reserve_page, reserve_in, find_chunk_for_address,
}
use kernelite.PageAllocator.Regions.Lookup.{Live, Owner, find_chunk_for_address-Owner}
use kernelite.Startup.Regions.{Bounded, align_up-page}
use kernelite.Startup.Steps.{add_regions, reserve_kernel_img_pages, get_image_size}

-- The pages of the image, as the source counts them.
abbrev pub image_addr : ℕ → ℕ → ℕ
image_addr image_start kernel_base_va = va_to_pa kernel_base_va image_start

abbrev pub image_pages : ℕ → ℕ → ℕ → ℕ
image_pages image_start image_end kernel_base_va =
    num_pages (get_image_size image_start image_end kernel_base_va)

-- Address `a` is in none of the pages that a bitmap for `total` pages takes.
abbrev pub Off : ℕ → ℕ → ℕ → Type 0
Off a bitmap total = (a < bitmap) ⊎ (bitmap + num_pages (bitmap_bytes total) * page_size ≤ a)

-- The bitmap of the chunk that a region becomes, and the number of its pages.
abbrev pub first_aligned : ℕ → MemoryRegion → ℕ
first_aligned kernel_base_va r = pa_to_va kernel_base_va (align_up r.base)

abbrev pub whole_pages : MemoryRegion → ℕ
whole_pages r = (r.size - sub64 (align_up r.base) r.base) / page_size

-- The address is in none of the pages that the bitmap of the region's chunk takes.
abbrev pub Spared : ℕ → ℕ → MemoryRegion → Type 0
Spared kernel_base_va a r = Off a (first_aligned kernel_base_va r) (whole_pages r)

-- No page of the bitmap of a live chunk has the address.
abbrev pub Clear : ℕ → List Chunk → Type 0
Clear a cs = (c : Chunk) → Live c cs → Off a c.bitmap c.total_pages

-- fdt_totalsize reads nothing but the first 8 bytes of the tree, its magic number and its size.
abbrev pub ReadsHeader : (Mem → ℕ) → ℕ → Type 0
ReadsHeader fdt_totalsize fdt_addr =
    (m m' : Mem)
    → ((a : ℕ) → fdt_addr ≤ a → a < fdt_addr + 8 → m' a ≡ m a)
    → fdt_totalsize m' ≡ fdt_totalsize m

reserve_page_chunk-frame :
    (start num : ℕ) (c : Chunk) (m : Mem) (a : ℕ)
    → start ≡ c.mem_base
    → num < 2 ^ 64
    → Outside c.bitmap 0 num a
    → (reserve_page_chunk start num c m).1 a ≡ m a
unfolding reserve_page_chunk
reserve_page_chunk-frame start num c m a same small o =
    let index : (start - c.mem_base) / page_size ≡ 0 = omega arith in
    let kept = set_range-Outside c.bitmap num 0 m a (omega arith) o in
    rw index (ground (arith, kept))

module _ (image_start image_end kernel_base_va a : ℕ) (in_range : kernel_base_va < 2 ^ 64) where
  place_bitmap-frame :
      (total : ℕ) (c : Chunk) (m : Mem)
      → c.mem_base < 2 ^ 64
      → total < 2 ^ 52
      → Off a (pa_to_va kernel_base_va c.mem_base) total
      → (place_bitmap image_start image_end kernel_base_va total
            (num_pages (bitmap_bytes total))
            c
            m).2
          a
        ≡ m a
  unfolding place_bitmap num_pages bitmap_bytes
  place_bitmap-frame total c m low few off =
      let bm = pa_to_va kernel_base_va c.mem_base in
      let c' : Chunk = record c { bitmap = bm; total_pages = total } in
      let pages = num_pages (bitmap_bytes total) in
      let m' = zero_bytes bm (bitmap_bytes total) 0 m in
      let back : va_to_pa kernel_base_va bm ≡ c.mem_base =
        (translations_inverse kernel_base_va c.mem_base in_range low).0 in
      let zeroed : m' a ≡ m a = ground (arith, zero_bytes-at bm (bitmap_bytes total) 0 m a) in
      let kept =
        reserve_page_chunk-frame (va_to_pa kernel_base_va bm) pages c' m' a back (omega arith)
          (omega arith) in
      elim (Bool-cases (reserve_page_chunk (va_to_pa kernel_base_va bm) pages c' m').0) [
        | inl ok ↦ rw ok (kept ∙ zeroed)
        | inr failed ↦ rw failed (kept ∙ zeroed)
      ]

  page_init_chunk-frame :
      (r : MemoryRegion) (check : Bool) (c : Chunk) (m : Mem)
      → Bounded r
      → Spared kernel_base_va a r
      → (page_init_chunk image_start image_end kernel_base_va r.base r.size c check m).2 a ≡ m a
  unfolding page_init_chunk
  page_init_chunk-frame r check c m bounded off =
      let start = align_up r.base in
      let shift = sub64 start r.base in
      let total = (r.size - shift) / page_size in
      let pages = num_pages (bitmap_bytes total) in
      elim (Bool-cases (leb r.size shift)) [
        | inl small ↦ rw small refl
        | inr enough ↦
            elim (Bool-cases (
              check
              && check_kernel_binary_overlap image_start image_end start
                  (u64 (pages * page_size)))) [
                    | inl overlap ↦ rw (enough, overlap) refl
                    | inr clear ↦
                        rw (enough, clear)
                          (place_bitmap-frame total
                            (record c { initialized = false; mem_base = start }) m
                            (omega (arith, align_up-page r.base)) (omega arith) off)
                  ]
      ]

  page_init_chunk-Off :
      (r : MemoryRegion) (check : Bool) (c : Chunk) (m : Mem)
      → let c' = (page_init_chunk image_start image_end kernel_base_va r.base r.size c check m).1 in
        Spared kernel_base_va a r → c'.initialized ≡ true → Off a c'.bitmap c'.total_pages
  unfolding page_init_chunk place_bitmap
  page_init_chunk-Off r check c m off =
      let start = align_up r.base in
      let shift = sub64 start r.base in
      let total = (r.size - shift) / page_size in
      let pages = num_pages (bitmap_bytes total) in
      let bm = pa_to_va kernel_base_va start in
      let c' : Chunk = record c {
        initialized = false;
        mem_base = start;
        bitmap = bm;
        total_pages = total;
      } in
      elim (Bool-cases (leb r.size shift)) [
        | inl small ↦ rw small (λ on. absurd (cc))
        | inr enough ↦
            elim (Bool-cases (
              check
              && check_kernel_binary_overlap image_start image_end start
                  (u64 (pages * page_size)))) [
                    | inl overlap ↦ rw (enough, overlap) (λ on. absurd (cc))
                    | inr clear ↦
                        elim (Bool-cases
                          (reserve_page_chunk (va_to_pa kernel_base_va bm) pages c'
                            (zero_bytes bm (bitmap_bytes total) 0 m)).0) [
                              | inl ok ↦ rw (enough, clear, ok) (λ on. off)
                              | inr failed ↦ rw (enough, clear, failed) (λ on. absurd (cc))
                            ]
                  ]
      ]

  pub add_region-Clear :
      (r : MemoryRegion) (check : Bool) (cs : List Chunk) (m : Mem)
      → Bounded r
      → Spared kernel_base_va a r
      → Clear a cs
      → let (_, cs', m') =
          page_allocator_add_region image_start image_end kernel_base_va r.base r.size check cs m in
        Clear a cs' × (m' a ≡ m a)
  unfolding page_allocator_add_region
  add_region-Clear r check [] m bounded off clear = (clear, refl)
  add_region-Clear r check (d ∷ cs) m bounded off clear =
      let (clear', kept) = add_region-Clear r check cs m bounded off (λ c l. clear c (inr l)) in
      let made = (page_init_chunk image_start image_end kernel_base_va r.base r.size d check m).1 in
      elim (Bool-cases (d.mem_base == r.base || not d.initialized)) [
        | inl here ↦ rw here (
          (λ c l. elim l [
            | inl e ↦
                subst (λ (x : Chunk). Off a x.bitmap x.total_pages) (sym e.0)
                  (page_init_chunk-Off r check d m off
                    (ap (λ (x : Chunk). x.initialized) (sym e.0) ∙ e.1))
            | inr l' ↦ clear c (inr l')
          ]),
          page_init_chunk-frame r check d m bounded off,
        )
        | inr there ↦
            rw there ((λ c l. elim l [ inl e ↦ clear c (inl e) | inr l' ↦ clear' c l' ]), kept)
      ]

  -- The loop over the regions writes none of the bytes that all of them spare.
  add_regions-Clear :
      (mmap : MemoryMap) (cs : List Chunk) (m : Mem)
      → All Bounded mmap
      → All (Spared kernel_base_va a) mmap
      → Clear a cs
      → let (_, cs', m') = add_regions image_start image_end kernel_base_va mmap cs m in
        Clear a cs' × (m' a ≡ m a)
  unfolding add_regions
  add_regions-Clear [] cs m bounded off clear = (clear, refl)
  add_regions-Clear (r ∷ mmap) cs m bounded off clear =
      let (ok, cs', m') =
        page_allocator_add_region image_start image_end kernel_base_va r.base r.size true cs m in
      let (clear', kept) = add_region-Clear r true cs m bounded.0 off.0 clear in
      elim (Bool-cases ok) [
        | inr stuck ↦ rw stuck (clear', kept)
        | inl fine ↦
            let (clear'', kept') = add_regions-Clear mmap cs' m' bounded.1 off.1 clear' in
            rw fine (clear'', kept' ∙ kept)
      ]

  -- A reservation in valid chunks marks no byte outside their bitmaps.
  reserve_in-frame :
      (start num : ℕ) (cs : List Chunk) (m : Mem) (o : Option Chunk)
      → ((c : Chunk) → Live c cs → IsValid c)
      → Clear a cs
      → start + num * page_size < 2 ^ 64
      → Owner start cs o
      → (reserve_in start num m o).1 a ≡ m a
  unfolding reserve_in num_pages bitmap_bytes
  reserve_in-frame start num cs m none valid clear small owner = refl
  reserve_in-frame start num cs m (some c) valid clear small owner =
      let v = valid c owner.0 in
      let off = clear c owner.0 in
      let (_, _, frame) = reserve_page_chunk_lem start num c m v small in
      elim (Bool-cases (inside? start num c)) [
        | inr no' ↦ frame a (inl no')
        | inl yes' ↦
            let low : c.mem_base ≤ start = ground arith in
            let high : start + num * page_size ≤ c.mem_base + c.total_pages * page_size =
              ground arith in
            let fits : page_of c start + num ≤ c.total_pages = omega arith in
            frame a (inr (omega (arith, v.ends)))
      ]

  -- What stands before the size of the tree is read: the regions have been added and the image has been reserved.
  pub kept_until_tree :
      (mmap : MemoryMap) (cs : List Chunk) (m : Mem)
      → All Bounded mmap
      → All (Spared kernel_base_va a) mmap
      → Clear a cs
      → let (_, cs', m') = add_regions image_start image_end kernel_base_va mmap cs m in
        ((c : Chunk) → Live c cs' → IsValid c)
        → image_addr image_start kernel_base_va
            + image_pages image_start image_end kernel_base_va * page_size
          < 2 ^ 64
        → (reserve_kernel_img_pages image_start image_end kernel_base_va cs' m').1 a ≡ m a
  unfolding reserve_kernel_img_pages reserve_page
  kept_until_tree mmap cs m bounded off clear valid small =
      let (_, cs', m') = add_regions image_start image_end kernel_base_va mmap cs m in
      let (clear', kept) = add_regions-Clear mmap cs m bounded off clear in
      reserve_in-frame (image_addr image_start kernel_base_va)
        (image_pages image_start image_end kernel_base_va) cs' m'
        (find_chunk_for_address (image_addr image_start kernel_base_va) cs') valid clear' small
        (find_chunk_for_address-Owner (image_addr image_start kernel_base_va) cs')
      ∙ kept
