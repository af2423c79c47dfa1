-- ===== src/PageAllocator/Init.antt =====
-- `reserve_page_chunk` and `page_init_chunk`: which pages of a new chunk are taken.
use kernelite.Base.{ℕ, ◌+◌, ◌-◌, ◌*◌, ◌/◌, ◌%◌, ◌^◌, ◌≤◌, ◌<◌, Bool, true, false, ◌≡◌, ◌⊎◌}
use kernelite.Base.{refl, ◌∙◌, arith, if◌then◌else◌}
use kernelite.Base.{Mem, u64, sub64, ltb, leb, ◌&&◌}
use kernelite.Base.{Bool-cases, inl, inr}
use kernelite.Bits.{bit_and_high}
use kernelite.MemLayout.{pa_to_va, va_to_pa}
use kernelite.PageAllocator.Chunk.{Chunk, page_size, is_used, set_range, zero_bytes, num_pages}
use kernelite.PageAllocator.Chunk.{reserve_page_chunk, check_kernel_binary_overlap, align_up}
use kernelite.PageAllocator.Chunk.{bitmap_bytes, place_bitmap, page_init_chunk}
use kernelite.PageAllocator.Bitmap.{within, Outside, is_used-set_range, is_used-zero_bytes}
use kernelite.PageAllocator.Bitmap.{set_range-Outside, zero_bytes-at}
use kernelite.MemLayout.RoundTrip.{translations_inverse}
use kernelite.PageAllocator.Alloc.{IsValid, page_of}

-- The guards of `reserve_page_chunk` on a valid chunk, where the range ends below 2^64.
pub reserve_page_chunk-set_range :
    (start num : ℕ) (c : Chunk) (m : Mem)
    → IsValid c
    → start + num * page_size < 2 ^ 64
    → reserve_page_chunk start num c m ≡ (
        if leb c.mem_base start
          && leb (start + num * page_size) (c.mem_base + c.total_pages * page_size)
        then (true, set_range c.bitmap num (page_of c start) m)
        else (false, m))
unfolding reserve_page_chunk
reserve_page_chunk-set_range start num c m v small = ground arith

-- The range of `num` pages at `start` lies inside the chunk.
abbrev pub Inside : ℕ → ℕ → Chunk → Type 0
Inside start num c =
    (c.mem_base ≤ start) × (start + num * page_size ≤ c.mem_base + c.total_pages * page_size)

reserve_page_chunk-cases :
    (start num : ℕ) (c : Chunk) (m : Mem)
    → IsValid c
    → start + num * page_size < 2 ^ 64
    → let (ok, m') = reserve_page_chunk start num c m in
      let s = page_of c start in
      (Inside start num c
        → (ok ≡ true)
          × ((j : ℕ)
              → is_used c.bitmap m' j ≡ (if within s num j then true else is_used c.bitmap m j))
          × ((a : ℕ) → Outside c.bitmap s num a → m' a ≡ m a))
      × (¬ Inside start num c → (ok ≡ false) × (m' ≡ m))
reserve_page_chunk-cases start num c m v small = (
  λ h. rw (inside h) (
    refl,
    λ j. is_used-set_range c.bitmap num (page_of c start) m j (omega (arith, v.ends, h)),
    λ a. set_range-Outside c.bitmap num (page_of c start) m a (omega (arith, v.ends, h)),
  ),
  λ h. rw (outside h) (refl, refl),
)
  where
    inside :
        Inside start num c
        → reserve_page_chunk start num c m ≡ (true, set_range c.bitmap num (page_of c start) m)
    inside h = ground (arith, reserve_page_chunk-set_range start num c m v small)

    outside : ¬ Inside start num c → reserve_page_chunk start num c m ≡ (false, m)
    outside h = ground (
      arith,
      reserve_page_chunk-set_range start num c m v small,
      λ (p : c.mem_base ≤ start)
            (q : start + num * page_size ≤ c.mem_base + c.total_pages * page_size).
          h (p, q),
    )

-- `Inside`, as a test.
abbrev pub inside? : ℕ → ℕ → Chunk → Bool
inside? start num c =
    leb c.mem_base start && leb (start + num * page_size) (c.mem_base + c.total_pages * page_size)

-- For a range that ends below 2^64, `reserve_page_chunk` on a valid chunk succeeds exactly when the
-- range lies inside the chunk. If it does, just the range's pages are marked, and no byte outside
-- their bitmap is written; if not, the memory is left alone.
pub reserve_page_chunk_lem :
    (start num : ℕ) (c : Chunk) (m : Mem)
    → IsValid c
    → start + num * page_size < 2 ^ 64
    → let (ok, m') = reserve_page_chunk start num c m in
      let s = page_of c start in
      (ok ≡ inside? start num c)
      × ((j : ℕ)
          → is_used c.bitmap m' j
            ≡ (if inside? start num c && within s num j then true else is_used c.bitmap m j))
      × ((a : ℕ) → (inside? start num c ≡ false) ⊎ Outside c.bitmap s num a → m' a ≡ m a)
reserve_page_chunk_lem start num c m v small = elim (Bool-cases (inside? start num c)) [
  | inl yes' ↦
      let r = (reserve_page_chunk-cases start num c m v small).0 (ground arith) in
      rw yes' (r.0, r.1, λ a o. elim o [ inl bad ↦ absurd (cc bad) | inr o' ↦ r.2 a o' ])
  | inr no' ↦
      let r = (reserve_page_chunk-cases start num c m v small).1 (λ h. ground (arith, h.0, h.1)) in
      rw (no', r.1) (r.0, λ j. refl, λ a o. refl)
]

-- A range whose byte length wraps round to 0 is accepted at any address inside the chunk, however
-- many pages it has: the guard does not see the overflow.
pub reserve_page_chunk_wraps :
    (start num : ℕ) (c : Chunk) (m : Mem)
    → IsValid c
    → num % 2 ^ 52 ≡ 0
    → c.mem_base ≤ start
    → start ≤ c.mem_base + c.total_pages * page_size
    → (reserve_page_chunk start num c m).0 ≡ true
unfolding reserve_page_chunk
reserve_page_chunk_wraps start num c m v wraps lo hi = ground arith

-- Where the sum does not wrap, `align_up` rounds up to a whole page.
pub align_up_lem : (a : ℕ) → a + 4095 < 2 ^ 64 → align_up a ≡ (a + 4095) / page_size * page_size
unfolding align_up
align_up_lem a h = omega (arith, bit_and_high 12 52 (u64 (a + 4095)))

num_pages_lem : (size : ℕ) → size + page_size < 2 ^ 64 → num_pages size ≡ (size + 4095) / page_size
unfolding num_pages
num_pages_lem size h = omega arith

-- How many pages the bitmap of `total` pages takes.
abbrev pub bitmap_pages : ℕ → ℕ
bitmap_pages total = num_pages (bitmap_bytes total)

bitmap_fits :
    (total : ℕ)
    → 0 < total
    → total < 2 ^ 52
    → (bitmap_pages total ≤ total)
      × (total ≤ 8 * bitmap_bytes total)
      × (bitmap_bytes total ≤ bitmap_pages total * page_size)
      × ((bitmap_pages total + 7) / 8 ≤ bitmap_bytes total)
unfolding num_pages bitmap_bytes
bitmap_fits total h k = omega arith

-- A chunk set up over `total` pages at `base`: only the pages of its own bitmap are used, and no
-- byte outside the bitmap has been written.
pub record Initialised (kernel_base_va base total : ℕ) (m : Mem) (c : Chunk) (m' : Mem)
    : Type 0 where
  pub at : c.mem_base ≡ base
  pub size : c.total_pages ≡ total
  pub placed : c.bitmap ≡ pa_to_va kernel_base_va base
  pub live : c.initialized ≡ true
  pub taken : (j : ℕ) → j < total → is_used c.bitmap m' j ≡ ltb j (bitmap_pages total)
  pub frame : (a : ℕ) → (a < c.bitmap) ⊎ (c.bitmap + bitmap_bytes total ≤ a) → m' a ≡ m a

-- The pages of a region: those from the first page boundary on.
abbrev pub region_pages : ℕ → ℕ → ℕ
region_pages mem_start mem_size = (mem_size - (align_up mem_start - mem_start)) / page_size

module _ (image_start image_end kernel_base_va : ℕ) (kernel : kernel_base_va < 2 ^ 64) where
  place_bitmap-Initialised :
      (total : ℕ) (c : Chunk) (m : Mem)
      → 0 < c.mem_base
      → 0 < pa_to_va kernel_base_va c.mem_base
      → 0 < total
      → c.mem_base + total * page_size < 2 ^ 64
      → let (ok, c', m') =
          place_bitmap image_start image_end kernel_base_va total (bitmap_pages total) c m in
        (ok ≡ true) × Initialised kernel_base_va c.mem_base total m c' m'
  unfolding place_bitmap
  place_bitmap-Initialised total c m based mapped nonempty ends =
      rw (back, done.0)
        (
          refl,
          record {
            at = refl;
            size = refl;
            placed = refl;
            live = refl;
            taken = λ j p.
                ground (arith, done.1 j, is_used-zero_bytes bm (bitmap_bytes total) m j, fits);
            frame = λ a o.
                done.2 a (omega (arith, fits))
                ∙ ground (arith, zero_bytes-at bm (bitmap_bytes total) 0 m a);
          },
        )
    where
      bm : ℕ
      bm = pa_to_va kernel_base_va c.mem_base

      c' : Chunk
      c' = record c { bitmap = bm; total_pages = total }

      fits :
          (bitmap_pages total ≤ total)
          × (total ≤ 8 * bitmap_bytes total)
          × (bitmap_bytes total ≤ bitmap_pages total * page_size)
          × ((bitmap_pages total + 7) / 8 ≤ bitmap_bytes total)
      fits = bitmap_fits total nonempty (omega arith)

      back : va_to_pa kernel_base_va (pa_to_va kernel_base_va c.mem_base) ≡ c.mem_base
      back = (translations_inverse kernel_base_va c.mem_base kernel (omega arith)).0

      valid : IsValid c'
      valid = record { based = based; mapped = mapped; nonempty = nonempty; ends = ends }

      done :
          let (ok, m') =
            reserve_page_chunk c.mem_base
              (bitmap_pages total)
              c'
              (zero_bytes bm (bitmap_bytes total) 0 m) in
          (ok ≡ true)
          × ((j : ℕ)
              → is_used bm m' j ≡ (
                  if within (page_of c' c.mem_base) (bitmap_pages total) j
                  then true
                  else is_used bm (zero_bytes bm (bitmap_bytes total) 0 m) j))
          × ((a : ℕ)
              → Outside bm (page_of c' c.mem_base) (bitmap_pages total) a
              → m' a ≡ zero_bytes bm (bitmap_bytes total) 0 m a)
      done =
          (reserve_page_chunk-cases c.mem_base (bitmap_pages total) c'
              (zero_bytes bm (bitmap_bytes total) 0 m) valid (omega (arith, fits))).0
            (omega (arith, fits))

  -- A region that does not start at address 0, ends below 2^64, holds a whole page after its start is rounded up, whose rounded start is not seen at the null address, and whose bitmap
  -- does not meet the kernel image where that is checked, becomes a chunk based at the rounded start:
  -- initialized, with only its bitmap's pages used, and no byte written outside its bitmap.
  pub page_init_chunk_lem :
      (mem_start mem_size : ℕ) (c : Chunk) (check : Bool) (m : Mem)
      → 0 < mem_start
      → mem_start + 4095 < 2 ^ 64
      → mem_start + mem_size < 2 ^ 64
      → 0 < region_pages mem_start mem_size
      → 0 < pa_to_va kernel_base_va (align_up mem_start)
      → (check
          && check_kernel_binary_overlap image_start image_end
              (align_up mem_start)
              (u64 (bitmap_pages (region_pages mem_start mem_size) * page_size)))
        ≡ false
      → let (ok, c', m') =
          page_init_chunk image_start image_end kernel_base_va mem_start mem_size c check m in
        (ok ≡ true)
        × Initialised kernel_base_va (align_up mem_start) (region_pages mem_start mem_size) m c' m'
  unfolding page_init_chunk
  page_init_chunk_lem mem_start mem_size c check m pos near ends nonempty mapped clear =
      rw (shift, enough, clear)
        (place_bitmap-Initialised (region_pages mem_start mem_size)
          (record c { initialized = false; mem_base = align_up mem_start }) m (omega (arith, up))
          mapped nonempty (omega (arith, up)))
    where
      up : align_up mem_start ≡ (mem_start + 4095) / page_size * page_size
      up = align_up_lem mem_start near

      shift : sub64 (align_up mem_start) mem_start ≡ align_up mem_start - mem_start
      shift = omega (arith, up)

      enough : leb mem_size (align_up mem_start - mem_start) ≡ false
      enough = ground arith

module _ (image_start image_end kernel_base_va : ℕ) where
  -- On every branch `page_init_chunk` returns whether it left the chunk initialized.
  page_init_chunk-initialized :
      (mem_start mem_size : ℕ) (c : Chunk) (check : Bool) (m : Mem)
      → let (ok, c', m') =
          page_init_chunk image_start image_end kernel_base_va mem_start mem_size c check m in
        ok ≡ c'.initialized
  unfolding page_init_chunk place_bitmap
  page_init_chunk-initialized mem_start mem_size c check m = ground arith
