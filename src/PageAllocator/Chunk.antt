-- ===== src/PageAllocator/Chunk.antt =====
-- src/kernel/allocator/page_allocator.c, the operations on one chunk. A chunk's bitmap lies in
-- memory, at the address that the chunk holds; printing is left out.
use kernelite.Base.{ℕ, zero, suc, ◌+◌, ◌-◌, ◌*◌, ◌/◌, ◌%◌, ◌^◌, bit_and, bit_or}
use kernelite.Base.{Bool, true, false, ◌&&◌, ◌||◌, Option, none, some}
use kernelite.Base.{ltb, leb, ◌==◌, ◌!=◌, if◌then◌else◌, u8, u64, sub64, Mem, store}
use kernelite.MemLayout.{va_to_pa, pa_to_va}

-- LINKER_PAGE_SIZE
abbrev pub page_size : ℕ
page_size = 0x1000

-- `NUM_PAGES(size)`, on size_t.
unfoldable pub num_pages : ℕ → ℕ
num_pages size = u64 (size + page_size - 1) / page_size

pub record Chunk : Type 0 where
  pub bitmap : ℕ
  pub total_pages : ℕ
  pub mem_base : ℕ
  pub initialized : Bool

-- `bitmap[i / 8] |= (1 << (i % 8))`
unfoldable pub set_page : ℕ → ℕ → Mem → Mem
set_page bitmap i m = store m (bitmap + i / 8) (u8 (bit_or (m (bitmap + i / 8)) (2 ^ (i % 8))))

-- `bitmap[i / 8] &= ~(1 << (i % 8))`, where `~` is that of a 32-bit int.
unfoldable pub clear_page : ℕ → ℕ → Mem → Mem
clear_page bitmap i m =
    store m (bitmap + i / 8) (u8 (bit_and (m (bitmap + i / 8)) (2 ^ 32 - 1 - 2 ^ (i % 8))))

-- `uint8_t is_used = bitmap[i / 8] & (1 << (i % 8))`, as a truth value.
unfoldable pub is_used : ℕ → Mem → ℕ → Bool
is_used bitmap m i = u8 (bit_and (m (bitmap + i / 8)) (2 ^ (i % 8))) != 0

-- The two marking loops, with the rounds left. The index is a size_t.
unfoldable pub set_range : ℕ → ℕ → ℕ → Mem → Mem
set_range bitmap zero i m = m
set_range bitmap (suc left) i m = set_range bitmap left (u64 (i + 1)) (set_page bitmap i m)

unfoldable pub clear_range : ℕ → ℕ → ℕ → Mem → Mem
clear_range bitmap zero i m = m
clear_range bitmap (suc left) i m = clear_range bitmap left (u64 (i + 1)) (clear_page bitmap i m)

-- The loop that zeroes the bitmap, from byte `i` on.
unfoldable pub zero_bytes : ℕ → ℕ → ℕ → Mem → Mem
zero_bytes bitmap zero i m = m
zero_bytes bitmap (suc left) i m = zero_bytes bitmap left (i + 1) (store m (bitmap + i) 0)

unfoldable pub chunk_end : Chunk → ℕ
chunk_end c = u64 (c.mem_base + u64 (c.total_pages * page_size))

unfoldable pub reserve_page_chunk : ℕ → ℕ → Chunk → Mem → Bool × Mem
unfolding chunk_end
reserve_page_chunk start num c m =
    let end_addr = u64 (start + u64 (num * page_size)) in
    if c.mem_base == 0 || (c.total_pages == 0 || c.bitmap == 0)
    then (false, m)
    else if ltb start c.mem_base || ltb (chunk_end c) end_addr
    then (false, m)
    else (true, set_range c.bitmap num ((start - c.mem_base) / page_size) m)

unfoldable pub check_kernel_binary_overlap : ℕ → ℕ → ℕ → ℕ → Bool
check_kernel_binary_overlap image_start image_end mem_start mem_size =
    ltb image_start (u64 (mem_start + mem_size)) && ltb mem_start image_end

-- `(mem_start + (PAGE_SIZE - 1)) & ~(PAGE_SIZE - 1)`; the int `~0xFFF` is sign-extended.
unfoldable pub align_up : ℕ → ℕ
align_up a = bit_and (u64 (a + (page_size - 1))) (2 ^ 64 - page_size)

unfoldable pub bitmap_bytes : ℕ → ℕ
bitmap_bytes total = u64 (total + 7) / 8

-- The linker symbols and `kernel_base_va` come first.
module _ (image_start image_end kernel_base_va : ℕ) where
  -- From the point where the bitmap is placed.
  unfoldable pub place_bitmap : ℕ → ℕ → Chunk → Mem → Bool × Chunk × Mem
  place_bitmap total pages c m =
      let c' = record c { bitmap = pa_to_va kernel_base_va c.mem_base; total_pages = total } in
      let m' = zero_bytes c'.bitmap (bitmap_bytes total) 0 m in
      let (reserved, m'') = reserve_page_chunk (va_to_pa kernel_base_va c'.bitmap) pages c' m' in
      if reserved then (true, record c' { initialized = true }, m'') else (false, c', m'')

  unfoldable pub page_init_chunk : ℕ → ℕ → Chunk → Bool → Mem → Bool × Chunk × Mem
  page_init_chunk mem_start mem_size c check_kernel_overlap m =
      let aligned_start = align_up mem_start in
      let alignment_shift = sub64 aligned_start mem_start in
      let total = (mem_size - alignment_shift) / page_size in
      let pages = num_pages (bitmap_bytes total) in
      if leb mem_size alignment_shift
      then (false, record c { initialized = false }, m)
      else if check_kernel_overlap
          && check_kernel_binary_overlap image_start image_end aligned_start
              (u64 (pages * page_size))
      then (false, record c { initialized = false; mem_base = aligned_start }, m)
      else place_bitmap total pages (record c { initialized = false; mem_base = aligned_start }) m

-- The scan of `page_alloc_chunk` at page `i`, with `left` pages to go: the start index of the
-- run that it settles on.
unfoldable pub find_run : ℕ → Mem → ℕ → ℕ → ℕ → ℕ → ℕ → Option ℕ
find_run bitmap m num zero i found start = none
find_run bitmap m num (suc left) i found start =
    let restart = find_run bitmap m num left (i + 1) 0 start in
    let start' = if found == 0 then i else start in
    let onwards = find_run bitmap m num left (i + 1) (found + 1) start' in
    if is_used bitmap m i then restart else if found + 1 == num then some start' else onwards

-- What `page_alloc_chunk` does with the scan's result.
unfoldable pub take_run : ℕ → Chunk → Mem → Option ℕ → ℕ × Mem
take_run num c m none = (0, m)
take_run num c m (some s) =
    (u64 (c.mem_base + u64 (s * page_size)), set_range c.bitmap (u64 (s + num) - s) s m)

-- 0 is PHYS_ADDR_NULL.
unfoldable pub page_alloc_chunk : ℕ → Chunk → Mem → ℕ × Mem
unfolding take_run
page_alloc_chunk num c m =
    if num == 0
    then (0, m)
    else if ltb c.total_pages num
    then (0, m)
    else take_run num c m (find_run c.bitmap m num c.total_pages 0 0 0)

unfoldable pub page_free_chunk : ℕ → ℕ → Chunk → Mem → Mem
unfolding chunk_end
page_free_chunk start num c m =
    let first = (start - c.mem_base) / page_size in
    let num' = if ltb c.total_pages (u64 (first + num)) then c.total_pages - first else num in
    if c.mem_base == 0 || (c.total_pages == 0 || c.bitmap == 0)
    then m
    else if ltb start c.mem_base || leb (chunk_end c) start
    then m
    else clear_range c.bitmap (u64 (first + num') - first) first m
