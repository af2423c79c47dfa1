-- ===== src/PageAllocator/Regions.antt =====
-- src/kernel/allocator/page_allocator.c, the interface: the array of chunks and the operations on
-- it. A pointer to a chunk that is only read is the chunk itself; printing is left out.
pub mod Lookup
pub mod Calls
pub mod Marks
use kernelite.Base.{ℕ, zero, suc, ◌+◌, ◌*◌, ◌/◌, Bool, true, false, ◌&&◌, ◌||◌, not}
use kernelite.Base.{Option, none, some, List, [], ◌∷◌, map, replicate}
use kernelite.Base.{ltb, leb, ◌==◌, if◌then◌else◌, u64, Mem}
use kernelite.MemLayout.{va_to_pa, pa_to_va}
use kernelite.PageAllocator.Chunk.{
  Chunk, page_size, is_used, chunk_end, page_init_chunk, bitmap_bytes,
}
use kernelite.PageAllocator.Chunk.{reserve_page_chunk, page_alloc_chunk, page_free_chunk}

-- MAX_MEM_CHUNKS
abbrev pub max_mem_chunks : ℕ
max_mem_chunks = 10

-- The static array as the program finds it, all zero.
abbrev pub mem_chunks : List Chunk
mem_chunks =
    replicate max_mem_chunks
      (record { bitmap = 0; total_pages = 0; mem_base = 0; initialized = false })

-- `addr` lies in the initialized chunk `c`.
unfoldable pub owns : ℕ → Chunk → Bool
unfolding chunk_end
owns addr c = c.initialized && (leb c.mem_base addr && ltb addr (chunk_end c))

unfoldable pub find_chunk_for_address : ℕ → List Chunk → Option Chunk
find_chunk_for_address addr [] = none
find_chunk_for_address addr (c ∷ cs) =
    if owns addr c then some c else find_chunk_for_address addr cs

-- The inner loop of `find_chunk_with_free_pages` at page `j`, with `left` pages to go.
unfoldable pub has_run : ℕ → Mem → ℕ → ℕ → ℕ → ℕ → Bool
has_run bitmap m num zero j found = false
has_run bitmap m num (suc left) j found =
    let restart = has_run bitmap m num left (j + 1) 0 in
    let onwards = has_run bitmap m num left (j + 1) (found + 1) in
    if is_used bitmap m j then restart else if found + 1 == num then true else onwards

unfoldable pub find_chunk_with_free_pages : ℕ → List Chunk → Mem → Option Chunk
find_chunk_with_free_pages num [] m = none
find_chunk_with_free_pages num (c ∷ cs) m =
    if c.initialized && has_run c.bitmap m num c.total_pages 0 0
    then some c
    else find_chunk_with_free_pages num cs m

module _ (image_start image_end kernel_base_va : ℕ) where
  unfoldable pub page_allocator_add_region :
      ℕ → ℕ → Bool → List Chunk → Mem → Bool × List Chunk × Mem
  page_allocator_add_region mem_start mem_size check [] m = (false, [], m)
  page_allocator_add_region mem_start mem_size check (c ∷ cs) m =
      let (ok, c', m') =
        page_init_chunk image_start image_end kernel_base_va mem_start mem_size c check m in
      let (ok', cs', m'') = page_allocator_add_region mem_start mem_size check cs m in
      if c.mem_base == mem_start || not c.initialized
      then (ok, c' ∷ cs, m')
      else (ok', c ∷ cs', m'')

unfoldable pub page_allocator_remove_region : ℕ → List Chunk → Bool × List Chunk
page_allocator_remove_region mem_start [] = (false, [])
page_allocator_remove_region mem_start (c ∷ cs) =
    let (found, cs') = page_allocator_remove_region mem_start cs in
    if c.initialized && (c.mem_base == mem_start)
    then (true, record c { initialized = false } ∷ cs)
    else (found, c ∷ cs')

unfoldable pub fixup_chunk : ℕ → Chunk → Chunk
fixup_chunk kernel_base_va c =
    if c.initialized then record c { bitmap = pa_to_va kernel_base_va c.bitmap } else c

unfoldable pub fixup_page_allocator : ℕ → List Chunk → List Chunk
unfolding fixup_chunk
fixup_page_allocator kernel_base_va cs = map (fixup_chunk kernel_base_va) cs

-- What `reserve_page`, `page_alloc` and `page_free` do with the chunk that they looked up.
unfoldable pub reserve_in : ℕ → ℕ → Mem → Option Chunk → Bool × Mem
reserve_in start num m none = (false, m)
reserve_in start num m (some c) = reserve_page_chunk start num c m

unfoldable pub reserve_page : ℕ → ℕ → List Chunk → Mem → Bool × Mem
unfolding reserve_in
reserve_page start num cs m = reserve_in start num m (find_chunk_for_address start cs)

unfoldable pub alloc_in : ℕ → Mem → Option Chunk → ℕ × Mem
alloc_in num m none = (0, m)
alloc_in num m (some c) = page_alloc_chunk num c m

unfoldable pub page_alloc : ℕ → List Chunk → Mem → ℕ × Mem
unfolding alloc_in
page_alloc num cs m = alloc_in num m (find_chunk_with_free_pages num cs m)

unfoldable pub free_in : ℕ → ℕ → Mem → Option Chunk → Mem
free_in start num m none = m
free_in start num m (some c) = page_free_chunk start num c m

unfoldable pub page_free : ℕ → ℕ → List Chunk → Mem → Mem
unfolding free_in
page_free start num cs m = free_in start num m (find_chunk_for_address start cs)

-- The two helpers of the in-kernel tests.
unfoldable pub invalidate_all_memory_chunks : List Chunk → List Chunk
invalidate_all_memory_chunks cs = map {A = Chunk} (λ c. record c { initialized = false }) cs

unfoldable pub bitmap_of : ℕ → Option Chunk → ℕ × ℕ
bitmap_of kernel_base_va none = (0, 0)
bitmap_of kernel_base_va (some c) = (va_to_pa kernel_base_va c.bitmap, bitmap_bytes c.total_pages)

unfoldable pub get_bitmap_addr_and_size : ℕ → ℕ → List Chunk → ℕ × ℕ
unfolding bitmap_of
get_bitmap_addr_and_size kernel_base_va addr cs =
    bitmap_of kernel_base_va (find_chunk_for_address addr cs)
