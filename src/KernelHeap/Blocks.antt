-- ===== src/KernelHeap/Blocks.antt =====
-- src/kernel/allocator/kalloc.c, the operations. A loop along a list takes fuel and gives `none`
-- when it runs out; printing is left out.
use kernelite.Base.{
  ℕ, zero, suc, ◌+◌, ◌-◌, ◌^◌, bit_and, Bool, true, false, ◌||◌, Option, none, some,
}
use kernelite.Base.{ltb, ◌==◌, if◌then◌else◌}
use kernelite.MemLayout.{va_to_pa, pa_to_va}
use kernelite.PageAllocator.Chunk.{page_size, num_pages}
use kernelite.KernelHeap.State.{
  Desc, KernelHeap, max_blocks, slot, put, set_used, set_next, zero_page,
}

-- The scan of one page for a descriptor that is not in use, with the rounds left.
unfoldable pub first_free : (ℕ → Desc) → ℕ → ℕ → ℕ → Option ℕ
first_free desc page zero index = none
first_free desc page (suc left) index =
    if (desc (slot page index)).is_used
    then first_free desc page left (index + 1)
    else some (slot page index)

-- The scan of the pages from `current` on: the free descriptor if there is one, and the last page read.
unfoldable pub scan_pages : ℕ → (ℕ → Desc) → (ℕ → ℕ) → ℕ → ℕ → Option (Option ℕ × ℕ)
unfolding first_free
scan_pages zero desc next_page current prev = none
scan_pages (suc fuel) desc next_page current prev =
    let onwards = scan_pages fuel desc next_page (next_page current) current in
    let here = elim (first_free desc current max_blocks 0) as (λ _. Option (Option ℕ × ℕ)) [
      | none ↦ onwards
      | some b ↦ some (some b, current)
    ] in
    if current == 0 then some (none, prev) else here

-- The walk to the tail of the allocated list.
unfoldable pub find_tail : ℕ → (ℕ → Desc) → ℕ → Option ℕ
find_tail zero desc current = none
find_tail (suc fuel) desc current =
    let onwards = find_tail fuel desc (desc current).next in
    if (desc current).next == 0 then some current else onwards

-- The descriptor for `ptr` (or 0) and the one before it (or 0).
unfoldable pub find_block : ℕ → (ℕ → Desc) → ℕ → ℕ → ℕ → Option (ℕ × ℕ)
find_block zero desc ptr current prev = none
find_block (suc fuel) desc ptr current prev =
    let onwards = find_block fuel desc ptr (desc current).next current in
    if current == 0
    then some (0, prev)
    else if (desc current).ptr == ptr
    then some (current, prev)
    else onwards

-- The management page (or 0) and the one before it; both are the head at the start.
unfoldable pub find_page : ℕ → (ℕ → ℕ) → ℕ → ℕ → ℕ → Option (ℕ × ℕ)
find_page zero next_page page_addr current prev = none
find_page (suc fuel) next_page page_addr current prev =
    let onwards = find_page fuel next_page page_addr (next_page current) current in
    if current == 0
    then some (0, prev)
    else if current == page_addr
    then some (current, prev)
    else onwards

-- Whether one of the `left` descriptors from `index` on is in use.
unfoldable pub any_used : (ℕ → Desc) → ℕ → ℕ → ℕ → Bool
any_used desc page zero index = false
any_used desc page (suc left) index =
    (desc (slot page index)).is_used || any_used desc page left (index + 1)

module _ {S : Type 0} where
  unfoldable pub add_to_allocated_list : ℕ → ℕ → KernelHeap S → Option (KernelHeap S)
  unfolding find_tail set_next
  add_to_allocated_list fuel block h =
      let h' = set_next block 0 h in
      let appended = elim (find_tail fuel h'.desc h'.allocated) as (λ _. Option (KernelHeap S)) [
        | none ↦ none
        | some tail ↦ some (set_next tail block h')
      ] in
      if block == 0
      then some h
      else if h.allocated == 0
      then some (record h' { allocated = block })
      else appended

  -- What is done with the descriptor that the search found.
  unfoldable pub unlink_block : ℕ × ℕ → KernelHeap S → ℕ × KernelHeap S
  unfolding set_next set_used
  unlink_block (current, prev) h =
      let next = (h.desc current).next in
      let unlinked = if prev == 0 then record h { allocated = next } else set_next prev next h in
      if current == 0 then (0, h) else (current, set_used current false unlinked)

  unfoldable pub remove_from_allocated_list : ℕ → ℕ → KernelHeap S → Option (ℕ × KernelHeap S)
  unfolding find_block unlink_block set_used
  remove_from_allocated_list fuel ptr h =
      let head = h.allocated in
      let searched = elim (find_block fuel h.desc ptr head 0) as (λ _. Option (ℕ × KernelHeap S)) [
        | none ↦ none
        | some found ↦ some (unlink_block found h)
      ] in
      if ptr == 0 || head == 0
      then some (0, h)
      else if (h.desc head).ptr == ptr
      then some (head, set_used head false (record h { allocated = (h.desc head).next }))
      else searched

-- The page allocator comes first: `page_alloc` and `page_free` with their state.
module _ {S : Type 0} (page_alloc : ℕ → S → ℕ × S) (page_free : ℕ → ℕ → S → S)
    (kernel_base_va : ℕ) where
  -- The last test is that of `memset_s(v_addr, PAGE_SIZE, 0, PAGE_SIZE)`.
  unfoldable pub alloc_management_page : KernelHeap S → ℕ × KernelHeap S
  unfolding zero_page
  alloc_management_page h =
      let (p_addr, frames) = page_alloc 1 h.frames in
      let v_addr = pa_to_va kernel_base_va p_addr in
      let h' = record h { frames = frames } in
      if p_addr == 0
      then (0, h')
      else if v_addr == 0
      then (0, h')
      else if v_addr == 0 || (page_size == 0 || ltb page_size page_size)
      then (0, record h' { frames = page_free p_addr 1 frames })
      else (v_addr, zero_page v_addr h')

  -- Links a new page behind `prev` and takes its first descriptor.
  unfoldable pub grow : ℕ → KernelHeap S → ℕ × KernelHeap S
  unfolding alloc_management_page set_used put
  grow prev h =
      let (page, h') = alloc_management_page h in
      let linked = record h' { next_page = put (put h'.next_page prev page) page 0 } in
      if prev == 0
      then (0, h)
      else if page == 0
      then (0, h')
      else (slot page 0, set_used (slot page 0) true linked)

  unfoldable pub scan_or_grow : ℕ → KernelHeap S → Option (ℕ × KernelHeap S)
  unfolding scan_pages grow set_used
  scan_or_grow fuel h = elim (scan_pages fuel h.desc h.next_page h.kalloc_page_head 0) [
    | none ↦ none
    | some (some b, prev) ↦ some (b, set_used b true h)
    | some (none, prev) ↦ some (grow prev h)
  ]

  unfoldable pub find_free_management_block : ℕ → KernelHeap S → Option (ℕ × KernelHeap S)
  unfolding alloc_management_page scan_or_grow put
  find_free_management_block fuel h =
      let (page, h') = alloc_management_page h in
      let started =
        scan_or_grow fuel
          (record h' { kalloc_page_head = page; next_page = put h'.next_page page 0 }) in
      if h.kalloc_page_head == 0
      then (if page == 0 then some (0, h') else started)
      else scan_or_grow fuel h

  unfoldable pub unlink_page : ℕ × ℕ → KernelHeap S → KernelHeap S
  unfolding put
  unlink_page (current, prev) h =
      let next = h.next_page current in
      let unlinked =
        if prev == current
        then record h { kalloc_page_head = next }
        else record h { next_page = put h.next_page prev next } in
      if current == 0
      then h
      else record unlinked { frames = page_free (va_to_pa kernel_base_va current) 1 h.frames }

  unfoldable pub free_management_page_if_empty : ℕ → ℕ → KernelHeap S → Option (KernelHeap S)
  unfolding find_page any_used
  free_management_page_if_empty fuel removed h =
      let head = h.kalloc_page_head in
      let page_addr = bit_and removed (2 ^ 64 - page_size) in
      let freed =
        elim (find_page fuel h.next_page page_addr head head) as (λ _. Option (KernelHeap S)) [
          | none ↦ none
          | some (current, prev) ↦ some (
              if current == 0
              then h
              else if any_used h.desc current max_blocks 0
              then h
              else unlink_page (current, prev) h)
        ] in
      if removed == 0 then some h else freed

  -- From the point where the descriptor is found: the pages, and the entry in the list.
  unfoldable pub fill_block : ℕ → ℕ → ℕ → KernelHeap S → Option (ℕ × KernelHeap S)
  unfolding set_used put
  fill_block fuel size block h =
      let (p_addr, frames) = page_alloc (num_pages size) h.frames in
      let h' = record h { frames = frames } in
      let filled = record (h'.desc block) { ptr = pa_to_va kernel_base_va p_addr; size = size } in
      let added =
        elim (add_to_allocated_list fuel block (record h' { desc = put h'.desc block filled }))
          as (λ _. Option (ℕ × KernelHeap S)) [
            | none ↦ none
            | some h'' ↦ some ((h''.desc block).ptr, h'')
          ] in
      if block == 0
      then some (0, h)
      else if p_addr == 0
      then some (0, set_used block false h')
      else added

  unfoldable pub kmalloc : ℕ → ℕ → KernelHeap S → Option (ℕ × KernelHeap S)
  kmalloc fuel size h =
      let filled = elim (find_free_management_block fuel h) as (λ _. Option (ℕ × KernelHeap S)) [
        | none ↦ none
        | some (block, h') ↦ fill_block fuel size block h'
      ] in
      if size == 0
      then some (0, h)
      else if ltb (2 ^ 64 - 1 - (page_size - 1)) size
      then some (0, h)
      else filled

  -- The pages of the block go back, then its management page if that is empty.
  unfoldable pub release_block : ℕ → ℕ → KernelHeap S → Option (KernelHeap S)
  release_block fuel block h =
      let p_addr = va_to_pa kernel_base_va (h.desc block).ptr in
      let frames = page_free p_addr (num_pages (h.desc block).size) h.frames in
      let released = free_management_page_if_empty fuel block (record h { frames = frames }) in
      if block == 0 then some h else released

  unfoldable pub kfree : ℕ → ℕ → KernelHeap S → Option (KernelHeap S)
  kfree fuel ptr h = elim (remove_from_allocated_list fuel ptr h) [
    | none ↦ none
    | some (block, h') ↦ release_block fuel block h'
  ]
