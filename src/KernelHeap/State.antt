-- ===== src/KernelHeap/State.antt =====
-- src/kernel/allocator/kalloc.c, the descriptors and the management pages. A descriptor is an
-- address, and memory holds descriptors and the `next_page` of each page; 0 is NULL.
use kernelite.Base.{ℕ, ◌+◌, ◌-◌, ◌*◌, ◌/◌, Bool, false, ◌&&◌, ltb, leb, ◌==◌, if◌then◌else◌}
use kernelite.PageAllocator.Chunk.{page_size}

-- allocated_block_desc_t, 32 bytes.
pub record Desc : Type 0 where
  pub ptr : ℕ
  pub size : ℕ
  pub is_used : Bool
  pub next : ℕ

abbrev pub desc_size : ℕ
desc_size = 32

-- MAX_MANAGEMENT_BLOCKS_PER_PAGE: what is left of a page beside a pointer.
abbrev pub max_blocks : ℕ
max_blocks = (page_size - 8) / desc_size

-- `&page->page[index]`
abbrev pub slot : ℕ → ℕ → ℕ
slot page index = page + index * desc_size

abbrev pub empty_desc : Desc
empty_desc = record { ptr = 0; size = 0; is_used = false; next = 0 }

-- `allocated` and `kalloc_page_head` are the file's variables, `frames` is the page allocator's state.
pub record KernelHeap (S : Type 0) : Type 0 where
  pub allocated : ℕ
  pub kalloc_page_head : ℕ
  pub desc : ℕ → Desc
  pub next_page : ℕ → ℕ
  pub frames : S

-- A write to one address.
unfoldable pub put {ℓ} : {A : Type ℓ} → (ℕ → A) → ℕ → A → ℕ → A
put f a v x = if x == a then v else f x

module _ {S : Type 0} where
  unfoldable pub set_used : ℕ → Bool → KernelHeap S → KernelHeap S
  unfolding put
  set_used b u h = record h { desc = put h.desc b (record (h.desc b) { is_used = u }) }

  unfoldable pub set_next : ℕ → ℕ → KernelHeap S → KernelHeap S
  unfolding put
  set_next b c h = record h { desc = put h.desc b (record (h.desc b) { next = c }) }

  -- A page filled with zero bytes.
  unfoldable pub zero_page : ℕ → KernelHeap S → KernelHeap S
  unfolding put
  zero_page page h = record h {
    desc = λ a. if leb page a && ltb a (page + page_size) then empty_desc else h.desc a;
    next_page = put h.next_page page 0;
  }

  -- invalidate_kalloc_state
  unfoldable pub invalidate_kalloc_state : KernelHeap S → KernelHeap S
  invalidate_kalloc_state h = record h { allocated = 0; kalloc_page_head = 0 }
