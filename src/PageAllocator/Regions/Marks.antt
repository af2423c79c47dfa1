-- ===== src/PageAllocator/Regions/Marks.antt =====
-- Pages that are in use stay in use: nothing but page_free clears a bit of a bitmap.
use kernelite.Base.{ℕ, zero, suc, ◌+◌, ◌-◌, ◌*◌, ◌/◌, true, ◌≡◌}
use kernelite.Base.{Option, none, some, List, Mem, u64, ◌==◌, Bool-cases, ltb, ◌||◌}
use kernelite.Base.{inl, inr}
use kernelite.PageAllocator.Chunk.{
  Chunk, is_used, set_page, set_range, take_run, find_run, page_alloc_chunk, reserve_page_chunk,
  chunk_end, page_size,
}
use kernelite.PageAllocator.Bitmap.{set_page-kept}
use kernelite.PageAllocator.Regions.{
  page_alloc, alloc_in, find_chunk_with_free_pages, reserve_page, reserve_in,
  find_chunk_for_address,
}

module _ (bm j : ℕ) where
  set_range-kept :
      (bm' left i : ℕ) (m : Mem)
      → is_used bm m j ≡ true
      → is_used bm (set_range bm' left i m) j ≡ true
  unfolding set_range
  set_range-kept bm' zero i m e = e
  set_range-kept bm' (suc left) i m e =
      set_range-kept bm' left (u64 (i + 1)) (set_page bm' i m) (set_page-kept bm bm' i m j e)

  take_run-kept :
      (num : ℕ) (c : Chunk) (m : Mem) (o : Option ℕ)
      → is_used bm m j ≡ true
      → is_used bm (take_run num c m o).1 j ≡ true
  unfolding take_run
  take_run-kept num c m none e = e
  take_run-kept num c m (some s) e = set_range-kept c.bitmap (u64 (s + num) - s) s m e

  alloc_in-kept :
      (num : ℕ) (m : Mem) (o : Option Chunk)
      → is_used bm m j ≡ true
      → is_used bm (alloc_in num m o).1 j ≡ true
  unfolding alloc_in page_alloc_chunk
  alloc_in-kept num m none e = e
  alloc_in-kept num m (some c) e = elim (Bool-cases (num == 0)) [
    | inl nothing ↦ rw nothing e
    | inr some' ↦ elim (Bool-cases (ltb c.total_pages num)) [
      | inl large ↦ rw (some', large) e
      | inr fits ↦
          rw (some', fits) (take_run-kept num c m (find_run c.bitmap m num c.total_pages 0 0 0) e)
    ]
  ]

  pub page_alloc-kept :
      (num : ℕ) (cs : List Chunk) (m : Mem)
      → is_used bm m j ≡ true
      → is_used bm (page_alloc num cs m).1 j ≡ true
  unfolding page_alloc
  page_alloc-kept num cs m e = alloc_in-kept num m (find_chunk_with_free_pages num cs m) e

  pub reserve_in-kept :
      (start num : ℕ) (m : Mem) (o : Option Chunk)
      → is_used bm m j ≡ true
      → is_used bm (reserve_in start num m o).1 j ≡ true
  unfolding reserve_in reserve_page_chunk
  reserve_in-kept start num m none e = e
  reserve_in-kept start num m (some c) e =
      elim (Bool-cases (c.mem_base == 0 || (c.total_pages == 0 || c.bitmap == 0))) [
        | inl bad ↦ rw bad e
        | inr good ↦
            let end_addr = u64 (start + u64 (num * page_size)) in
            elim (Bool-cases (ltb start c.mem_base || ltb (chunk_end c) end_addr)) [
              | inl outside ↦ rw (good, outside) e
              | inr inside ↦
                  rw (good, inside)
                    (set_range-kept c.bitmap num ((start - c.mem_base) / page_size) m e)
            ]
      ]

  pub reserve_page-kept :
      (start num : ℕ) (cs : List Chunk) (m : Mem)
      → is_used bm m j ≡ true
      → is_used bm (reserve_page start num cs m).1 j ≡ true
  unfolding reserve_page
  reserve_page-kept start num cs m e =
      reserve_in-kept start num m (find_chunk_for_address start cs) e
