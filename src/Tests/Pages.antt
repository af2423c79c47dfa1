-- ===== src/Tests/Pages.antt =====
-- The page allocator on a chunk of four pages.
use kernelite.Base.{ℕ, ◌+◌, ◌*◌, ◌^◌, ◌≤◌, ◌≡◌, ◌⊎◌, inl, inr, refl, ◌∙◌, sym, arith}
use kernelite.Base.{Mem, true, List, [], ◌∷◌, if◌then◌else◌}
use mathlib.Core.Path.{subst}
use kernelite.Base.{◌==◌, store}
use kernelite.MemLayout.{pa_to_va}
use kernelite.PageAllocator.Chunk.{
  Chunk, page_size, is_used, page_alloc_chunk, reserve_page_chunk, page_init_chunk, find_run,
  set_range, set_page, align_up, check_kernel_binary_overlap, num_pages, bitmap_bytes,
}
use kernelite.PageAllocator.Alloc.{IsValid}
use kernelite.PageAllocator.Init.{
  reserve_page_chunk_wraps, Initialised, region_pages, page_init_chunk_lem,
}
use kernelite.PageAllocator.Regions.{page_alloc, page_free, find_chunk_with_free_pages, has_run}
use kernelite.PageAllocator.Regions.Lookup.{Live, Manages, WellFormed}
use kernelite.PageAllocator.Regions.Calls.{
  Answer, page_alloc_lem, page_alloc-disjoint, page_free-alloc,
}

abbrev four : Chunk
four = record { bitmap = 0x9000; total_pages = 4; mem_base = 0x4000; initialized = true }

-- Page 1 is in use.
abbrev memory : Mem
memory = λ a. if a == 0x9000 then 2 else 0

four-IsValid : IsValid four
four-IsValid = omega arith

two_pages : (page_alloc_chunk 2 four memory).0 ≡ 0x6000
unfolding page_alloc_chunk find_run is_used
two_pages = refl

no_three_pages : (page_alloc_chunk 3 four memory).0 ≡ 0
unfolding page_alloc_chunk find_run is_used
no_three_pages = refl

reserve_page_chunk_wraps_example : (reserve_page_chunk 0x4000 (2 ^ 52) four memory).0 ≡ true
reserve_page_chunk_wraps_example =
    reserve_page_chunk_wraps 0x4000 (2 ^ 52) four memory four-IsValid (omega arith) (omega arith)
      (omega arith)

page_init_chunk_lem_example :
    let (ok, c', m') = page_init_chunk 0x100000 0x200000 0 0x4010 0x8000 four true memory in
    (ok ≡ true) × Initialised 0 (align_up 0x4010) (region_pages 0x4010 0x8000) memory c' m'
unfolding align_up
page_init_chunk_lem_example =
    page_init_chunk_lem 0x100000 0x200000 0 (omega arith) 0x4010 0x8000 four true memory
      (omega arith) (omega arith) (omega arith) (omega arith) (unfold pa_to_va in omega arith)
      (unfold check_kernel_binary_overlap num_pages bitmap_bytes in refl)

abbrev chunks : List Chunk
chunks = four ∷ []

chunks-WellFormed : WellFormed chunks
chunks-WellFormed = record {
  valid = λ c l. elim l [ inl e ↦ subst IsValid (sym e.0) four-IsValid | inr bad ↦ absurd bad ];
  separate = λ c d l k. elim l [
    | inl e ↦ elim k [ inl f ↦ inl (e.0 ∙ sym f.0) | inr bad ↦ absurd bad ]
    | inr bad ↦ absurd bad
  ];
}

page_alloc_lem_example : Answer chunks 2 memory (page_alloc 2 chunks memory)
page_alloc_lem_example = page_alloc_lem 2 chunks memory chunks-WellFormed (omega arith)

abbrev after : Mem
after = (page_alloc 1 chunks memory).1

first_page : (page_alloc 1 chunks memory).0 ≡ 0x4000
unfolding page_alloc find_chunk_with_free_pages has_run page_alloc_chunk find_run is_used
first_page = refl

first_grant : page_alloc 1 chunks memory ≡ (0x4000, after)
first_grant = λ i. (first_page i, after)

second_page : (page_alloc 2 chunks after).0 ≡ 0x6000
unfolding page_alloc find_chunk_with_free_pages has_run page_alloc_chunk find_run is_used set_range
    set_page store
second_page = refl

second_grant : page_alloc 2 chunks after ≡ (0x6000, (page_alloc 2 chunks after).1)
second_grant = λ i. (second_page i, (page_alloc 2 chunks after).1)

page_alloc-disjoint_example : (0x4000 + 1 * page_size ≤ 0x6000) ⊎ (0x6000 + 2 * page_size ≤ 0x4000)
page_alloc-disjoint_example =
    page_alloc-disjoint chunks 1 2 memory after (page_alloc 2 chunks after).1 0x4000 0x6000
      chunks-WellFormed (omega arith) (omega arith) first_grant second_grant (omega arith)
      (omega arith)

page_free-alloc_example :
    (c : Chunk) × Live c chunks
    × Manages c 0x4000
    × ((j : ℕ) → is_used c.bitmap (page_free 0x4000 1 chunks after) j ≡ is_used c.bitmap memory j)
page_free-alloc_example =
    page_free-alloc chunks 1 memory after 0x4000 chunks-WellFormed (omega arith) first_grant
      (omega arith)
