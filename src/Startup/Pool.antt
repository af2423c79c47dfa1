-- ===== src/Startup/Pool.antt =====
-- The chunk that setup_kernel_id_map adds to an allocator that manages nothing, and takes out again.
use kernelite.Base.{
  ℕ, ◌+◌, ◌%◌, ◌^◌, ◌<◌, Bool, true, false, ◌≡◌, inl, inr, refl, sym, ap, ◌∙◌, arith,
}
use kernelite.Base.{List, [], ◌∷◌, Mem, Bool-cases, ◌&&◌, ◌||◌, ◌==◌, not}
use kernelite.PageAllocator.Chunk.{Chunk, page_init_chunk, place_bitmap, align_up}
use kernelite.PageAllocator.Init.{align_up_lem}
use kernelite.PageAllocator.Regions.{page_allocator_add_region, page_allocator_remove_region}
use kernelite.PageAllocator.Regions.Lookup.{Live}

-- Nothing is live in the array.
abbrev pub Empty : List Chunk → Type 0
Empty cs = (c : Chunk) → ¬ Live c cs

off : (d : Chunk) (cs : List Chunk) → Empty (d ∷ cs) → d.initialized ≡ false
off d cs empty = elim (Bool-cases d.initialized) [
  | inl on ↦ absurd (empty d (inl (refl, on)))
  | inr e ↦ e
]

Empty-cons : (d : Chunk) (cs : List Chunk) → d.initialized ≡ false → Empty cs → Empty (d ∷ cs)
Empty-cons d cs e empty c l = elim l [
  | inl here ↦
      let on : d.initialized ≡ true = ap (λ (x : Chunk). x.initialized) (sym here.0) ∙ here.1 in
      absurd (cc)
  | inr there ↦ empty c there
]

remove_region-Empty :
    (start : ℕ) (cs : List Chunk) → Empty cs → Empty (page_allocator_remove_region start cs).1
unfolding page_allocator_remove_region
remove_region-Empty start [] empty = empty
remove_region-Empty start (d ∷ cs) empty =
    let idle = off d cs empty in
    let no : (d.initialized && (d.mem_base == start)) ≡ false = ground arith in
    rw no (
      Empty-cons d (page_allocator_remove_region start cs).1 idle
        (remove_region-Empty start cs (λ c l. empty c (inr l))))

module _ (image_start image_end kernel_base_va : ℕ) where
  page_init_chunk-base :
      (start size : ℕ) (check : Bool) (c : Chunk) (m : Mem)
      → let c' = (page_init_chunk image_start image_end kernel_base_va start size c check m).1 in
        c'.initialized ≡ true → c'.mem_base ≡ align_up start
  unfolding page_init_chunk place_bitmap
  page_init_chunk-base start size check c m on = ground arith

  -- A region at an aligned address that is added and removed leaves nothing live.
  pub remove-add_region-Empty :
      (start size : ℕ) (check : Bool) (cs : List Chunk) (m : Mem)
      → start % 4096 ≡ 0
      → start + 4095 < 2 ^ 64
      → Empty cs
      → Empty
          (page_allocator_remove_region start
            (page_allocator_add_region image_start image_end kernel_base_va start size check cs
              m).1).1
  unfolding page_allocator_add_region page_allocator_remove_region
  remove-add_region-Empty start size check [] m aligned small empty = empty
  remove-add_region-Empty start size check (d ∷ cs) m aligned small empty =
      let idle = off d cs empty in
      let here : (d.mem_base == start || not d.initialized) ≡ true = ground arith in
      let rest : Empty cs = λ c l. empty c (inr l) in
      let made = (page_init_chunk image_start image_end kernel_base_va start size d check m).1 in
      elim (Bool-cases made.initialized) [
        | inl on ↦
            let base = page_init_chunk-base start size check d m on in
            let found : (made.initialized && (made.mem_base == start)) ≡ true =
              ground (arith, base, align_up_lem start small) in
            rw (here, found) (Empty-cons (record made { initialized = false }) cs refl rest)
        | inr idle' ↦
            let no : (made.initialized && (made.mem_base == start)) ≡ false = ground arith in
            rw (here, no)
              (Empty-cons made (page_allocator_remove_region start cs).1 idle'
                (remove_region-Empty start cs rest))
      ]
