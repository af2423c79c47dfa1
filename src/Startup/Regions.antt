-- ===== src/Startup/Regions.antt =====
-- src/kernel/utils/utils.c, the loop of setup_page_allocator: the chunks that come of the regions.
use kernelite.Base.{
  ℕ, ◌+◌, ◌-◌, ◌*◌, ◌/◌, ◌%◌, ◌^◌, ◌≤◌, ◌<◌, Bool, true, false, ◌≡◌, ◌⊎◌, inl, inr,
}
use kernelite.Base.{refl, sym, ap, ◌∙◌, arith, List, [], ◌∷◌, Mem, Bool-cases, All}
use kernelite.Base.{leb, ◌==◌, ◌||◌, ◌&&◌, not, u64, sub64}
use mathlib.Core.Path.{subst}
use kernelite.Bits.{bit_and_high}
use kernelite.MemLayout.{va_to_pa, pa_to_va}
use kernelite.Fdt.Memory.{MemoryRegion, MemoryMap}
use kernelite.PageAllocator.Chunk.{
  Chunk, page_size, page_init_chunk, place_bitmap, reserve_page_chunk, align_up,
  check_kernel_binary_overlap, num_pages, bitmap_bytes, zero_bytes,
}
use kernelite.PageAllocator.Alloc.{IsValid}
use kernelite.PageAllocator.Regions.{page_allocator_add_region}
use kernelite.PageAllocator.Regions.Lookup.{Live, Manages, WellFormed}
use kernelite.Startup.Steps.{add_regions}
use kernelite.Startup.Pool.{Empty}

-- The region ends at or below the limit; the region ends below 2^64.
abbrev pub Below : ℕ → MemoryRegion → Type 0
Below limit r = r.base + r.size ≤ limit

abbrev pub Bounded : MemoryRegion → Type 0
Bounded r = r.base + r.size < 2 ^ 64

abbrev pub Apart : MemoryRegion → MemoryRegion → Type 0
Apart r q = (r.base + r.size ≤ q.base) ⊎ (q.base + q.size ≤ r.base)

-- The regions to come are apart from those that are done, and from one another.
abbrev pub Fresh : MemoryMap → MemoryMap → Type 0
Fresh done [] = Unit
Fresh done (r ∷ rs) = All (Apart r) done × Fresh (r ∷ done) rs

abbrev pub Within : Chunk → MemoryRegion → Type 0
Within c r = (r.base ≤ c.mem_base) × (c.mem_base + c.total_pages * page_size ≤ r.base + r.size)

abbrev pub WithinSome : Chunk → MemoryMap → Type 0
WithinSome c [] = ⊥
WithinSome c (r ∷ rs) = Within c r ⊎ WithinSome c rs

-- What becomes of a region: a valid chunk, aligned and inside it.
pub record Made (r : MemoryRegion) (c : Chunk) : Type 0 where
  pub valid : IsValid c
  pub aligned : c.mem_base % page_size ≡ 0
  pub within : Within c r

-- The chunks of the regions that are done, all below a limit.
pub record Laid (limit : ℕ) (done : MemoryMap) (cs : List Chunk) : Type 0 where
  pub well : WellFormed cs
  pub aligned : (c : Chunk) → Live c cs → c.mem_base % page_size ≡ 0
  pub from : (c : Chunk) → Live c cs → WithinSome c done
  pub below : (c : Chunk) → Live c cs → c.mem_base + c.total_pages * page_size ≤ limit

-- An allocator without live chunks.
pub Empty-Laid : (limit : ℕ) (cs : List Chunk) → Empty cs → Laid limit [] cs
Empty-Laid limit cs empty = record {
  well = record { valid = λ c l. absurd (empty c l); separate = λ c d l l'. absurd (empty c l) };
  aligned = λ c l. absurd (empty c l);
  from = λ c l. empty c l;
  below = λ c l. absurd (empty c l);
}

reserve_page_chunk-guard :
    (start num : ℕ) (c : Chunk) (m : Mem)
    → (reserve_page_chunk start num c m).0 ≡ true
    → (0 < c.mem_base) × (0 < c.total_pages) × (0 < c.bitmap)
unfolding reserve_page_chunk
reserve_page_chunk-guard start num c m ok = ground arith

pub align_up-page : (a : ℕ) → align_up a ≡ u64 (a + 4095) / page_size * page_size
unfolding align_up
align_up-page a = omega (arith, bit_and_high 12 52 (u64 (a + 4095)))

-- Unless rounding up wraps, the pages of a region lie in it.
align_up-fits :
    (base size : ℕ)
    → base + size < 2 ^ 64
    → 0 < align_up base
    → sub64 (align_up base) base < size
    → (base ≤ align_up base)
      × (align_up base + (size - sub64 (align_up base) base) / page_size * page_size ≤ base + size)
align_up-fits base size h up l = omega (arith, align_up-page base)

-- Chunks inside regions that are apart share no address.
Within-Apart :
    (r : MemoryRegion) (done : MemoryMap) (c d : Chunk)
    → All (Apart r) done
    → WithinSome c done
    → Within d r
    → (a : ℕ) → Manages c a
    → ¬ Manages d a
Within-Apart r [] c d apart some' here a in_c in_d = absurd some'
Within-Apart r (q ∷ done) c d apart some' here a in_c in_d = elim some' [
  | inl there ↦ omega (arith, apart.0, there, here, in_c, in_d)
  | inr rest ↦ Within-Apart r done c d apart.1 rest here a in_c in_d
]

module _ (image_start image_end kernel_base_va : ℕ) where
  place_bitmap-Made :
      (r : MemoryRegion) (total pages : ℕ) (c : Chunk) (m : Mem)
      → let c' = (place_bitmap image_start image_end kernel_base_va total pages c m).1 in
        c.initialized ≡ false
        → c.mem_base % page_size ≡ 0
        → (0 < c.mem_base
            → (r.base ≤ c.mem_base) × (c.mem_base + total * page_size ≤ r.base + r.size))
        → Bounded r
        → c'.initialized ≡ true
        → Made r c'
  unfolding place_bitmap
  place_bitmap-Made r total pages c m off aligned fits bounded =
      let c' : Chunk = record c {
        bitmap = pa_to_va kernel_base_va c.mem_base;
        total_pages = total;
      } in
      let m' = zero_bytes c'.bitmap (bitmap_bytes total) 0 m in
      let start = va_to_pa kernel_base_va c'.bitmap in
      elim (Bool-cases (reserve_page_chunk start pages c' m').0) [
        | inl ok ↦
            let g = reserve_page_chunk-guard start pages c' m' ok in
            let inside = fits g.0 in
            rw ok (λ on. record {
              valid = record {
                based = g.0;
                mapped = g.2;
                nonempty = g.1;
                ends = omega (arith, inside, bounded);
              };
              aligned = aligned;
              within = inside;
            })
        | inr failed ↦ rw failed (λ on. absurd (cc))
      ]

  page_init_chunk-Made :
      (r : MemoryRegion) (check : Bool) (c : Chunk) (m : Mem)
      → Bounded r
      → let c' = (page_init_chunk image_start image_end kernel_base_va r.base r.size c check m).1 in
        c'.initialized ≡ true → Made r c'
  unfolding page_init_chunk
  page_init_chunk-Made r check c m bounded =
      let start = align_up r.base in
      let shift = sub64 start r.base in
      let total = (r.size - shift) / page_size in
      let pages = num_pages (bitmap_bytes total) in
      elim (Bool-cases (leb r.size shift)) [
        | inl small ↦ rw small (λ on. absurd (cc))
        | inr enough ↦
            elim (Bool-cases (
              check
              && check_kernel_binary_overlap image_start image_end start
                  (u64 (pages * page_size)))) [
                    | inl overlap ↦ rw (enough, overlap) (λ on. absurd (cc))
                    | inr clear ↦
                        rw (enough, clear)
                          (place_bitmap-Made r total pages
                            (record c { initialized = false; mem_base = start }) m refl
                            (omega (arith, align_up-page r.base))
                            (λ up. align_up-fits r.base r.size bounded up (ground arith)) bounded)
                  ]
      ]

  -- The chunk that page_allocator_add_region writes; every other live chunk was live before.
  add_region-Live :
      (r : MemoryRegion) (check : Bool) (cs : List Chunk) (m : Mem)
      → let cs' =
          (page_allocator_add_region image_start image_end kernel_base_va r.base r.size check cs
            m).1 in
        Bounded r → (new : Chunk) × ((c : Chunk) → Live c cs' → Live c cs ⊎ ((c ≡ new) × Made r c))
  unfolding page_allocator_add_region
  add_region-Live r check [] m bounded =
      (record { bitmap = 0; total_pages = 0; mem_base = 0; initialized = false }, λ c l. absurd l)
  add_region-Live r check (d ∷ cs) m bounded =
      let (new, rest) = add_region-Live r check cs m bounded in
      let made = (page_init_chunk image_start image_end kernel_base_va r.base r.size d check m).1 in
      elim (Bool-cases (d.mem_base == r.base || not d.initialized)) [
        | inl here ↦ (
          made,
          λ c. rw here (λ l. elim l [
            | inl e ↦ inr (
              e.0,
              subst (Made r) (sym e.0) (
                  page_init_chunk-Made r check d m bounded
                    (ap (λ (x : Chunk). x.initialized) (sym e.0) ∙ e.1)),
            )
            | inr l' ↦ inl (inr l')
          ]),
        )
        | inr there ↦ (
          new,
          λ c. rw there (λ l. elim l [
            | inl e ↦ inl (inl e)
            | inr l' ↦ elim (rest c l') [ inl old ↦ inl (inr old) | inr e ↦ inr e ]
          ]),
        )
      ]

  pub add_region-Laid :
      (limit : ℕ) (r : MemoryRegion) (check : Bool) (done : MemoryMap) (cs : List Chunk) (m : Mem)
      → limit < 2 ^ 64
      → Below limit r
      → All (Apart r) done
      → Laid limit done cs
      → Laid limit
          (r ∷ done)
          (page_allocator_add_region image_start image_end kernel_base_va r.base r.size check cs
            m).1
  add_region-Laid limit r check done cs m small bounded apart laid =
      let (new, which) = add_region-Live r check cs m (omega arith) in
      record {
        well = record {
          valid = λ c l. elim (which c l) [ inl old ↦ laid.well.valid c old | inr e ↦ e.1.valid ];
          separate = λ c d l l'. elim (which c l) [
            | inl old ↦ elim (which d l') [
              | inl old' ↦ laid.well.separate c d old old'
              | inr e ↦ inr (λ a in_c in_d.
                  Within-Apart r done c d apart (laid.from c old) e.1.within a in_c in_d)
            ]
            | inr e ↦ elim (which d l') [
              | inl old' ↦ inr (λ a in_c in_d.
                  Within-Apart r done d c apart (laid.from d old') e.1.within a in_d in_c)
              | inr e' ↦ inl (e.0 ∙ sym e'.0)
            ]
          ];
        };
        aligned = λ c l. elim (which c l) [ inl old ↦ laid.aligned c old | inr e ↦ e.1.aligned ];
        from = λ c l. elim (which c l) [ inl old ↦ inr (laid.from c old) | inr e ↦ inl e.1.within ];
        below = λ c l. elim (which c l) [
          | inl old ↦ laid.below c old
          | inr e ↦ omega (arith, e.1.within)
        ];
      }

  -- The loop over the regions, whether it ends or stops at a region.
  pub add_regions-Laid :
      (limit : ℕ) (mmap done : MemoryMap) (cs : List Chunk) (m : Mem)
      → limit < 2 ^ 64
      → All (Below limit) mmap
      → Fresh done mmap
      → Laid limit done cs
      → (done' : MemoryMap) × Laid limit done'
          (add_regions image_start image_end kernel_base_va mmap cs m).1
  unfolding add_regions
  add_regions-Laid limit [] done cs m small bounded fresh laid = (done, laid)
  add_regions-Laid limit (r ∷ mmap) done cs m small bounded fresh laid =
      let (ok, cs', m') =
        page_allocator_add_region image_start image_end kernel_base_va r.base r.size true cs m in
      let laid' = add_region-Laid limit r true done cs m small bounded.0 fresh.0 laid in
      elim (Bool-cases ok) [
        | inl fine ↦
            rw fine (add_regions-Laid limit mmap (r ∷ done) cs' m' small bounded.1 fresh.1 laid')
        | inr stuck ↦ rw stuck (r ∷ done, laid')
      ]
