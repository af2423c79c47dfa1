-- ===== src/Startup/Leave.antt =====
-- src/kernel/main.c: what high_half_main leaves of the low half of the address space.
use kernelite.Base.{
  ℕ, ◌+◌, ◌-◌, ◌*◌, ◌/◌, ◌^◌, ◌<◌, min, Bool, true, false, ◌≡◌, inl, inr, refl, ap, ◌∙◌, arith,
}
use kernelite.Base.{
  List, [], ◌∷◌, Option, none, some, Mem, Bool-cases, u8, bit_and, ◌!=◌, ◌%◌, if◌then◌else◌,
}
use mathlib.Core.Path.{sym}
use kernelite.MemLayout.{kernel_base, update_kernel_base_va, va_to_pa, pa_to_va}
use kernelite.MemLayout.RoundTrip.{translations_inverse}
use kernelite.Mmu.Place.{bits, get}
use kernelite.Mmu.Tcr.{tcr_place, epd0}
use kernelite.Mmu.Outcome.{disable_ttbr0_lem}
use kernelite.PageAllocator.Chunk.{Chunk, page_size, is_used}
use kernelite.PageAllocator.Bitmap.{within}
use kernelite.PageAllocator.Alloc.{IsValid, page_of, page_free_chunk_lem}
use kernelite.PageAllocator.Init.{Inside}
use kernelite.PageAllocator.Regions.{
  fixup_chunk, fixup_page_allocator, find_chunk_for_address, page_free, owns,
}
use kernelite.PageAllocator.Regions.Lookup.{
  Live, Manages, WellFormed, Owner, find_chunk_for_address-Owner,
}
use kernelite.Startup.Main.{Symbols, Machine}
use kernelite.Startup.HighHalf.{seen_high, free_id_map, leave_low_half}

fixup_chunk-live :
    (k : ℕ) (c : Chunk)
    → c.initialized ≡ true
    → fixup_chunk k c ≡ record c { bitmap = pa_to_va k c.bitmap }
unfolding fixup_chunk
fixup_chunk-live k c on = rw on refl

Live-on : (c : Chunk) (cs : List Chunk) → Live c cs → c.initialized ≡ true
Live-on c [] l = absurd l
Live-on c (d ∷ cs) (inl e) = e.1
Live-on c (d ∷ cs) (inr l) = Live-on c cs l

Live-fixup :
    (k : ℕ) (c : Chunk) (cs : List Chunk)
    → Live c cs
    → Live (fixup_chunk k c) (fixup_page_allocator k cs)
unfolding fixup_page_allocator
Live-fixup k c [] l = absurd l
Live-fixup k c (d ∷ cs) (inl e) =
    inl (ap (fixup_chunk k) e.0, ap (λ (x : Chunk). x.initialized) (fixup_chunk-live k c e.1) ∙ e.1)
Live-fixup k c (d ∷ cs) (inr l) = inr (Live-fixup k c cs l)

owns-fixup : (k a : ℕ) (c : Chunk) → owns a (fixup_chunk k c) ≡ owns a c
unfolding owns fixup_chunk
owns-fixup k a c = elim (Bool-cases c.initialized) [ inl on ↦ rw on refl | inr off ↦ rw off refl ]

-- A byte of the bitmap under its high address is the byte that it was.
is_used-seen_high :
    (b j : ℕ) (m : Mem)
    → b + j / 8 < 2 ^ 48
    → is_used (pa_to_va kernel_base b) (seen_high kernel_base m) j ≡ is_used b m j
unfolding is_used va_to_pa pa_to_va
is_used-seen_high b j m small =
    let same : va_to_pa kernel_base (pa_to_va kernel_base b + j / 8) ≡ b + j / 8 = omega arith in
    ap (λ x. u8 (bit_and (m x) (2 ^ (j % 8))) != 0) same

find_chunk_for_address-fixup :
    (k a : ℕ) (c : Chunk) (cs : List Chunk)
    → find_chunk_for_address a cs ≡ some c
    → find_chunk_for_address a (fixup_page_allocator k cs) ≡ some (fixup_chunk k c)
unfolding find_chunk_for_address fixup_page_allocator
find_chunk_for_address-fixup k a c [] e = absurd (cc e)
find_chunk_for_address-fixup k a c (d ∷ cs) e =
    rw (owns-fixup k a d) (decide (owns a d) (find_chunk_for_address-fixup k a c cs) e)
  where
    decide :
        (own : Bool)
        → (find_chunk_for_address a cs ≡ some c
            → find_chunk_for_address a (fixup_page_allocator k cs) ≡ some (fixup_chunk k c))
        → (if own then some d else find_chunk_for_address a cs) ≡ some c
        → (if own
            then some (fixup_chunk k d)
            else find_chunk_for_address a (fixup_page_allocator k cs))
          ≡ some (fixup_chunk k c)
    decide true rest here = cc here
    decide false rest later = rest later

-- A search by address that some live chunk of a well-formed array must answer finds that chunk.
find_chunk_for_address-Live :
    (a : ℕ) (c : Chunk) (cs : List Chunk)
    → WellFormed cs
    → Live c cs
    → Manages c a
    → find_chunk_for_address a cs ≡ some c
find_chunk_for_address-Live a c cs w l inside =
    decide (find_chunk_for_address a cs) (find_chunk_for_address-Owner a cs)
  where
    decide : (o : Option Chunk) → Owner a cs o → o ≡ some c
    decide none no_owner = absurd (no_owner c l (w.valid c l) inside)
    decide (some d) owner = elim (w.separate c d l owner.0) [
      | inl same ↦ ap some (sym same)
      | inr apart ↦ absurd (apart a inside (owner.1 (w.valid d owner.0)))
    ]

fixup_chunk-IsValid :
    (c : Chunk)
    → IsValid c
    → c.bitmap < 2 ^ 48
    → IsValid (record c { bitmap = pa_to_va kernel_base c.bitmap })
unfolding pa_to_va
fixup_chunk-IsValid c v small = record {
  based = v.based;
  mapped = omega arith;
  nonempty = v.nonempty;
  ends = v.ends;
}

-- The seven pages of the pool in its chunk, with the chunk's bitmap at its high address.
free_id_map_lem :
    (sym : Symbols) (c : Chunk) (cs : List Chunk) (m : Mem)
    → WellFormed cs
    → Live c cs
    → Inside sym.idmap_pg_dir_bitmap_start 7 c
    → sym.idmap_pg_dir_bitmap_start < 2 ^ 48
    → c.bitmap + c.total_pages < 2 ^ 48
    → (j : ℕ) → j < c.total_pages
    → is_used
        (fixup_chunk kernel_base c).bitmap
        (free_id_map kernel_base sym
          (fixup_page_allocator kernel_base cs)
          (seen_high kernel_base m))
        j
      ≡ (if within (page_of c sym.idmap_pg_dir_bitmap_start) 7 j
          then false
          else is_used c.bitmap m j)
unfolding free_id_map page_free
free_id_map_lem symbols c cs m w l inside low small j hj =
    let pool = symbols.idmap_pg_dir_bitmap_start in
    let c' : Chunk = record c { bitmap = pa_to_va kernel_base c.bitmap } in
    let v = fixup_chunk-IsValid c (w.valid c l) (omega arith) in
    let same : va_to_pa kernel_base (pa_to_va kernel_base pool) ≡ pool =
      (translations_inverse kernel_base pool (omega arith) (omega arith)).0 in
    let found : find_chunk_for_address pool (fixup_page_allocator kernel_base cs) ≡ some c' =
      find_chunk_for_address-fixup kernel_base pool c cs
        (find_chunk_for_address-Live pool c cs w l (inside.0, omega (arith, inside)))
      ∙ ap some (fixup_chunk-live kernel_base c (Live-on c cs l)) in
    let frees =
      (page_free_chunk_lem pool 7 c' (seen_high kernel_base m) v inside.0 (omega (arith, inside))
          (omega (arith, inside, v.ends))).0
        j in
    let shown = is_used-seen_high c.bitmap j m (omega arith) in
    let one : min 7 (c.total_pages - page_of c pool) ≡ 7 = omega (arith, inside) in
    rw (fixup_chunk-live kernel_base c (Live-on c cs l), same, found, frees, one, shown) refl

module _ (sym : Symbols) (g : Machine) where
  -- Where the chunks of the page allocator are well-formed, one of them, with a bitmap below 2^48, manages the seven
  -- pages of the pool of the identity map, the pool ends below 2^48, and TCR_EL1 is a 64-bit word: after leave_low_half
  -- the chunk is still in the array, with its bitmap at the high address; in it exactly the seven pages have become free;
  -- the root of the low half is 0, and a miss there is a fault; the root of the kernel's half and the other bits of
  -- TCR_EL1 are as before.
  pub leave_low_half_lem :
      (c : Chunk)
      → WellFormed g.mem_chunks
      → Live c g.mem_chunks
      → Inside sym.idmap_pg_dir_bitmap_start 7 c
      → sym.idmap_pg_dir_bitmap_start + 7 * page_size < 2 ^ 48
      → c.bitmap + c.total_pages < 2 ^ 48
      → g.regs.tcr_el1 < 2 ^ 64
      → let g' = leave_low_half sym g in
        let c' = fixup_chunk kernel_base c in
        Live c' g'.mem_chunks
        × ((j : ℕ)
            → j < c.total_pages
            → is_used c'.bitmap g'.bitmaps j ≡ (
                if within (page_of c sym.idmap_pg_dir_bitmap_start) 7 j
                then false
                else is_used c.bitmap g.bitmaps j))
        × (get (tcr_place epd0) g'.regs.tcr_el1 ≡ 1)
        × (get (bits 0 7) g'.regs.tcr_el1 ≡ get (bits 0 7) g.regs.tcr_el1)
        × (get (bits 8 56) g'.regs.tcr_el1 ≡ get (bits 8 56) g.regs.tcr_el1)
        × (g'.regs.ttbr0_el1 ≡ 0)
        × (g'.regs.ttbr1_el1 ≡ g.regs.ttbr1_el1)
  unfolding leave_low_half update_kernel_base_va
  leave_low_half_lem c w l inside low small word =
      let (fault, below, above, off, kept, _, _) = disable_ttbr0_lem g.regs word in
      (
        Live-fixup kernel_base c g.mem_chunks l,
        free_id_map_lem sym c g.mem_chunks g.bitmaps w l inside (omega arith) small,
        fault,
        below,
        above,
        off,
        kept,
      )
