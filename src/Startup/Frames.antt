-- ===== src/Startup/Frames.antt =====
-- The page allocator of src/kernel/allocator/page_allocator.c as the allocator of the page tables.
use kernelite.Base.{ℕ, ◌+◌, ◌*◌, ◌%◌, ◌^◌, ◌≤◌, ◌<◌, true, false, ◌≡◌, ◌≢◌, inl, inr, refl}
use kernelite.Base.{ap, arith, List, Mem}
use mathlib.Core.Path.{subst}
use kernelite.PageAllocator.Chunk.{Chunk, page_size, is_used}
use kernelite.PageAllocator.Alloc.{page_of}
use kernelite.PageAllocator.Regions.{page_alloc}
use kernelite.PageAllocator.Regions.Lookup.{Live, Manages, WellFormed}
use kernelite.PageAllocator.Regions.Calls.{Granted, Granted-of, Granted-bounds, page_alloc_lem}
use kernelite.PageAllocator.Regions.Marks.{page_alloc-kept}
use kernelite.PageTable.Walk.Tree.{Frames}

-- The page at `p` belongs to a live chunk and is marked.
pub record Marked (cs : List Chunk) (m : Mem) (p : ℕ) : Type 0 where
  pub by : Chunk
  pub live : Live by cs
  pub manages : Manages by p
  pub marked : is_used by.bitmap m (page_of by p) ≡ true

module _ (cs : List Chunk) (well : WellFormed cs)
    (aligned : (c : Chunk) → Live c cs → c.mem_base % page_size ≡ 0)
    (low : (c : Chunk) → Live c cs → c.mem_base + c.total_pages * page_size ≤ 2 ^ 48) where
  page_alloc-Granted :
      (m : Mem)
      → (page_alloc 1 cs m).0 ≢ 0
      → Granted cs 1 m (page_alloc 1 cs m).0 (page_alloc 1 cs m).1
  page_alloc-Granted m h =
      Granted-of cs 1 m (page_alloc 1 cs m).1 (page_alloc 1 cs m).0 well (omega arith) refl h

  pub page_alloc-aligned : (m : Mem) → (page_alloc 1 cs m).0 % page_size ≡ 0
  page_alloc-aligned m = elim (page_alloc_lem 1 cs m well (omega arith)) [
    | inl g ↦ let base = aligned g.from g.live in omega (arith, g.given.address)
    | inr refused ↦ rw refused.0 refl
  ]

  pub page_alloc-small : (m : Mem) → (page_alloc 1 cs m).0 < 2 ^ 48
  page_alloc-small m = elim (page_alloc_lem 1 cs m well (omega arith)) [
    | inl g ↦
        let top = low g.from g.live in
        omega (arith, Granted-bounds cs 1 m (page_alloc 1 cs m).0 (page_alloc 1 cs m).1 g)
    | inr refused ↦ rw refused.0 (omega arith)
  ]

  -- A page that is granted was not marked, in any chunk, and is so afterwards.
  pub page_alloc-fresh : (m : Mem) → (page_alloc 1 cs m).0 ≢ 0 → ¬ Marked cs m (page_alloc 1 cs m).0
  page_alloc-fresh m h u =
      let g = page_alloc-Granted m h in
      let p = (page_alloc 1 cs m).0 in
      elim (well.separate g.from u.by g.live u.live) [
        | inl same ↦
            let base : g.from.mem_base ≡ u.by.mem_base = ap (λ (c : Chunk). c.mem_base) same in
            let at : page_of u.by p ≡ g.given.index = omega (arith, g.given.address) in
            let taken : is_used u.by.bitmap m g.given.index ≡ true =
              subst (λ j. is_used u.by.bitmap m j ≡ true) at u.marked in
            let free : is_used g.from.bitmap m g.given.index ≡ false =
              g.given.fit.free g.given.index (omega arith) (omega arith) in
            absurd (cc)
        | inr apart ↦
            apart p (omega (arith, Granted-bounds cs 1 m p (page_alloc 1 cs m).1 g)) u.manages
      ]

  pub page_alloc-Marked :
      (m : Mem) → (page_alloc 1 cs m).0 ≢ 0 → Marked cs (page_alloc 1 cs m).1 (page_alloc 1 cs m).0
  page_alloc-Marked m h =
      let g = page_alloc-Granted m h in
      let p = (page_alloc 1 cs m).0 in
      let at : page_of g.from p ≡ g.given.index = omega (arith, g.given.address) in
      record {
        by = g.from;
        live = g.live;
        manages = omega (arith, Granted-bounds cs 1 m p (page_alloc 1 cs m).1 g);
        marked = ground (arith, g.given.marks (page_of g.from p), at);
      }

  pub Marked-page_alloc : (m : Mem) (p : ℕ) → Marked cs m p → Marked cs (page_alloc 1 cs m).1 p
  Marked-page_alloc m p u = record {
    by = u.by;
    live = u.live;
    manages = u.manages;
    marked = page_alloc-kept u.by.bitmap (page_of u.by p) 1 cs m u.marked;
  }

  -- What the page tables need of the allocator holds of page_alloc on aligned chunks below 2^48.
  abbrev pub frames : Frames Mem
  frames = record {
    page_alloc = page_alloc 1 cs;
    in_use = Marked cs;
    aligned = page_alloc-aligned;
    small = page_alloc-small;
    fresh = page_alloc-fresh;
    granted = page_alloc-Marked;
    kept = Marked-page_alloc;
  }
