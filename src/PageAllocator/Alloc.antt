-- ===== src/PageAllocator/Alloc.antt =====
-- `page_alloc_chunk` and `page_free_chunk`: which pages they give and take back.
use kernelite.Base.{ℕ, ◌+◌, ◌-◌, ◌*◌, ◌/◌, ◌^◌, ◌≤◌, ◌<◌, true, false, ◌≡◌, ◌≢◌, ◌⊎◌}
use kernelite.Base.{
  inl, inr, refl, arith, Option, none, some, if◌then◌else◌, min, ==_ne, tests, ltb→lt,
}
use kernelite.Base.{Mem, u64, ltb, Bool-cases}
use kernelite.PageAllocator.Chunk.{Chunk, page_size, is_used, clear_range}
use kernelite.PageAllocator.Chunk.{page_alloc_chunk, page_free_chunk, take_run, chunk_end}
use kernelite.PageAllocator.Bitmap.{within, Outside, is_used-set_range, is_used-clear_range}
use kernelite.PageAllocator.Bitmap.{set_range-Outside, clear_range-Outside}
use kernelite.PageAllocator.Scan.{IsFree, FirstFit, Scanned, find_run-FirstFit}

-- A chunk with a base and a bitmap, whose pages end below 2^64.
pub record IsValid (c : Chunk) : Type 0 where
  pub based : 0 < c.mem_base
  pub mapped : 0 < c.bitmap
  pub nonempty : 0 < c.total_pages
  pub ends : c.mem_base + c.total_pages * page_size < 2 ^ 64

pub IsValid-chunk_end :
    {c : Chunk} → IsValid c → chunk_end c ≡ c.mem_base + c.total_pages * page_size
unfolding chunk_end
IsValid-chunk_end v = omega (arith, v.ends)

-- `p` and `m'` are an allocation of `num` pages of `c` at memory `m`: `p` is the address of the
-- first run that was free, the run's pages are now used, and nothing else has changed.
pub record Allocated (c : Chunk) (num : ℕ) (m : Mem) (p : ℕ) (m' : Mem) : Type 0 where
  pub index : ℕ
  pub address : p ≡ c.mem_base + index * page_size
  pub fit : FirstFit c.bitmap m num c.total_pages index
  pub marks :
      (j : ℕ) → is_used c.bitmap m' j ≡ (if within index num j then true else is_used c.bitmap m j)
  pub frame : (a : ℕ) → Outside c.bitmap index num a → m' a ≡ m a

take_run-Allocated :
    (num : ℕ) (c : Chunk) (m : Mem) (s : ℕ)
    → IsValid c
    → FirstFit c.bitmap m num c.total_pages s
    → let (p, m') = take_run num c m (some s) in Allocated c num m p m'
unfolding take_run
take_run-Allocated num c m s v fit = rw count (record {
  index = s;
  address = omega (arith, v.ends, fit.fits);
  fit = fit;
  marks = λ j. is_used-set_range c.bitmap num s m j (omega (arith, v.ends, fit.fits));
  frame = λ a. set_range-Outside c.bitmap num s m a (omega (arith, v.ends, fit.fits));
})
  where
    count : u64 (s + num) - s ≡ num
    count = omega (arith, v.ends, fit.fits)

-- What can come of an allocation: the first fit, or a null address where there is none.
abbrev pub Outcome : ℕ → Chunk → Mem → ℕ × Mem → Type 0
Outcome num c m r =
    Allocated c num m r.0 r.1
    ⊎ ((r.0 ≡ 0) × (r.1 ≡ m) × ((s : ℕ) → s + num ≤ c.total_pages → ¬ IsFree c.bitmap m s num))

take_run-Outcome :
    (num : ℕ) (c : Chunk) (m : Mem) (o : Option ℕ)
    → IsValid c
    → Scanned c.bitmap m num c.total_pages o
    → Outcome num c m (take_run num c m o)
unfolding take_run
take_run-Outcome num c m none v no_fit = inr (refl, refl, no_fit)
take_run-Outcome num c m (some s) v fit = inl (take_run-Allocated num c m s v fit)

-- Asked for at least one page of a valid chunk, `page_alloc_chunk` either returns the first free run
-- that is long enough, with just its pages marked, or returns the null address and leaves the
-- memory alone, and then no run of the chunk is long enough.
pub page_alloc_chunk_lem :
    (num : ℕ) (c : Chunk) (m : Mem)
    → IsValid c
    → num ≢ 0
    → Outcome num c m (page_alloc_chunk num c m)
unfolding page_alloc_chunk
page_alloc_chunk_lem num c m v h = elim (Bool-cases (ltb c.total_pages num)) [
  | inl big ↦ rw (==_ne h, big) (inr (refl, refl, λ s p. absurd (omega (tests, ltb→lt _ _ big))))
  | inr fits ↦
      rw (==_ne h, fits)
        (take_run-Outcome num c m _ v (find_run-FirstFit c.bitmap m num c.total_pages h))
]

-- The index of the page of `c` that holds address `a`.
abbrev pub page_of : Chunk → ℕ → ℕ
page_of c a = (a - c.mem_base) / page_size

-- The guards of `page_free_chunk` at an address inside a valid chunk.
page_free_chunk-clear_range :
    (start num : ℕ) (c : Chunk) (m : Mem)
    → IsValid c
    → c.mem_base ≤ start
    → start < c.mem_base + c.total_pages * page_size
    → page_of c start + num < 2 ^ 64
    → page_free_chunk start num c m
      ≡ clear_range c.bitmap (min num (c.total_pages - page_of c start)) (page_of c start) m
unfolding page_free_chunk
page_free_chunk-clear_range start num c m v lo hi small = ground arith

-- Freeing at an address inside a valid chunk makes exactly the `num` pages from that address's page
-- on free, or those up to the chunk's end if they are fewer; every other page is as it was, and no
-- byte outside the bitmap of those pages is written. The page index and `num` add up below 2^64.
pub page_free_chunk_lem :
    (start num : ℕ) (c : Chunk) (m : Mem)
    → IsValid c
    → c.mem_base ≤ start
    → start < c.mem_base + c.total_pages * page_size
    → page_of c start + num < 2 ^ 64
    → let s = page_of c start in
      let n = min num (c.total_pages - s) in
      let m' = page_free_chunk start num c m in
      ((j : ℕ) → is_used c.bitmap m' j ≡ (if within s n j then false else is_used c.bitmap m j))
      × ((a : ℕ) → Outside c.bitmap s n a → m' a ≡ m a)
page_free_chunk_lem start num c m v lo hi small =
    rw (page_free_chunk-clear_range start num c m v lo hi small) (
      λ j. is_used-clear_range c.bitmap _ _ m j (omega (arith, v.ends)),
      λ a. clear_range-Outside c.bitmap _ _ m a (omega (arith, v.ends)),
    )

-- Freeing an allocation of a valid chunk makes the chunk's pages free and used as they were before
-- the allocation.
pub page_free_chunk-alloc :
    (num : ℕ) (c : Chunk) (m : Mem) (p : ℕ) (m' : Mem)
    → IsValid c
    → num ≢ 0
    → Allocated c num m p m'
    → (j : ℕ) → is_used c.bitmap (page_free_chunk p num c m') j ≡ is_used c.bitmap m j
page_free_chunk-alloc num c m p m' v h a j =
    let bounds = a.fit.fits in
    let lo : c.mem_base ≤ p = omega (arith, a.address) in
    let hi : p < c.mem_base + c.total_pages * page_size = omega (arith, a.address, bounds) in
    let small : page_of c p + num < 2 ^ 64 = omega (arith, a.address, bounds, v.ends) in
    let same : page_of c p ≡ a.index = omega (arith, a.address) in
    ground
      (arith, (page_free_chunk_lem p num c m' v lo hi small).0 j, a.marks j, a.fit.free j, same)
