-- ===== src/PageAllocator/Regions/Calls.antt =====
-- `page_alloc`, `page_free` and `reserve_page` over all the chunks.
use kernelite.Base.{ℕ, ◌+◌, ◌*◌, ◌≤◌, ◌<◌, false, ◌≡◌, ◌≢◌, ◌⊎◌, inl, inr}
use kernelite.Base.{refl, ap, sym, arith, Option, none, some, List}
use kernelite.Base.{Mem, max}
use native.Mathlib.Decide.{dec_lt}
use mathlib.Core.Path.{subst}
use kernelite.PageAllocator.Chunk.{Chunk, page_size, is_used}
use kernelite.PageAllocator.Scan.{IsFree}
use kernelite.PageAllocator.Alloc.{Allocated, page_alloc_chunk_lem, page_free_chunk-alloc}
use kernelite.PageAllocator.Regions.{
  find_chunk_for_address, find_chunk_with_free_pages, page_alloc, page_free, alloc_in, free_in,
}
use kernelite.PageAllocator.Regions.Lookup.{Live, Manages, Found, Owner, WellFormed}
use kernelite.PageAllocator.Regions.Lookup.{
  find_chunk_with_free_pages-Found, find_chunk_for_address-Owner,
}

-- `p` and `m'` are an allocation of `num` pages from one of the live chunks.
pub record Granted (cs : List Chunk) (num : ℕ) (m : Mem) (p : ℕ) (m' : Mem) : Type 0 where
  pub from : Chunk
  pub live : Live from cs
  pub given : Allocated from num m p m'

-- What `page_alloc` can do: grant pages, or refuse because no live chunk has a run.
abbrev pub Answer : List Chunk → ℕ → Mem → ℕ × Mem → Type 0
Answer cs num m r =
    Granted cs num m r.0 r.1
    ⊎ ((r.0 ≡ 0)
        × (r.1 ≡ m)
        × ((c : Chunk) → Live c cs → (s : ℕ) → s + num ≤ c.total_pages → ¬ IsFree c.bitmap m s num))

alloc_in-Answer :
    (num : ℕ) (cs : List Chunk) (m : Mem) (o : Option Chunk)
    → WellFormed cs
    → num ≢ 0
    → Found num m cs o
    → Answer cs num m (alloc_in num m o)
unfolding alloc_in
alloc_in-Answer num cs m none w h found = inr (refl, refl, found)
alloc_in-Answer num cs m (some c) w h (live, run) =
    elim (page_alloc_chunk_lem num c m (w.valid c live) h) [
      | inl given ↦ inl (record { from = c; live = live; given = given })
      | inr refused ↦ absurd (refused.2 run.0 run.1 run.2)
    ]

-- With well-formed chunks (every live one valid, and any two of them the same or apart) and asked for at least one page, `page_alloc` grants the first long enough free run of a live chunk,
-- and returns the null address, with the memory left alone, exactly where no live chunk has one.
pub page_alloc_lem :
    (num : ℕ) (cs : List Chunk) (m : Mem)
    → WellFormed cs
    → num ≢ 0
    → Answer cs num m (page_alloc num cs m)
unfolding page_alloc
page_alloc_lem num cs m w h =
    alloc_in-Answer num cs m (find_chunk_with_free_pages num cs m) w h
      (find_chunk_with_free_pages-Found num cs m h)

-- A granted range lies in its chunk.
pub Granted-bounds :
    (cs : List Chunk) (num : ℕ) (m : Mem) (p : ℕ) (m' : Mem) (g : Granted cs num m p m')
    → (g.from.mem_base ≤ p)
      × (p + num * page_size ≤ g.from.mem_base + g.from.total_pages * page_size)
Granted-bounds cs num m p m' g = omega (arith, g.given.address, g.given.fit.fits)

pub Granted-of :
    (cs : List Chunk) (num : ℕ) (m m' : Mem) (p : ℕ)
    → WellFormed cs
    → num ≢ 0
    → page_alloc num cs m ≡ (p, m')
    → p ≢ 0
    → Granted cs num m p m'
Granted-of cs num m m' p w h e hp = elim (subst (Answer cs num m) e (page_alloc_lem num cs m w h)) [
  | inl g ↦ g
  | inr refused ↦ absurd (hp refused.0)
]

-- Two grants in a row from one chunk cannot share a page, as the first marks its pages; nor can two
-- from chunks that manage disjoint memory.
Granted-apart :
    (cs : List Chunk) (n k : ℕ) (m m' m'' : Mem) (p q : ℕ)
    → WellFormed cs
    → n ≢ 0
    → k ≢ 0
    → Granted cs n m p m'
    → Granted cs k m' q m''
    → q < p + n * page_size
    → ¬ (p < q + k * page_size)
Granted-apart cs n k m m' m'' p q w hn hk g g' l l' =
    elim (w.separate g.from g'.from g.live g'.live) [
      | inl same ↦
          let e = ap (λ (c : Chunk). c.mem_base) same in
          let j : ℕ = max g.given.index g'.given.index in
          let free : is_used g.from.bitmap m' j ≡ false =
            subst (λ x. is_used x.bitmap m' j ≡ false) (sym same)
              (g'.given.fit.free j (omega arith)
                (omega (arith, g.given.address, g'.given.address))) in
          ground (arith, g.given.marks j, free, g.given.address, g'.given.address)
      | inr apart ↦
          let a : ℕ = max p q in
          let b = Granted-bounds cs n m p m' g in
          let b' = Granted-bounds cs k m' q m'' g' in
          apart a (omega arith, omega arith) (omega arith, omega arith)
    ]

-- Pages that are granted and not freed are not granted again: two allocations in a row of a
-- well-formed allocator are disjoint ranges of memory.
pub page_alloc-disjoint :
    (cs : List Chunk) (n k : ℕ) (m m' m'' : Mem) (p q : ℕ)
    → WellFormed cs
    → n ≢ 0
    → k ≢ 0
    → page_alloc n cs m ≡ (p, m')
    → page_alloc k cs m' ≡ (q, m'')
    → p ≢ 0
    → q ≢ 0
    → (p + n * page_size ≤ q) ⊎ (q + k * page_size ≤ p)
page_alloc-disjoint cs n k m m' m'' p q w hn hk e f hp hq = elim (dec_lt q (p + n * page_size)) [
  | yes l ↦ inr (not-lt_le (Granted-apart cs n k m m' m'' p q w hn hk g g' l))
  | no l ↦ inl (not-lt_le l)
]
  where
    g : Granted cs n m p m'
    g = Granted-of cs n m m' p w hn e hp

    g' : Granted cs k m' q m''
    g' = Granted-of cs k m' m'' q w hk f hq

    not-lt_le : {a b : ℕ} → ¬ (a < b) → b ≤ a
    not-lt_le h = omega arith

-- With well-formed chunks (every live one valid, and any two of them the same or apart), freeing a range of at least one
-- page that page_alloc has just granted restores the state of every page of the chunk that it came from.
pub page_free-alloc :
    (cs : List Chunk) (num : ℕ) (m m' : Mem) (p : ℕ)
    → WellFormed cs
    → num ≢ 0
    → page_alloc num cs m ≡ (p, m')
    → p ≢ 0
    → (c : Chunk) × Live c cs
      × Manages c p
      × ((j : ℕ) → is_used c.bitmap (page_free p num cs m') j ≡ is_used c.bitmap m j)
unfolding page_free
page_free-alloc cs num m m' p w h e hp =
    (g.from, g.live, inside, back (find_chunk_for_address p cs) (find_chunk_for_address-Owner p cs))
  where
    g : Granted cs num m p m'
    g = Granted-of cs num m m' p w h e hp

    inside : Manages g.from p
    inside = omega (arith, Granted-bounds cs num m p m' g)

    back :
        (o : Option Chunk)
        → Owner p cs o
        → (j : ℕ) → is_used g.from.bitmap (free_in p num m' o) j ≡ is_used g.from.bitmap m j
    back none no_owner j = absurd (no_owner g.from g.live (w.valid g.from g.live) inside)
    back (some c) owner j = elim (w.separate g.from c g.live owner.0) [
      | inl same ↦
          rw (← same) (page_free_chunk-alloc num g.from m p m' (w.valid g.from g.live) h g.given j)
      | inr apart ↦ absurd (apart p inside (owner.1 (w.valid c owner.0)))
    ]
