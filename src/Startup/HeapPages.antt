-- ===== src/Startup/HeapPages.antt =====
-- The page allocator of src/kernel/allocator/page_allocator.c as the page allocator of src/kernel/allocator/kalloc.c. The grants that are
-- live are a ghost of the proof: the memory is that of the bitmaps, and the code alone changes it.
use kernelite.Base.{
  ℕ, ◌+◌, ◌-◌, ◌*◌, ◌/◌, ◌%◌, ◌^◌, ◌≤◌, ◌<◌, Bool, true, false, ◌≡◌, ◌≢◌, ◌⊎◌, inl, inr, min,
}
use kernelite.Base.{refl, sym, ap, ◌∙◌, arith, List, Mem, Bool-cases, Option, none, some}
use kernelite.Base.{leb, ltb, ◌==◌, ◌||◌, ◌&&◌, not, u8, bit_and, ◌!=◌, ==_ne, ==_iff}
use mathlib.Core.Path.{subst}
use kernelite.MemLayout.{kernel_base}
use kernelite.PageAllocator.Chunk.{Chunk, page_size, is_used, page_alloc_chunk, page_free_chunk}
use kernelite.PageAllocator.Bitmap.{within}
use kernelite.PageAllocator.Alloc.{page_of, page_free_chunk_lem}
use kernelite.PageAllocator.Regions.{
  page_alloc, page_free, free_in, alloc_in, find_chunk_for_address, find_chunk_with_free_pages,
}
use kernelite.PageAllocator.Regions.Lookup.{Live, WellFormed, Owner, find_chunk_for_address-Owner}
use kernelite.PageAllocator.Regions.Calls.{Granted, Granted-of, Granted-bounds}
use kernelite.KernelHeap.Invariant.{Pages, Disjoint}
use kernelite.Startup.Reserve.{Held, Held-page_alloc, Granted-Held}

page_alloc_zero : (cs : List Chunk) (m : Mem) → (page_alloc 0 cs m).0 ≡ 0
unfolding page_alloc
page_alloc_zero cs m = refused (find_chunk_with_free_pages 0 cs m)
  where
    refused : (o : Option Chunk) → (alloc_in 0 m o).0 ≡ 0
    refused none = unfold alloc_in in refl
    refused (some c) = unfold alloc_in in unfold page_alloc_chunk in refl

or_true : (b : Bool) → (b || true) ≡ true
or_true true = refl
or_true false = refl

-- A bit depends on one byte.
is_used-same :
    (bm : ℕ) (m m' : Mem) (j : ℕ)
    → m' (bm + j / 8) ≡ m (bm + j / 8)
    → is_used bm m' j ≡ is_used bm m j
unfolding is_used
is_used-same bm m m' j e = ap (λ (b : ℕ). u8 (bit_and b (2 ^ (j % 8))) != 0) e

-- The bytes of two bitmaps.
abbrev pub MapsApart : Chunk → Chunk → Type 0
MapsApart c d =
    (c.bitmap + (c.total_pages + 7) / 8 ≤ d.bitmap)
    ⊎ (d.bitmap + (d.total_pages + 7) / 8 ≤ c.bitmap)

Disjoint-test :
    (p n q k : ℕ)
    → (leb (p + n * page_size) q || leb (q + k * page_size) p) ≡ true
    → Disjoint p n q k
Disjoint-test p n q k e = elim (Bool-cases (leb (p + n * page_size) q)) [
  | inl below ↦ inl (ground arith)
  | inr not_below ↦ inr (ground arith)
]

-- Well-formed and aligned chunks below 2^48, with bitmaps that share no byte.
pub record Ground (cs : List Chunk) : Type 0 where
  pub well : WellFormed cs
  pub aligned : (c : Chunk) → Live c cs → c.mem_base % page_size ≡ 0
  pub low : (c : Chunk) → Live c cs → c.mem_base + c.total_pages * page_size ≤ 2 ^ 48
  pub maps : (c d : Chunk) → Live c cs → Live d cs → (c ≡ d) ⊎ MapsApart c d

module _ (cs : List Chunk) (ground' : Ground cs) where
  -- The memory of the bitmaps, and the grants that are live: their pages are in use, and two of them at different
  -- addresses share no byte.
  pub record Granting : Type 0 where
    pub mem : Mem
    pub grants : ℕ → ℕ → Bool
    pub held : (p n : ℕ) → grants p n ≡ true → Held cs mem p n × (p % page_size ≡ 0) × (n ≢ 0)
    pub apart : (p n q k : ℕ) → grants p n ≡ true → grants q k ≡ true → (p ≡ q) ⊎ Disjoint p n q k

  given :
      (n : ℕ) (m : Mem)
      → (page_alloc n cs m).0 ≢ 0
      → (n ≢ 0) × Granted cs n m (page_alloc n cs m).0 (page_alloc n cs m).1
  given n m h =
      let some' : n ≢ 0 = λ e. h (ap (λ k. (page_alloc k cs m).0) e ∙ page_alloc_zero cs m) in
      (
        some',
        Granted-of cs n m (page_alloc n cs m).1 (page_alloc n cs m).0 ground'.well some' refl h,
      )

  given-bounds :
      (n : ℕ) (m : Mem) → let p = (page_alloc n cs m).0 in (p % page_size ≡ 0) × (p < 2 ^ 48)
  given-bounds n m = elim (Bool-cases ((page_alloc n cs m).0 == 0)) [
    | inl null ↦
        let e : (page_alloc n cs m).0 ≡ 0 = ground arith in (omega (arith, e), omega (arith, e))
    | inr real ↦
        let (some', g) = given n m (ground arith) in
        let base = ground'.aligned g.from g.live in
        let top = ground'.low g.from g.live in
        let inside = Granted-bounds cs n m (page_alloc n cs m).0 (page_alloc n cs m).1 g in
        (omega (arith, g.given.address), omega arith)
  ]

  given-Held :
      (n : ℕ) (m : Mem)
      → (page_alloc n cs m).0 ≢ 0
      → Held cs (page_alloc n cs m).1 (page_alloc n cs m).0 n
  given-Held n m h =
      let (some', g) = given n m h in
      let inside = Granted-bounds cs n m (page_alloc n cs m).0 (page_alloc n cs m).1 g in
      record {
        by = g.from;
        live = g.live;
        inside = inside;
        used = λ j w.
            let same : page_of g.from (page_alloc n cs m).0 ≡ g.given.index =
              omega (arith, g.given.address) in
            ground (arith, g.given.marks j, same, w);
      }

  -- A new grant shares no byte with pages that are in use.
  given-Disjoint :
      (n : ℕ) (m : Mem) (q k : ℕ)
      → (page_alloc n cs m).0 ≢ 0
      → Held cs m q k
      → q % page_size ≡ 0
      → k ≢ 0
      → Disjoint (page_alloc n cs m).0 n q k
  given-Disjoint n m q k h held aligned some' =
      let (some'', g) = given n m h in
      let p = (page_alloc n cs m).0 in
      elim (Bool-cases (ltb q (p + n * page_size))) [
        | inr after ↦ inl (ground arith)
        | inl before ↦ elim (Bool-cases (ltb p (q + k * page_size))) [
          | inr after ↦ inr (ground arith)
          | inl meets ↦ absurd (
              Granted-Held cs n q k m p (page_alloc n cs m).1 ground'.well g held
                (ground'.aligned held.by held.live) aligned some'' some' (ground arith)
                (ground arith))
        ]
      ]

  alloc_grants : ℕ → ℕ → (ℕ → ℕ → Bool) → ℕ → ℕ → Bool
  alloc_grants p n grants q k = (not (p == 0) && (q == p && (k == n))) || grants q k

  alloc_grants-cases :
      (p n : ℕ) (grants : ℕ → ℕ → Bool) (q k : ℕ)
      → alloc_grants p n grants q k ≡ true
      → ((p ≢ 0) × (q ≡ p) × (k ≡ n)) ⊎ (grants q k ≡ true)
  unfolding alloc_grants
  alloc_grants-cases p n grants q k e = elim (Bool-cases (grants q k)) [
    | inl old ↦ inr old
    | inr new ↦ inl (ground (arith, e, new), ground (arith, e, new), ground (arith, e, new))
  ]

  granting_alloc : ℕ → Granting → ℕ × Granting
  granting_alloc n s =
      let p = (page_alloc n cs s.mem).0 in
      let m' = (page_alloc n cs s.mem).1 in
      (
        p,
        record {
          mem = m';
          grants = alloc_grants p n s.grants;
          held = λ q k e. elim (alloc_grants-cases p n s.grants q k e) [
            | inl (real, q', k') ↦ (
              rw (q', k') (given-Held n s.mem real),
              rw q' ((given-bounds n s.mem).0),
              rw k' ((given n s.mem real).0),
            )
            | inr old ↦
                let (h, aligned, some') = s.held q k old in
                (Held-page_alloc n q k cs s.mem h, aligned, some')
          ];
          apart = λ q k q' k' e e'. elim (alloc_grants-cases p n s.grants q k e) [
            | inl (real, a, b) ↦ elim (alloc_grants-cases p n s.grants q' k' e') [
              | inl (real', a', b') ↦ inl (a ∙ sym a')
              | inr old' ↦
                  let (h, aligned, some') = s.held q' k' old' in
                  inr (rw (a, b) (given-Disjoint n s.mem q' k' real h aligned some'))
            ]
            | inr old ↦ elim (alloc_grants-cases p n s.grants q' k' e') [
              | inl (real', a', b') ↦
                  let (h, aligned, some') = s.held q k old in
                  inr (
                    rw (a', b')
                      (elim (given-Disjoint n s.mem q k real' h aligned some') [
                        | inl d ↦ inr d
                        | inr d ↦ inl d
                      ]))
              | inr old' ↦ s.apart q k q' k' old old'
            ]
          ];
        },
      )

  -- The grants that a call of page_free leaves alone: those that share no byte with the pages that are freed.
  free_grants : ℕ → ℕ → (ℕ → ℕ → Bool) → ℕ → ℕ → Bool
  free_grants p n grants q k =
      grants q k && (ltb n (2 ^ 52) && (leb (p + n * page_size) q || leb (q + k * page_size) p))

  free_in-Held :
      (p n : ℕ) (m : Mem) (o : Option Chunk) (q k : ℕ)
      → Owner p cs o
      → n < 2 ^ 52
      → Disjoint p n q k
      → q % page_size ≡ 0
      → Held cs m q k
      → Held cs (free_in p n m o) q k
  unfolding free_in
  free_in-Held p n m none q k owner small off aligned h = h
  free_in-Held p n m (some c) q k owner small off aligned h =
      let v = ground'.well.valid c owner.0 in
      let vh = ground'.well.valid h.by h.live in
      let (low, high) = owner.1 v in
      let (marks, frame) = page_free_chunk_lem p n c m v low high (omega (arith, v.ends)) in
      record {
        by = h.by;
        live = h.live;
        inside = h.inside;
        used = λ j w.
            let from : page_of h.by q ≤ j = ground (arith, w) in
            let upto : j < page_of h.by q + k = ground (arith, w) in
            let last : j < h.by.total_pages = omega (arith, h.inside) in
            elim (ground'.maps c h.by owner.0 h.live) [
              | inl same ↦
                  let base : c.mem_base ≡ h.by.mem_base = ap (λ (x : Chunk). x.mem_base) same in
                  let beyond : (page_of c p + n ≤ j) ⊎ (j < page_of c p) = elim off [
                    | inl below ↦ inl (omega arith)
                    | inr above ↦ inr (omega arith)
                  ] in
                  let spared : within (page_of c p) (min n (c.total_pages - page_of c p)) j
                      ≡ false =
                    elim beyond [ inl below ↦ ground arith | inr above ↦ ground arith ] in
                  let before : is_used c.bitmap m j ≡ true =
                    subst (λ (x : Chunk). is_used x.bitmap m j ≡ true) (sym same) (h.used j w) in
                  subst (λ (x : Chunk). is_used x.bitmap (page_free_chunk p n c m) j ≡ true) same
                    (marks j ∙ rw spared before)
              | inr apart ↦
                  let a : ℕ = h.by.bitmap + j / 8 in
                  is_used-same h.by.bitmap m _ j
                    (frame a (elim apart [ inl l ↦ inr (omega arith) | inr r ↦ inl (omega arith) ]))
                  ∙ h.used j w
            ];
      }

  free_grants-cases :
      (p n : ℕ) (grants : ℕ → ℕ → Bool) (q k : ℕ)
      → free_grants p n grants q k ≡ true
      → (grants q k ≡ true) × (n < 2 ^ 52) × Disjoint p n q k
  unfolding free_grants
  free_grants-cases p n grants q k e =
      (ground (arith, e), ground (arith, e), Disjoint-test p n q k (ground (arith, e)))

  free_grants-keeps :
      (p n : ℕ) (grants : ℕ → ℕ → Bool) (q k : ℕ)
      → grants q k ≡ true
      → n < 2 ^ 52
      → Disjoint p n q k
      → free_grants p n grants q k ≡ true
  unfolding free_grants
  free_grants-keeps p n grants q k held small (inl below) = ground (arith, held)
  free_grants-keeps p n grants q k held small (inr above) = ground (arith, held)

  granting_free : ℕ → ℕ → Granting → Granting
  unfolding page_free
  granting_free p n s = record {
    mem = page_free p n cs s.mem;
    grants = free_grants p n s.grants;
    held = λ q k e.
        let (old, small, off) = free_grants-cases p n s.grants q k e in
        let (h, aligned, some') = s.held q k old in
        (
          free_in-Held p n s.mem (find_chunk_for_address p cs) q k
              (find_chunk_for_address-Owner p cs) small off aligned h,
          aligned,
          some',
        );
    apart = λ q k q' k' e e'.
        s.apart q k q' k' (free_grants-cases p n s.grants q k e).0
          (free_grants-cases p n s.grants q' k' e').0;
  }

  -- The page allocator of the kernel meets what kmalloc and kfree ask of it.
  pub heap_pages : Pages Granting kernel_base
  unfolding alloc_grants granting_alloc granting_free
  heap_pages = record {
    page_alloc = granting_alloc;
    page_free = granting_free;
    holds = λ s p n. s.grants p n ≡ true;
    aligned = λ n s.
        let e : (granting_alloc n s).0 ≡ (page_alloc n cs s.mem).0 = refl in
        let b = given-bounds n s.mem in omega (arith, b, e);
    small = λ n s.
        let e : (granting_alloc n s).0 ≡ (page_alloc n cs s.mem).0 = refl in
        let b = given-bounds n s.mem in omega (arith, b, e);
    granted = λ n s h.
        let some' : ((page_alloc n cs s.mem).0 == 0) ≡ false = ==_ne h in
        let same : ((page_alloc n cs s.mem).0 == (page_alloc n cs s.mem).0) ≡ true =
          (==_iff _ _).1 refl in
        let same' : (n == n) ≡ true = (==_iff _ _).1 refl in rw (some', same, same') refl;
    fresh = λ n s p m h held same.
        let (pages, aligned, some') = s.held p m held in
        let g = given n s.mem h in
        elim (given-Disjoint n s.mem p m h pages aligned some') [
          | inl below ↦
              let e : p ≡ (page_alloc n cs s.mem).0 = same in
              let some'' : n ≢ 0 = g.0 in omega (arith, below, e, some'')
          | inr above ↦
              let e : p ≡ (page_alloc n cs s.mem).0 = same in omega (arith, above, e, some')
        ];
    apart = λ s p n q k. s.apart p n q k;
    kept = λ n s p m held. rw held (or_true _);
    kept_free = λ p n s q m held other ne.
        let (pages, _, _) = s.held p n held in
        let v = ground'.low pages.by pages.live in
        free_grants-keeps p n s.grants q m other (omega (arith, pages.inside, v))
          (elim (s.apart p n q m held other) [ inl same ↦ absurd (ne (sym same)) | inr off ↦ off ]);
  }

  pub holds-grants : (s : Granting) (p n : ℕ) → s.grants p n ≡ true → Pages.holds heap_pages s p n
  unfolding heap_pages
  holds-grants s p n e = e
