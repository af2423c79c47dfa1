-- ===== src/KernelHeap/Invariant.antt =====
-- src/kernel/allocator/kalloc.c: what the allocator depends on of the page allocator, and its
-- invariant.
use native.Mathlib.Decide.{ℕ_discrete}
use mathlib.Core.Path.{subst}
use kernelite.Base.{ℕ, ◌+◌, ◌*◌, ◌≤◌, ◌%◌, ◌^◌, ◌<◌, ◌≡◌, ◌≢◌, ◌⊎◌, inl, inr, refl, ◌∙◌, sym, arith}
use kernelite.Base.{List, map, true, false, ◌==◌}
use kernelite.MemLayout.{va_to_pa, pa_to_va}
use kernelite.PageAllocator.Chunk.{num_pages, page_size}
use kernelite.KernelHeap.State.{Desc, KernelHeap, slot, max_blocks, zero_page}
use kernelite.KernelHeap.Blocks.{alloc_management_page}
use kernelite.Base.{All}
use kernelite.KernelHeap.Members.{In, NotIn, Distinct, DistinctBy}
use kernelite.KernelHeap.Chains.{Chain}
use kernelite.KernelHeap.Search.{next_of}

-- Runs of pages that share no byte.
abbrev pub Disjoint : ℕ → ℕ → ℕ → ℕ → Type 0
Disjoint p n q k = (p + n * page_size ≤ q) ⊎ (q + k * page_size ≤ p)

-- The page allocator, through the live grants: `holds s p n` says that `n` pages at `p` were
-- granted and not given back. A grant starts where no live grant starts; its virtual address
-- is aligned and does not wrap. Two live grants start at one address or share no byte. Giving back a live grant keeps
-- the others. Startup/HeapPages shows that page_allocator.c meets this.
pub record Pages (S : Type 0) (kernel_base_va : ℕ) : Type 1 where
  pub page_alloc : ℕ → S → ℕ × S
  pub page_free : ℕ → ℕ → S → S
  pub holds : S → ℕ → ℕ → Type 0
  pub aligned : (n : ℕ) (s : S) → (kernel_base_va + (page_alloc n s).0) % 4096 ≡ 0
  pub small : (n : ℕ) (s : S) → kernel_base_va + (page_alloc n s).0 < 2 ^ 64
  pub granted :
      (n : ℕ) (s : S) → (page_alloc n s).0 ≢ 0 → holds (page_alloc n s).1 (page_alloc n s).0 n
  pub fresh :
      (n : ℕ) (s : S) (p m : ℕ) → (page_alloc n s).0 ≢ 0 → holds s p m → p ≢ (page_alloc n s).0
  pub apart : (s : S) (p n q k : ℕ) → holds s p n → holds s q k → (p ≡ q) ⊎ Disjoint p n q k
  pub kept : (n : ℕ) (s : S) (p m : ℕ) → holds s p m → holds (page_alloc n s).1 p m
  pub kept_free :
      (p n : ℕ) (s : S) (q m : ℕ) → holds s p n → holds s q m → q ≢ p → holds (page_free p n s) q m

module _ {S : Type 0} (kernel_base_va : ℕ) (P : Pages S kernel_base_va) where
  -- The grant behind a virtual address.
  abbrev pub Granted : S → ℕ → ℕ → Type 0
  Granted s v n = P.holds s (va_to_pa kernel_base_va v) n

  abbrev pub Managed : S → ℕ → Type 0
  Managed s p = (p % 4096 ≡ 0) × (p < 2 ^ 64) × Granted s p 1

  abbrev pub InUse : (ℕ → Desc) → List ℕ → ℕ → Type 0
  InUse desc pages b =
      ((desc b).is_used ≡ true) × ((p j : ℕ) × (b ≡ slot p j) × In p pages × (j < max_blocks))

  abbrev pub HasData : S → (ℕ → Desc) → ℕ → Type 0
  HasData s desc b =
      ((desc b).ptr ≢ 0)
      × ((desc b).ptr < 2 ^ 64)
      × Granted s (desc b).ptr (num_pages (desc b).size)

  -- `pages` are the management pages and `blocks` the descriptors of the live allocations. Each
  -- page and each block's data is a live grant, and no two of these start at one address.
  pub record IsValid (h : KernelHeap S) (pages blocks : List ℕ) : Type 0 where
    pub page_chain : Chain h.next_page h.kalloc_page_head pages
    pub block_chain : Chain (next_of h.desc) h.allocated blocks
    pub pages_distinct : Distinct pages
    pub blocks_distinct : Distinct blocks
    pub managed : All (Managed h.frames) pages
    pub in_use : All (InUse h.desc pages) blocks
    pub has_data : All (HasData h.frames h.desc) blocks
    pub data_distinct : DistinctBy (λ b. (h.desc b).ptr) blocks
    pub data_apart : All (λ b. NotIn (h.desc b).ptr pages) blocks

  -- What the clients hold: pointers and sizes.
  abbrev pub live : KernelHeap S → List ℕ → List (ℕ × ℕ)
  live h blocks = map (λ b. ((h.desc b).ptr, (h.desc b).size)) blocks

  -- A page is new to all grants of before.
  abbrev pub IsNew : S → ℕ → Type 0
  IsNew s v = (q m : ℕ) → P.holds s q m → q ≢ va_to_pa kernel_base_va v

  -- A management page is got, or there is none and only the page allocator's state changes.
  abbrev pub Got : KernelHeap S → ℕ × KernelHeap S → Type 0
  Got h r =
      ((s : S) × (r ≡ (0, record h { frames = s }))
        × ((q m : ℕ) → P.holds h.frames q m → P.holds s q m))
      ⊎ ((v : ℕ) × (s : S) × (r ≡ (v, zero_page v (record h { frames = s })))
          × (v ≢ 0)
          × Managed s v
          × IsNew h.frames v
          × ((q m : ℕ) → P.holds h.frames q m → P.holds s q m))

  pub virtual :
      (n : ℕ) (s : S)
      → pa_to_va kernel_base_va (P.page_alloc n s).0 ≡ kernel_base_va + (P.page_alloc n s).0
  unfolding pa_to_va
  virtual n s = omega (arith, P.small n s)

  pub address :
      (n : ℕ) (s : S)
      → va_to_pa kernel_base_va (pa_to_va kernel_base_va (P.page_alloc n s).0)
        ≡ (P.page_alloc n s).0
  unfolding va_to_pa pa_to_va
  address n s = omega (arith, P.small n s)

  pub alloc_management_page-Got :
      (h : KernelHeap S) → Got h (alloc_management_page P.page_alloc P.page_free kernel_base_va h)
  unfolding alloc_management_page
  alloc_management_page-Got h = elim (ℕ_discrete (P.page_alloc 1 h.frames).0 0) [
    | yes none_left ↦ inl ((P.page_alloc 1 h.frames).1, rw none_left refl, P.kept 1 h.frames)
    | no some_left ↦
        let p = (P.page_alloc 1 h.frames).0 in
        let v = pa_to_va kernel_base_va p in
        let back : va_to_pa kernel_base_va v ≡ p = address 1 h.frames in
        let top : v ≡ kernel_base_va + p = virtual 1 h.frames in
        let nonnull : (p == 0) ≡ false = ground arith in
        let mapped : (v == 0) ≡ false = ground arith in
        inr (
          v,
          (P.page_alloc 1 h.frames).1,
          rw (nonnull, mapped) refl,
          omega (arith, top),
          (
            omega (arith, top, P.aligned 1 h.frames),
            omega (arith, top, P.small 1 h.frames),
            subst (λ a. P.holds (P.page_alloc 1 h.frames).1 a 1) (sym back)
                (P.granted 1 h.frames some_left),
          ),
          (λ q m held e. P.fresh 1 h.frames q m some_left held (e ∙ back)),
          P.kept 1 h.frames,
        )
  ]
