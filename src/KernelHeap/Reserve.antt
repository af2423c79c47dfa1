-- ===== src/KernelHeap/Reserve.antt =====
-- src/kernel/allocator/kalloc.c: the invariant under find_free_management_block.
use mathlib.Core.Path.{subst}
use kernelite.Base.{ℕ, ◌+◌, ◌%◌, ◌^◌, ◌<◌, ◌≡◌, ◌≢◌, ◌⊎◌, refl, ap, ◌∙◌, sym, arith}
use kernelite.Base.{List, [], ◌∷◌, ◌++◌, true, false, Bool, ltb, leb, ◌&&◌}
use kernelite.MemLayout.{va_to_pa}
use kernelite.PageAllocator.Chunk.{num_pages}
use kernelite.KernelHeap.State.{Desc, KernelHeap, slot, max_blocks, zero_page, set_used}
use kernelite.Base.{All, All-map, All-snoc}
use kernelite.KernelHeap.Members.{
  All-In, All-of_In, In, In-snoc, NotIn, Distinct, Distinct-snoc, DistinctBy-congr,
}
use kernelite.KernelHeap.Chains.{Chain, Chain-congr, put_ne}
use kernelite.KernelHeap.Search.{next_of}
use kernelite.KernelHeap.Invariant.{Pages, IsValid, Managed, InUse, HasData, IsNew}

module _ {S : Type 0} (kernel_base_va : ℕ) (P : Pages S kernel_base_va) where
  -- The invariant in a state that has the same list of blocks with the same contents.
  pub IsValid-rebuilt :
      (h h' : KernelHeap S) (pages pages' blocks : List ℕ)
      → IsValid kernel_base_va P h pages blocks
      → Chain h'.next_page h'.kalloc_page_head pages'
      → Distinct pages'
      → All (Managed kernel_base_va P h'.frames) pages'
      → h'.allocated ≡ h.allocated
      → All (λ b. h'.desc b ≡ h.desc b) blocks
      → All (InUse kernel_base_va P h.desc pages') blocks
      → All (HasData kernel_base_va P h'.frames h.desc) blocks
      → All (λ b. NotIn (h.desc b).ptr pages') blocks
      → IsValid kernel_base_va P h' pages' blocks
  IsValid-rebuilt h h' pages pages' blocks v chain distinct managed head same used grants apart =
      record {
        page_chain = chain;
        block_chain =
            subst (λ a. Chain (next_of h'.desc) a blocks) (sym head)
              (Chain-congr (next_of h.desc) (next_of h'.desc) h.allocated blocks
                (All-map blocks (λ b e. ap (λ (d : Desc). d.next) e) same) v.block_chain);
        pages_distinct = distinct;
        blocks_distinct = v.blocks_distinct;
        managed = managed;
        in_use =
            moved
              (λ d b.
                (d.is_used ≡ true) × ((p j : ℕ) × (b ≡ slot p j) × In p pages' × (j < max_blocks)))
              used;
        has_data =
            moved
              (λ d b.
                (d.ptr ≢ 0)
                × (d.ptr < 2 ^ 64)
                × P.holds h'.frames (va_to_pa kernel_base_va d.ptr) (num_pages d.size))
              grants;
        data_distinct =
            DistinctBy-congr (λ b. (h.desc b).ptr) (λ b. (h'.desc b).ptr) blocks
              (All-map blocks (λ b e. ap (λ (d : Desc). d.ptr) e) same) v.data_distinct;
        data_apart = moved (λ d b. NotIn d.ptr pages') apart;
      }
    where
      moved :
          (Q : Desc → ℕ → Type 0)
          → All (λ b. Q (h.desc b) b) blocks
          → All (λ b. Q (h'.desc b) b) blocks
      moved Q q =
          All-of_In (λ b. Q (h'.desc b) b) blocks
            (λ b i.
              subst (λ d. Q d b) (sym (All-In (λ b. h'.desc b ≡ h.desc b) b blocks same i))
                (All-In (λ b. Q (h.desc b) b) b blocks q i))

  -- The page allocator hands out more, and nothing else changes.
  pub IsValid-frames :
      (h : KernelHeap S) (s : S) (pages blocks : List ℕ)
      → IsValid kernel_base_va P h pages blocks
      → ((q m : ℕ) → P.holds h.frames q m → P.holds s q m)
      → IsValid kernel_base_va P (record h { frames = s }) pages blocks
  IsValid-frames h s pages blocks v keep =
      IsValid-rebuilt h (record h { frames = s }) pages pages blocks v v.page_chain v.pages_distinct
        (All-map pages (λ p m. (m.0, m.1, keep _ _ m.2)) v.managed) refl
        (All-of_In (λ b. h.desc b ≡ h.desc b) blocks (λ b i. refl)) v.in_use
        (All-map blocks (λ b d. (d.0, d.1, keep _ _ d.2)) v.has_data) v.data_apart

  -- A descriptor that is not in the list may change.
  pub IsValid-set_used :
      (h : KernelHeap S) (b : ℕ) (u : Bool) (pages blocks : List ℕ)
      → IsValid kernel_base_va P h pages blocks
      → NotIn b blocks
      → IsValid kernel_base_va P (set_used b u h) pages blocks
  unfolding set_used
  IsValid-set_used h b u pages blocks v n =
      IsValid-rebuilt h (set_used b u h) pages pages blocks v v.page_chain v.pages_distinct
        v.managed refl (All-map blocks (λ x ne. put_ne h.desc b _ x ne) n) v.in_use v.has_data
        v.data_apart

  -- A descriptor outside a page of zeros keeps its contents.
  zero_page-other :
      (h : KernelHeap S) (v p j : ℕ)
      → v % 4096 ≡ 0
      → p % 4096 ≡ 0
      → p ≢ v
      → j < max_blocks
      → (zero_page v h).desc (slot p j) ≡ h.desc (slot p j)
  unfolding zero_page
  zero_page-other h v p j av ap' ne hj =
      let outside : (leb v (slot p j) && ltb (slot p j) (v + 4096)) ≡ false = ground arith in
      rw outside refl

  pub IsNew-apart :
      (h : KernelHeap S) (pages blocks : List ℕ) (v : ℕ)
      → IsValid kernel_base_va P h pages blocks
      → IsNew kernel_base_va P h.frames v
      → NotIn v pages
  IsNew-apart h pages blocks v valid new =
      All-map pages (λ p m e. new _ _ m.2 (ap (va_to_pa kernel_base_va) e)) valid.managed

  -- A new page, filled with zeros and linked behind the others.
  pub IsValid-added :
      (h h' : KernelHeap S) (s : S) (v : ℕ) (pages blocks : List ℕ)
      → IsValid kernel_base_va P h pages blocks
      → v ≢ 0
      → Managed kernel_base_va P s v
      → IsNew kernel_base_va P h.frames v
      → ((q m : ℕ) → P.holds h.frames q m → P.holds s q m)
      → Chain h'.next_page h'.kalloc_page_head (pages ++ v ∷ [])
      → h'.allocated ≡ h.allocated
      → h'.desc ≡ (zero_page v h).desc
      → h'.frames ≡ s
      → IsValid kernel_base_va P h' (pages ++ v ∷ []) blocks
        × All (λ b. h'.desc b ≡ h.desc b) blocks
  IsValid-added h h' s v pages blocks valid nz managed new keep chain head desc frames = (
    IsValid-rebuilt h h' pages (pages ++ v ∷ []) blocks valid chain
        (Distinct-snoc pages v valid.pages_distinct apart)
        (rw frames (
          All-snoc (Managed kernel_base_va P s) pages v
            (All-map pages (λ p m. (m.0, m.1, keep _ _ m.2)) valid.managed) managed))
        head same
        (All-map blocks (λ b u. (u.0, (u.1.0, u.1.1, u.1.2, In-snoc u.1.0 pages v u.1.3, u.1.4)))
          valid.in_use)
        (rw frames (All-map blocks (λ b d. (d.0, d.1, keep _ _ d.2)) valid.has_data))
        (All-of_In (λ b. NotIn (h.desc b).ptr (pages ++ v ∷ [])) blocks
          (λ b i.
            let held =
              All-In (HasData kernel_base_va P h.frames h.desc) b blocks valid.has_data i in
            All-snoc (λ x. x ≢ (h.desc b).ptr) pages v
              (All-In (λ b. NotIn (h.desc b).ptr pages) b blocks valid.data_apart i)
              (λ e. new _ _ held.2 (ap (va_to_pa kernel_base_va) (sym e))))),
    same,
  )
    where
      apart : NotIn v pages
      apart = IsNew-apart h pages blocks v valid new

      same : All (λ b. h'.desc b ≡ h.desc b) blocks
      same =
          All-of_In (λ b. h'.desc b ≡ h.desc b) blocks
            (λ b i.
              let u = All-In (InUse kernel_base_va P h.desc pages) b blocks valid.in_use i in
              let page_ok =
                All-In (Managed kernel_base_va P h.frames) u.1.0 pages valid.managed u.1.3 in
              ap (λ f. f b) desc
              ∙ ap (zero_page v h).desc u.1.2
              ∙ zero_page-other h v u.1.0 u.1.1 managed.0 page_ok.0
                  (All-In (λ x. x ≢ v) u.1.0 pages apart u.1.3) u.1.4
              ∙ ap h.desc (sym u.1.2))

  -- A descriptor is reserved, or there is none; no live block changes.
  pub record IsReserved (h : KernelHeap S) (blocks : List ℕ) (b : ℕ) (h' : KernelHeap S)
      : Type 0 where
    pub pages : List ℕ
    pub valid : IsValid kernel_base_va P h' pages blocks
    pub same : All (λ x. h'.desc x ≡ h.desc x) blocks
    pub taken : (b ≡ 0) ⊎ (NotIn b blocks × (b ≢ 0) × InUse kernel_base_va P h'.desc pages b)
