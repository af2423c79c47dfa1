-- ===== src/KernelHeap/Find.antt =====
-- src/kernel/allocator/kalloc.c: find_free_management_block reserves a descriptor.
use kernelite.Base.{ℕ, ◌+◌, ◌<◌, ◌≡◌, ◌≢◌, inl, inr, refl, ap, ◌∙◌, sym, arith}
use kernelite.Base.{List, [], ◌∷◌, ◌++◌, length, true, false, some, ltb, leb, ◌==◌, ◌&&◌}
use kernelite.KernelHeap.State.{Desc, KernelHeap, slot, max_blocks, zero_page, set_used, put}
use kernelite.KernelHeap.Blocks.{grow, scan_or_grow, find_free_management_block}
use kernelite.Base.{All, All-map}
use kernelite.KernelHeap.Members.{All-In, All-of_In, In, In-snoc_last, NotIn}
use kernelite.KernelHeap.Chains.{Chain-grow, Chain-nonzero, last, last-In, put_ne, put_self}
use kernelite.KernelHeap.Search.{scan_pages-Scanned}
use kernelite.KernelHeap.Invariant.{
  Pages, IsValid, Managed, InUse, IsNew, alloc_management_page-Got,
}
use kernelite.KernelHeap.Reserve.{
  IsReserved, IsValid-frames, IsValid-set_used, IsValid-added, IsNew-apart,
}

module _ {S : Type 0} (kernel_base_va : ℕ) (P : Pages S kernel_base_va) where
  Reserved-same :
      (h h' : KernelHeap S) (blocks : List ℕ) (b : ℕ) (h'' : KernelHeap S)
      → All (λ x. h'.desc x ≡ h.desc x) blocks
      → IsReserved kernel_base_va P h' blocks b h''
      → IsReserved kernel_base_va P h blocks b h''
  Reserved-same h h' blocks b h'' same r = record {
    pages = r.pages;
    valid = r.valid;
    same =
        All-of_In (λ x. h''.desc x ≡ h.desc x) blocks
          (λ x i.
            All-In (λ x. h''.desc x ≡ h'.desc x) x blocks r.same i
            ∙ All-In (λ x. h'.desc x ≡ h.desc x) x blocks same i);
    taken = r.taken;
  }

  -- A free descriptor of a page is taken.
  take_free :
      (h : KernelHeap S) (p j : ℕ) (pages blocks : List ℕ)
      → IsValid kernel_base_va P h pages blocks
      → In p pages
      → j < max_blocks
      → (h.desc (slot p j)).is_used ≡ false
      → IsReserved kernel_base_va P h blocks (slot p j) (set_used (slot p j) true h)
  unfolding set_used
  take_free h p j pages blocks valid i hj free = record {
    pages = pages;
    valid = IsValid-set_used kernel_base_va P h (slot p j) true pages blocks valid out;
    same = All-map blocks (λ x ne. put_ne h.desc (slot p j) _ x ne) out;
    taken = inr (
      out,
      nonnull,
      (ap (λ (d : Desc). d.is_used) (put_self h.desc (slot p j) _), (p, j, refl, i, hj)),
    );
  }
    where
      out : NotIn (slot p j) blocks
      out =
          All-of_In (λ x. x ≢ slot p j) blocks
            (λ x k e.
              let u = All-In (InUse kernel_base_va P h.desc pages) x blocks valid.in_use k in
              let clash : true ≡ false = sym u.0 ∙ ap (λ y. (h.desc y).is_used) e ∙ free in
              cc clash)

      nonnull : slot p j ≢ 0
      nonnull e =
          All-In (λ x. x ≢ 0) p pages
            (Chain-nonzero h.next_page h.kalloc_page_head pages valid.page_chain) i (omega arith)

  zeroed_slot : (h : KernelHeap S) (v : ℕ) → ((zero_page v h).desc (slot v 0)).is_used ≡ false
  unfolding zero_page
  zeroed_slot h v =
      let inside : (leb v (slot v 0) && ltb (slot v 0) (v + 4096)) ≡ true = ground arith in
      rw inside refl

  -- A state that has the new page `v` at the end of its chain, and its first descriptor taken.
  take_new :
      (h h' : KernelHeap S) (s : S) (v : ℕ) (pages blocks : List ℕ)
      → IsValid kernel_base_va P h' (pages ++ v ∷ []) blocks
        × All (λ b. h'.desc b ≡ h.desc b) blocks
      → h'.desc ≡ (zero_page v h).desc
      → IsReserved kernel_base_va P h blocks (slot v 0) (set_used (slot v 0) true h')
  take_new h h' s v pages blocks added desc =
      Reserved-same h h' blocks (slot v 0) (set_used (slot v 0) true h') added.1 (
        take_free h' v 0 (pages ++ v ∷ []) blocks added.0 (In-snoc_last pages v) (omega arith)
          (ap (λ (f : ℕ → Desc). (f (slot v 0)).is_used) desc ∙ zeroed_slot h v))

  refused :
      (h : KernelHeap S) (s : S) (pages blocks : List ℕ)
      → IsValid kernel_base_va P h pages blocks
      → ((q m : ℕ) → P.holds h.frames q m → P.holds s q m)
      → IsReserved kernel_base_va P h blocks 0 (record h { frames = s })
  refused h s pages blocks valid keep = record {
    pages = pages;
    valid = IsValid-frames kernel_base_va P h s pages blocks valid keep;
    same = All-of_In (λ b. h.desc b ≡ h.desc b) blocks (λ b i. refl);
    taken = inl refl;
  }

  -- The state in which `grow` has linked the new page.
  grown :
      (h : KernelHeap S) (x : ℕ) (xs blocks : List ℕ) (s : S) (v : ℕ)
      → IsValid kernel_base_va P h (x ∷ xs) blocks
      → v ≢ 0
      → Managed kernel_base_va P s v
      → IsNew kernel_base_va P h.frames v
      → ((q m : ℕ) → P.holds h.frames q m → P.holds s q m)
      → let h' = zero_page v (record h { frames = s }) in
        IsReserved kernel_base_va P h blocks (slot v 0) (
          set_used
            (slot v 0)
            true
            (record h' { next_page = put (put h'.next_page (last x xs) v) v 0 }))
  unfolding zero_page
  grown h x xs blocks s v valid nz managed new keep =
      take_new h linked s v (x ∷ xs) blocks
        (IsValid-added kernel_base_va P h linked s v (x ∷ xs) blocks valid nz managed new keep
          (Chain-grow h.next_page h.kalloc_page_head x xs v valid.page_chain valid.pages_distinct
            (IsNew-apart kernel_base_va P h (x ∷ xs) blocks v valid new) nz)
          refl refl refl)
        refl
    where
      h' : KernelHeap S
      h' = zero_page v (record h { frames = s })

      linked : KernelHeap S
      linked = record h' { next_page = put (put h'.next_page (last x xs) v) v 0 }

  grow-IsReserved :
      (h : KernelHeap S) (x : ℕ) (xs blocks : List ℕ)
      → IsValid kernel_base_va P h (x ∷ xs) blocks
      → IsReserved kernel_base_va P h blocks
          (grow P.page_alloc P.page_free kernel_base_va (last x xs) h).0
          (grow P.page_alloc P.page_free kernel_base_va (last x xs) h).1
  unfolding grow
  grow-IsReserved h x xs blocks valid =
      let real : (last x xs == 0) ≡ false = ground (
        arith,
        All-In (λ y. y ≢ 0) (last x xs) (x ∷ xs)
            (Chain-nonzero h.next_page h.kalloc_page_head (x ∷ xs) valid.page_chain) (last-In x xs),
      ) in
      elim (alloc_management_page-Got kernel_base_va P h) [
        | inl (s, e, keep) ↦ rw (real, e) (refused h s (x ∷ xs) blocks valid keep)
        | inr (v, s, e, nz, managed, new, keep) ↦
            let mapped : (v == 0) ≡ false = ground arith in
            rw (real, e, mapped) (grown h x xs blocks s v valid nz managed new keep)
      ]

  scan_or_grow-IsReserved :
      (fuel : ℕ) (h : KernelHeap S) (x : ℕ) (xs blocks : List ℕ)
      → IsValid kernel_base_va P h (x ∷ xs) blocks
      → length (x ∷ xs) < fuel
      → (b : ℕ) × (h' : KernelHeap S) × (scan_or_grow P.page_alloc P.page_free kernel_base_va fuel h
          ≡ some (b, h'))
        × IsReserved kernel_base_va P h blocks b h'
  unfolding scan_or_grow
  scan_or_grow-IsReserved fuel h x xs blocks valid l =
      elim (scan_pages-Scanned fuel h.desc h.next_page h.kalloc_page_head 0 (x ∷ xs)
        valid.page_chain l) [
          | inl (p, j, q, e, i, hj, free) ↦ (
            slot p j,
            set_used (slot p j) true h,
            rw (e, scan_or_grow) refl,
            take_free h p j (x ∷ xs) blocks valid i hj free,
          )
          | inr e ↦ (_, _, rw (e, scan_or_grow) refl, grow-IsReserved h x xs blocks valid)
        ]

  -- The first page of all.
  started :
      (h : KernelHeap S) (blocks : List ℕ) (s : S) (v : ℕ)
      → IsValid kernel_base_va P h [] blocks
      → v ≢ 0
      → Managed kernel_base_va P s v
      → IsNew kernel_base_va P h.frames v
      → ((q m : ℕ) → P.holds h.frames q m → P.holds s q m)
      → let h' = zero_page v (record h { frames = s }) in
        let h'' = record h' { kalloc_page_head = v; next_page = put h'.next_page v 0 } in
        IsValid kernel_base_va P h'' (v ∷ []) blocks × All (λ b. h''.desc b ≡ h.desc b) blocks
  unfolding zero_page
  started h blocks s v valid nz managed new keep =
      IsValid-added kernel_base_va P h _ s v [] blocks valid nz managed new keep
        (refl, nz, put_self (zero_page v (record h { frames = s })).next_page v 0) refl refl refl

  -- With enough fuel the search returns: a descriptor that no live block has, or none.
  pub find_free_management_block-IsReserved :
      (fuel : ℕ) (h : KernelHeap S) (pages blocks : List ℕ)
      → IsValid kernel_base_va P h pages blocks
      → length pages + 1 < fuel
      → (b : ℕ) × (h' : KernelHeap S) × (find_free_management_block P.page_alloc P.page_free
            kernel_base_va fuel h
          ≡ some (b, h'))
        × IsReserved kernel_base_va P h blocks b h'
  unfolding find_free_management_block
  find_free_management_block-IsReserved fuel h [] blocks valid l =
      let none_yet : (h.kalloc_page_head == 0) ≡ true = ground (arith, valid.page_chain) in
      elim (alloc_management_page-Got kernel_base_va P h) [
        | inl (s, e, keep) ↦
            (0, record h { frames = s }, rw (none_yet, e) refl, refused h s [] blocks valid keep)
        | inr (v, s, e, nz, managed, new, keep) ↦
            let mapped : (v == 0) ≡ false = ground arith in
            let first = started h blocks s v valid nz managed new keep in
            let found = scan_or_grow-IsReserved fuel _ v [] blocks first.0 (omega arith) in
            (
              found.0,
              found.1,
              rw (none_yet, e, mapped) found.2,
              Reserved-same h _ blocks found.0 found.1 first.1 found.3,
            )
      ]
  find_free_management_block-IsReserved fuel h (x ∷ xs) blocks valid l =
      let some_page : (h.kalloc_page_head == 0) ≡ false = ground (arith, valid.page_chain) in
      let found = scan_or_grow-IsReserved fuel h x xs blocks valid (omega arith) in
      (found.0, found.1, rw some_page found.2, found.3)
