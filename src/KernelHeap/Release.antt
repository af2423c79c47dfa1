-- ===== src/KernelHeap/Release.antt =====
-- src/kernel/allocator/kalloc.c: free_management_page_if_empty keeps the pages of live blocks.
use native.Mathlib.Decide.{ℕ_discrete}
use mathlib.Core.Path.{subst}
use kernelite.Base.{ℕ, ◌-◌, ◌%◌, ◌^◌, ◌<◌, ◌≡◌, ◌≢◌, inl, inr, refl, ap, ◌∙◌, sym, arith}
use kernelite.Base.{List, [], ◌∷◌, length, true, false, some, ◌==◌, Bool-cases, bit_and}
use kernelite.Bits.{bit_and_high}
use kernelite.MemLayout.{va_to_pa}
use kernelite.KernelHeap.State.{KernelHeap, slot, max_blocks}
use kernelite.KernelHeap.Blocks.{any_used, unlink_page, free_management_page_if_empty}
use kernelite.KernelHeap.Members.{
  All-In, All-of_In, All-remove, In, In-remove, NotIn, NotIn-remove, Distinct-remove, remove,
  remove_here, remove_later,
}
use kernelite.KernelHeap.Members.{In-tail}
use kernelite.KernelHeap.Chains.{
  Chain, Chain-nonzero, Chain-remove, before, before_here, before_later, before_ne,
}
use kernelite.KernelHeap.Search.{find_page-before, any_used-false}
use kernelite.KernelHeap.Invariant.{Pages, IsValid, InUse, HasData, Managed}
use kernelite.KernelHeap.Payload.{IsValid-of}

module _ {S : Type 0} (kernel_base_va : ℕ) (P : Pages S kernel_base_va) where
  -- Two 64-bit virtual addresses have different physical addresses.
  pub va_to_pa-ne :
      (s : S) (a b : ℕ)
      → a < 2 ^ 64
      → b < 2 ^ 64
      → a ≢ b
      → va_to_pa kernel_base_va a ≢ va_to_pa kernel_base_va b
  unfolding va_to_pa
  va_to_pa-ne s a b ha hb ne e = omega (arith, P.small 0 s)

  -- The descriptor's address, masked, is its page.
  page_of-slot :
      (p j : ℕ)
      → p % 4096 ≡ 0
      → p < 2 ^ 64
      → j < max_blocks
      → bit_and (slot p j) (2 ^ 64 - 4096) ≡ p
  page_of-slot p j a l h = omega (arith, bit_and_high 12 52 (slot p j))

  -- An empty page is out of the chain and given back.
  without_page :
      (h : KernelHeap S) (p : ℕ) (pages blocks : List ℕ) (head : ℕ) (next_page : ℕ → ℕ)
      → IsValid kernel_base_va P h pages blocks
      → In p pages
      → ((j : ℕ) → j < max_blocks → (h.desc (slot p j)).is_used ≡ false)
      → Chain next_page head (remove p pages)
      → IsValid kernel_base_va P
          (record h {
            kalloc_page_head = head;
            next_page = next_page;
            frames = P.page_free (va_to_pa kernel_base_va p) 1 h.frames;
          })
          (remove p pages)
          blocks
  without_page h p pages blocks head next_page valid i empty chain =
      IsValid-of kernel_base_va P _ (remove p pages) blocks chain
        (Distinct-remove p pages valid.pages_distinct)
        (All-of_In (Managed kernel_base_va P _) (remove p pages) (λ q k.
          let m =
            All-In (Managed kernel_base_va P h.frames) q (remove p pages)
              (All-remove (Managed kernel_base_va P h.frames) p pages valid.managed) k in
          let apart =
            All-In (λ y. y ≢ p) q (remove p pages) (NotIn-remove p pages valid.pages_distinct) k in
          (m.0, m.1, keep q 1 m.1 apart m.2)))
        valid.block_chain valid.blocks_distinct
        (record {
          in_use = All-of_In (InUse kernel_base_va P h.desc (remove p pages)) blocks (λ b k.
              let u = All-In (InUse kernel_base_va P h.desc pages) b blocks valid.in_use k in
              (u.0, (u.1.0, u.1.1, u.1.2, In-remove u.1.0 p pages (other b u) u.1.3, u.1.4)));
          has_data = All-of_In (HasData kernel_base_va P _ h.desc) blocks (λ b k.
              let held =
                All-In (HasData kernel_base_va P h.frames h.desc) b blocks valid.has_data k in
              let apart = All-In (λ b. NotIn (h.desc b).ptr pages) b blocks valid.data_apart k in
              (
                held.0,
                held.1,
                keep (h.desc b).ptr _ held.1
                    (λ e. All-In (λ x. x ≢ (h.desc b).ptr) p pages apart i (sym e)) held.2,
              ));
          data_distinct = valid.data_distinct;
          data_apart =
              All-of_In (λ b. NotIn (h.desc b).ptr (remove p pages)) blocks
                (λ b k.
                  All-remove (λ x. x ≢ (h.desc b).ptr) p pages
                    (All-In (λ b. NotIn (h.desc b).ptr pages) b blocks valid.data_apart k));
        })
    where
      page_ok : Managed kernel_base_va P h.frames p
      page_ok = All-In (Managed kernel_base_va P h.frames) p pages valid.managed i

      keep :
          (a n : ℕ)
          → a < 2 ^ 64
          → a ≢ p
          → P.holds h.frames (va_to_pa kernel_base_va a) n
          → P.holds
              (P.page_free (va_to_pa kernel_base_va p) 1 h.frames)
              (va_to_pa kernel_base_va a)
              n
      keep a n l ne held =
          P.kept_free (va_to_pa kernel_base_va p) 1 h.frames (va_to_pa kernel_base_va a) n page_ok.2
            held (va_to_pa-ne h.frames a p l page_ok.1 ne)

      other : (b : ℕ) (u : InUse kernel_base_va P h.desc pages b) → u.1.0 ≢ p
      other b u e =
          let clash : true ≡ false =
            sym u.0
            ∙ ap (λ y. (h.desc y).is_used) (u.1.2 ∙ ap (λ q. slot q u.1.1) e)
            ∙ empty u.1.1 u.1.4 in
          cc clash

  unlink_page-IsValid :
      (h : KernelHeap S) (p : ℕ) (pages blocks : List ℕ)
      → IsValid kernel_base_va P h pages blocks
      → In p pages
      → ((j : ℕ) → j < max_blocks → (h.desc (slot p j)).is_used ≡ false)
      → (h' : KernelHeap S) × (unlink_page P.page_alloc P.page_free kernel_base_va
            (p, before p h.kalloc_page_head pages)
            h
          ≡ h')
        × IsValid kernel_base_va P h' (remove p pages) blocks
        × (h'.desc ≡ h.desc)
  unfolding unlink_page
  unlink_page-IsValid h p [] blocks valid i empty = absurd i
  unlink_page-IsValid h p (x ∷ xs) blocks valid i empty =
      let real : (p == 0) ≡ false = ground (
        arith,
        All-In (λ y. y ≢ 0) p (x ∷ xs)
            (Chain-nonzero h.next_page h.kalloc_page_head (x ∷ xs) valid.page_chain) i,
      ) in
      elim (ℕ_discrete x p) [
        | yes e ↦
            let first : (h.kalloc_page_head == p) ≡ true = ground (arith, valid.page_chain.0) in
            (
              _,
              rw (before_here p h.kalloc_page_head x xs e, first, real) refl,
              without_page h p (x ∷ xs) blocks (h.next_page p) h.next_page valid i empty (
                  subst (Chain h.next_page (h.next_page p)) (sym (remove_here p x xs e))
                    (subst (λ w. Chain h.next_page (h.next_page w) xs) e valid.page_chain.2)),
              refl,
            )
        | no ne ↦
            let k : In p xs = In-tail p x xs i ne in
            let behind : before p x xs ≢ p = before_ne p x xs valid.pages_distinct k in
            let later : (before p x xs == p) ≡ false = ground arith in
            (
              _,
              rw (before_later p h.kalloc_page_head x xs ne, later, real) refl,
              without_page h p (x ∷ xs) blocks h.kalloc_page_head _ valid i empty (
                  subst (Chain _ h.kalloc_page_head) (sym (remove_later p x xs ne)) (
                    Chain-remove h.next_page h.kalloc_page_head x xs p valid.page_chain
                      valid.pages_distinct k)),
              refl,
            )
      ]

  -- With enough fuel it returns; a page with a live descriptor stays, and the contents of the
  -- descriptors do not change.
  pub free_management_page_if_empty-IsValid :
      (fuel : ℕ) (h : KernelHeap S) (pages blocks : List ℕ) (p j : ℕ)
      → IsValid kernel_base_va P h pages blocks
      → In p pages
      → j < max_blocks
      → length pages < fuel
      → (h' : KernelHeap S) × (pages' : List ℕ) × (free_management_page_if_empty P.page_alloc
            P.page_free kernel_base_va fuel
            (slot p j)
            h
          ≡ some h')
        × IsValid kernel_base_va P h' pages' blocks
        × (h'.desc ≡ h.desc)
  unfolding free_management_page_if_empty
  free_management_page_if_empty-IsValid fuel h pages blocks p j valid i hj l =
      let ok = All-In (Managed kernel_base_va P h.frames) p pages valid.managed i in
      let pz : p ≢ 0 =
        All-In (λ y. y ≢ 0) p pages
          (Chain-nonzero h.next_page h.kalloc_page_head pages valid.page_chain) i in
      let real : (slot p j == 0) ≡ false = ground arith in
      let found =
        find_page-before fuel h.next_page p h.kalloc_page_head h.kalloc_page_head pages
          valid.page_chain l i in
      let p_real : (p == 0) ≡ false = ground arith in
      elim (Bool-cases (any_used h.desc p max_blocks 0)) [
        | inl busy ↦ (
          h,
          pages,
          rw (real, page_of-slot p j ok.0 ok.1 hj, found, p_real, busy) refl,
          valid,
          refl,
        )
        | inr empty ↦
            let (h', e, v, same) =
              unlink_page-IsValid h p pages blocks valid i (λ k hk.
                any_used-false h.desc p max_blocks 0 k empty (omega arith) (omega arith)) in
            (
              h',
              remove p pages,
              rw (real, page_of-slot p j ok.0 ok.1 hj, found, p_real, empty) (ap some e),
              v,
              same,
            )
      ]
