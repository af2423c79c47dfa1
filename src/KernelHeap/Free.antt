-- ===== src/KernelHeap/Free.antt =====
-- src/kernel/allocator/kalloc.c: kfree takes one live block away, or none.
use native.Mathlib.Decide.{ℕ_discrete}
use kernelite.Base.{ℕ, ◌<◌, ◌^◌, ◌≡◌, ◌≢◌, inl, inr, refl, ap, ◌∙◌, arith}
use kernelite.Base.{List, [], ◌∷◌, length, true, false, some, ◌==◌, if◌then◌else◌}
use kernelite.MemLayout.{va_to_pa}
use kernelite.PageAllocator.Chunk.{num_pages}
use kernelite.KernelHeap.State.{Desc, KernelHeap}
use kernelite.KernelHeap.Blocks.{free_management_page_if_empty, release_block, kfree}
use kernelite.Base.{All, All-map}
use kernelite.KernelHeap.Members.{
  All-In, All-of_In, In, NotIn, NotIn-remove, Distinct-remove, DistinctBy, DistinctBy-apart, remove,
  remove_here, remove_later,
}
use kernelite.KernelHeap.Members.{In-tail}
use kernelite.KernelHeap.Invariant.{Pages, IsValid, InUse, HasData, Managed, live}
use kernelite.KernelHeap.Payload.{
  Keeps, contents, contents-Keeps, IsPayload, IsPayload-Keeps, IsPayload-remove, IsValid-IsPayload,
  IsValid-of,
}
use kernelite.KernelHeap.Unlink.{IsRemoved, remove_from_allocated_list-Unlinked}
use kernelite.KernelHeap.Release.{va_to_pa-ne, free_management_page_if_empty-IsValid}

-- The list of pointers and sizes without its first entry for `ptr`.
unfoldable pub drop_ptr : ℕ → List (ℕ × ℕ) → List (ℕ × ℕ)
drop_ptr ptr [] = []
drop_ptr ptr ((q, n) ∷ l) = if q == ptr then l else (q, n) ∷ drop_ptr ptr l

contents-remove :
    (desc : ℕ → Desc) (b : ℕ) (blocks : List ℕ)
    → DistinctBy (λ x. (desc x).ptr) blocks
    → In b blocks
    → contents desc (remove b blocks) ≡ drop_ptr (desc b).ptr (contents desc blocks)
unfolding drop_ptr
contents-remove desc b [] d i = absurd i
contents-remove desc b (x ∷ xs) d i = elim (ℕ_discrete x b) [
  | yes e ↦
      let t : ((desc x).ptr == (desc b).ptr) ≡ true = rw e (ground arith) in
      ap (contents desc) (remove_here b x xs e) ∙ rw t refl
  | no ne ↦
      let k : In b xs = In-tail b x xs i ne in
      let apart : (desc b).ptr ≢ (desc x).ptr =
        All-In (λ y. (desc y).ptr ≢ (desc x).ptr) b xs d.0 k in
      let t : ((desc x).ptr == (desc b).ptr) ≡ false = ground arith in
      ap (contents desc) (remove_later b x xs ne)
      ∙ rw t (ap (λ l. ((desc x).ptr, (desc x).size) ∷ l) (contents-remove desc b xs d.1 k))
]

drop_ptr-absent :
    (desc : ℕ → Desc) (ptr : ℕ) (blocks : List ℕ)
    → All (λ x. (desc x).ptr ≢ ptr) blocks
    → contents desc blocks ≡ drop_ptr ptr (contents desc blocks)
unfolding drop_ptr
drop_ptr-absent desc ptr [] n = refl
drop_ptr-absent desc ptr (x ∷ xs) n =
    let t : ((desc x).ptr == ptr) ≡ false = ground (arith, n.0) in
    rw t (ap (λ l. ((desc x).ptr, (desc x).size) ∷ l) (drop_ptr-absent desc ptr xs n.1))

module _ {S : Type 0} (kernel_base_va : ℕ) (P : Pages S kernel_base_va) where
  -- The state in which the block is out of the list and its pages are given back.
  freed-IsValid :
      (h h' : KernelHeap S) (pages blocks : List ℕ) (b : ℕ)
      → IsValid kernel_base_va P h pages blocks
      → In b blocks
      → IsRemoved h blocks b h'
      → IsValid kernel_base_va P
          (record h' {
            frames =
                P.page_free
                  (va_to_pa kernel_base_va (h'.desc b).ptr)
                  (num_pages (h'.desc b).size)
                  h'.frames;
          })
          pages
          (remove b blocks)
  freed-IsValid h h' pages blocks b valid i r =
      IsValid-of kernel_base_va P _ pages (remove b blocks) (rw (r.pages, r.head) valid.page_chain)
        valid.pages_distinct
        (All-of_In (Managed kernel_base_va P _) pages (λ p k.
          let m = All-In (Managed kernel_base_va P h.frames) p pages valid.managed k in
          (
            m.0,
            m.1,
            keep p 1 m.1
                (All-In (λ x. x ≢ (h.desc b).ptr) p pages
                  (All-In (λ b. NotIn (h.desc b).ptr pages) b blocks valid.data_apart i) k)
                m.2,
          )))
        r.chain (Distinct-remove b blocks valid.blocks_distinct)
        (IsPayload-Keeps kernel_base_va P _ h.desc h'.desc pages (remove b blocks) kept (record {
          in_use = before.in_use;
          has_data = All-of_In (HasData kernel_base_va P _ h.desc) (remove b blocks) (λ x k.
              let held =
                All-In (HasData kernel_base_va P h.frames h.desc) x (remove b blocks)
                  before.has_data k in
              (
                held.0,
                held.1,
                keep (h.desc x).ptr _ held.1
                    (All-In (λ y. (h.desc y).ptr ≢ (h.desc b).ptr) x (remove b blocks)
                      (DistinctBy-apart (λ y. (h.desc y).ptr) b blocks valid.data_distinct i) k)
                    held.2,
              ));
          data_distinct = before.data_distinct;
          data_apart = before.data_apart;
        }))
    where
      before : IsPayload kernel_base_va P h.frames h.desc pages (remove b blocks)
      before =
          IsPayload-remove kernel_base_va P h.frames h.desc pages blocks b
            (IsValid-IsPayload kernel_base_va P h pages blocks valid)

      held_b : HasData kernel_base_va P h.frames h.desc b
      held_b = All-In (HasData kernel_base_va P h.frames h.desc) b blocks valid.has_data i

      kept : All (Keeps h.desc h'.desc) (remove b blocks)
      kept =
          All-map (remove b blocks) (λ y ne. r.keeps y ne)
            (NotIn-remove b blocks valid.blocks_distinct)

      keep :
          (a n : ℕ)
          → a < 2 ^ 64
          → a ≢ (h.desc b).ptr
          → P.holds h.frames (va_to_pa kernel_base_va a) n
          → P.holds
              (P.page_free
                (va_to_pa kernel_base_va (h'.desc b).ptr)
                (num_pages (h'.desc b).size)
                h'.frames)
              (va_to_pa kernel_base_va a)
              n
      keep a n l ne held =
          rw (r.ptr, r.size, r.frames)
            (P.kept_free (va_to_pa kernel_base_va (h.desc b).ptr) (num_pages (h.desc b).size)
              h.frames (va_to_pa kernel_base_va a) n held_b.2 held
              (va_to_pa-ne kernel_base_va P h.frames a (h.desc b).ptr l held_b.1 ne))

  -- `kfree` on a valid heap and with more fuel than the lists are long: it returns, exactly the
  -- live block with this pointer is gone (none if no live block has it, as for NULL), and the heap
  -- is valid.
  pub kfree_lem :
      (fuel ptr : ℕ) (h : KernelHeap S) (pages blocks : List ℕ)
      → IsValid kernel_base_va P h pages blocks
      → length pages < fuel
      → length blocks < fuel
      → (h' : KernelHeap S) × (pages' : List ℕ) × (blocks' : List ℕ) × (kfree P.page_alloc
            P.page_free kernel_base_va fuel ptr h
          ≡ some h')
        × IsValid kernel_base_va P h' pages' blocks'
        × (live kernel_base_va P h' blocks' ≡ drop_ptr ptr (live kernel_base_va P h blocks))
  unfolding kfree release_block
  kfree_lem fuel ptr h pages blocks valid lp lb =
      elim (remove_from_allocated_list-Unlinked fuel ptr h blocks valid.block_chain
        valid.blocks_distinct (All-map blocks (λ x d. d.0) valid.has_data) lb) [
          | inl (e, absent) ↦ (
            h,
            pages,
            blocks,
            rw (e, kfree) refl,
            valid,
            drop_ptr-absent h.desc ptr blocks absent,
          )
          | inr (b, h', e, nz, i, has, r) ↦
              let real : (b == 0) ≡ false = ground arith in
              let u = All-In (InUse kernel_base_va P h.desc pages) b blocks valid.in_use i in
              let freed : KernelHeap S = record h' {
                frames =
                    P.page_free (va_to_pa kernel_base_va (h'.desc b).ptr)
                      (num_pages (h'.desc b).size) h'.frames;
              } in
              let (h'', pages', q, v, same) =
                free_management_page_if_empty-IsValid kernel_base_va P fuel freed pages
                  (remove b blocks) u.1.0 u.1.1 (freed-IsValid h h' pages blocks b valid i r) u.1.3
                  u.1.4 lp in
              (
                h'',
                pages',
                remove b blocks,
                rw (e, kfree, real)
                    (ap
                        (λ w.
                          free_management_page_if_empty P.page_alloc P.page_free kernel_base_va fuel
                            w freed)
                        u.1.2
                      ∙ q),
                v,
                ap (λ d. contents d (remove b blocks)) same
                    ∙ contents-Keeps h.desc h'.desc (remove b blocks) (
                        All-map (remove b blocks) (λ y ne. r.keeps y ne)
                          (NotIn-remove b blocks valid.blocks_distinct))
                    ∙ contents-remove h.desc b blocks valid.data_distinct i
                    ∙ ap (λ a. drop_ptr a (contents h.desc blocks)) has,
              )
        ]
