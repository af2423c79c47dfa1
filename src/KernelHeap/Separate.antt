-- ===== src/KernelHeap/Separate.antt =====
-- src/kernel/allocator/kalloc.c: the data of live blocks shares no byte with other data or with a management page.
use kernelite.Base.{ℕ, sym, ◌≢◌, inl, inr, List, [], ◌∷◌, All}
use kernelite.MemLayout.{va_to_pa}
use kernelite.PageAllocator.Chunk.{num_pages}
use kernelite.KernelHeap.State.{Desc, KernelHeap}
use kernelite.KernelHeap.Members.{NotIn, All-In, All-of_In, DistinctBy}
use kernelite.KernelHeap.Invariant.{Pages, IsValid, HasData, Managed, Disjoint}
use kernelite.KernelHeap.Release.{va_to_pa-ne}

module _ {S : Type 0} (kernel_base_va : ℕ) (P : Pages S kernel_base_va) where
  -- The pages of two blocks' data, and those of a block's data and a management page.
  abbrev pub DataApart : (ℕ → Desc) → ℕ → ℕ → Type 0
  DataApart desc x y =
      Disjoint (va_to_pa kernel_base_va (desc x).ptr) (num_pages (desc x).size)
        (va_to_pa kernel_base_va (desc y).ptr) (num_pages (desc y).size)

  abbrev pub PageApart : (ℕ → Desc) → ℕ → ℕ → Type 0
  PageApart desc x page =
      Disjoint (va_to_pa kernel_base_va (desc x).ptr) (num_pages (desc x).size)
        (va_to_pa kernel_base_va page) 1

  -- Each block's data is apart from that of the blocks after it.
  abbrev pub AllApart : (ℕ → Desc) → List ℕ → Type 0
  AllApart desc [] = Unit
  AllApart desc (x ∷ xs) = All (DataApart desc x) xs × AllApart desc xs

  pub record Separate (h : KernelHeap S) (pages blocks : List ℕ) : Type 0 where
    pub data_data : AllApart h.desc blocks
    pub data_page : All (λ x. All (PageApart h.desc x) pages) blocks

  data_apart :
      (s : S) (desc : ℕ → Desc) (x y : ℕ)
      → HasData kernel_base_va P s desc x
      → HasData kernel_base_va P s desc y
      → (desc y).ptr ≢ (desc x).ptr
      → DataApart desc x y
  data_apart s desc x y (_, small, held) (_, small', held') ne =
      elim (P.apart s _ _ _ _ held held') [
        | inl same ↦
            absurd
              (va_to_pa-ne kernel_base_va P s (desc y).ptr (desc x).ptr small' small ne (sym same))
        | inr off ↦ off
      ]

  all_apart :
      (s : S) (desc : ℕ → Desc) (blocks : List ℕ)
      → All (HasData kernel_base_va P s desc) blocks
      → DistinctBy (λ b. (desc b).ptr) blocks
      → AllApart desc blocks
  all_apart s desc [] h d = tt
  all_apart s desc (x ∷ xs) h d = (
    All-of_In (DataApart desc x) xs (λ y i.
        data_apart s desc x y h.0 (All-In (HasData kernel_base_va P s desc) y xs h.1 i)
          (All-In (λ y. (desc y).ptr ≢ (desc x).ptr) y xs d.0 i)),
    all_apart s desc xs h.1 d.1,
  )

  pub IsValid-Separate :
      (h : KernelHeap S) (pages blocks : List ℕ)
      → IsValid kernel_base_va P h pages blocks
      → Separate h pages blocks
  IsValid-Separate h pages blocks v = record {
    data_data = all_apart h.frames h.desc blocks v.has_data v.data_distinct;
    data_page =
        All-of_In (λ x. All (PageApart h.desc x) pages) blocks
          (λ x i. All-of_In (PageApart h.desc x) pages (λ p j.
            let (_, small, held) =
              All-In (HasData kernel_base_va P h.frames h.desc) x blocks v.has_data i in
            let (_, small', held') =
              All-In (Managed kernel_base_va P h.frames) p pages v.managed j in
            elim (P.apart h.frames _ _ _ _ held held') [
              | inl same ↦ absurd (
                  va_to_pa-ne kernel_base_va P h.frames p (h.desc x).ptr small' small
                    (All-In (λ p. p ≢ (h.desc x).ptr) p pages
                      (All-In (λ b. NotIn (h.desc b).ptr pages) x blocks v.data_apart i) j)
                    (sym same))
              | inr off ↦ off
            ]));
  }
