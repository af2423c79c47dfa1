-- ===== src/KernelHeap/Payload.antt =====
-- src/kernel/allocator/kalloc.c: the part of the invariant that the pointers of the list do not touch.
use native.Mathlib.Decide.{ℕ_discrete}
use mathlib.Core.Path.{subst}
use kernelite.Base.{ℕ, ◌≡◌, ◌≢◌, refl, ap, ◌∙◌, sym, List, [], ◌∷◌, ◌++◌, map}
use kernelite.MemLayout.{va_to_pa}
use kernelite.PageAllocator.Chunk.{num_pages}
use kernelite.KernelHeap.State.{Desc, KernelHeap, put}
use kernelite.Base.{All, All-snoc}
use kernelite.KernelHeap.Members.{
  All-In, All-of_In, All-remove, In, NotIn, Distinct, DistinctBy, DistinctBy-congr, DistinctBy-snoc,
  DistinctBy-remove, remove,
}
use kernelite.KernelHeap.Chains.{Chain, put_self, put_ne}
use kernelite.KernelHeap.Search.{next_of}
use kernelite.KernelHeap.Invariant.{Pages, IsValid, Managed, InUse, HasData}

-- The same contents but for the pointer to the next descriptor.
abbrev pub Keeps : (ℕ → Desc) → (ℕ → Desc) → ℕ → Type 0
Keeps f g y = ((g y).ptr ≡ (f y).ptr) × ((g y).size ≡ (f y).size) × ((g y).is_used ≡ (f y).is_used)

pub Keeps-eq : (f g : ℕ → Desc) (y : ℕ) → g y ≡ f y → Keeps f g y
Keeps-eq f g y e =
    (ap (λ (d : Desc). d.ptr) e, ap (λ (d : Desc). d.size) e, ap (λ (d : Desc). d.is_used) e)

pub Keeps-trans : (f g k : ℕ → Desc) (y : ℕ) → Keeps f g y → Keeps g k y → Keeps f k y
Keeps-trans f g k y a b = (b.0 ∙ a.0, b.1 ∙ a.1, b.2 ∙ a.2)

abbrev pub with_next : (ℕ → Desc) → ℕ → ℕ → ℕ → Desc
with_next f t c = put f t (record (f t) { next = c })

pub with_next-Keeps : (f : ℕ → Desc) (t c y : ℕ) → Keeps f (with_next f t c) y
with_next-Keeps f t c y = elim (ℕ_discrete y t) [
  | yes e ↦ subst (Keeps f (with_next f t c)) (sym e) (
    ap (λ (d : Desc). d.ptr) (put_self f t _),
    ap (λ (d : Desc). d.size) (put_self f t _),
    ap (λ (d : Desc). d.is_used) (put_self f t _),
  )
  | no ne ↦ Keeps-eq f (with_next f t c) y (put_ne f t _ y ne)
]

pub next_of-with_next :
    (f : ℕ → Desc) (t c y : ℕ) → next_of (with_next f t c) y ≡ put (next_of f) t c y
next_of-with_next f t c y = elim (ℕ_discrete y t) [
  | yes e ↦
      ap (next_of (with_next f t c)) e
      ∙ ap (λ (d : Desc). d.next) (put_self f t _)
      ∙ sym (put_self (next_of f) t c)
      ∙ ap (put (next_of f) t c) (sym e)
  | no ne ↦ ap (λ (d : Desc). d.next) (put_ne f t _ y ne) ∙ sym (put_ne (next_of f) t c y ne)
]

abbrev pub contents : (ℕ → Desc) → List ℕ → List (ℕ × ℕ)
contents desc blocks = map (λ b. ((desc b).ptr, (desc b).size)) blocks

pub contents-Keeps :
    (f g : ℕ → Desc) (blocks : List ℕ)
    → All (Keeps f g) blocks
    → contents g blocks ≡ contents f blocks
contents-Keeps f g [] k = refl
contents-Keeps f g (b ∷ bs) k = cc (k.0.0, k.0.1, contents-Keeps f g bs k.1)

module _ {S : Type 0} (kernel_base_va : ℕ) (P : Pages S kernel_base_va) where
  pub record IsPayload (s : S) (desc : ℕ → Desc) (pages blocks : List ℕ) : Type 0 where
    pub in_use : All (InUse kernel_base_va P desc pages) blocks
    pub has_data : All (HasData kernel_base_va P s desc) blocks
    pub data_distinct : DistinctBy (λ b. (desc b).ptr) blocks
    pub data_apart : All (λ b. NotIn (desc b).ptr pages) blocks

  pub IsPayload-Keeps :
      (s : S) (f g : ℕ → Desc) (pages blocks : List ℕ)
      → All (Keeps f g) blocks
      → IsPayload s f pages blocks
      → IsPayload s g pages blocks
  IsPayload-Keeps s f g pages blocks k v = record {
    in_use = All-of_In (InUse kernel_base_va P g pages) blocks (λ b i.
        let u = All-In (InUse kernel_base_va P f pages) b blocks v.in_use i in
        ((keeps b i).2 ∙ u.0, u.1));
    has_data = All-of_In (HasData kernel_base_va P s g) blocks (λ b i.
        let e = keeps b i in
        let held = All-In (HasData kernel_base_va P s f) b blocks v.has_data i in
        (
          rw e.0 held.0,
          rw e.0 held.1,
          subst (λ a. P.holds s (va_to_pa kernel_base_va a) (num_pages (g b).size)) (sym e.0)
              (subst (λ n. P.holds s (va_to_pa kernel_base_va (f b).ptr) (num_pages n)) (sym e.1)
                held.2),
        ));
    data_distinct =
        DistinctBy-congr (λ b. (f b).ptr) (λ b. (g b).ptr) blocks
          (All-of_In (λ b. (g b).ptr ≡ (f b).ptr) blocks (λ b i. (keeps b i).0)) v.data_distinct;
    data_apart =
        All-of_In (λ b. NotIn (g b).ptr pages) blocks
          (λ b i.
            subst (λ a. NotIn a pages) (sym (keeps b i).0)
              (All-In (λ b. NotIn (f b).ptr pages) b blocks v.data_apart i));
  }
    where
      keeps : (b : ℕ) → In b blocks → Keeps f g b
      keeps b i = All-In (Keeps f g) b blocks k i

  pub IsPayload-snoc :
      (s : S) (desc : ℕ → Desc) (pages blocks : List ℕ) (b : ℕ)
      → IsPayload s desc pages blocks
      → InUse kernel_base_va P desc pages b
      → HasData kernel_base_va P s desc b
      → All (λ x. (desc x).ptr ≢ (desc b).ptr) blocks
      → NotIn (desc b).ptr pages
      → IsPayload s desc pages (blocks ++ b ∷ [])
  IsPayload-snoc s desc pages blocks b v used held new apart = record {
    in_use = All-snoc (InUse kernel_base_va P desc pages) blocks b v.in_use used;
    has_data = All-snoc (HasData kernel_base_va P s desc) blocks b v.has_data held;
    data_distinct = DistinctBy-snoc (λ b. (desc b).ptr) blocks b v.data_distinct new;
    data_apart = All-snoc (λ b. NotIn (desc b).ptr pages) blocks b v.data_apart apart;
  }

  pub IsPayload-remove :
      (s : S) (desc : ℕ → Desc) (pages blocks : List ℕ) (b : ℕ)
      → IsPayload s desc pages blocks
      → IsPayload s desc pages (remove b blocks)
  IsPayload-remove s desc pages blocks b v = record {
    in_use = All-remove (InUse kernel_base_va P desc pages) b blocks v.in_use;
    has_data = All-remove (HasData kernel_base_va P s desc) b blocks v.has_data;
    data_distinct = DistinctBy-remove (λ b. (desc b).ptr) b blocks v.data_distinct;
    data_apart = All-remove (λ b. NotIn (desc b).ptr pages) b blocks v.data_apart;
  }

  pub IsValid-IsPayload :
      (h : KernelHeap S) (pages blocks : List ℕ)
      → IsValid kernel_base_va P h pages blocks
      → IsPayload h.frames h.desc pages blocks
  IsValid-IsPayload h pages blocks v = record {
    in_use = v.in_use;
    has_data = v.has_data;
    data_distinct = v.data_distinct;
    data_apart = v.data_apart;
  }

  pub IsValid-of :
      (h : KernelHeap S) (pages blocks : List ℕ)
      → Chain h.next_page h.kalloc_page_head pages
      → Distinct pages
      → All (Managed kernel_base_va P h.frames) pages
      → Chain (next_of h.desc) h.allocated blocks
      → Distinct blocks
      → IsPayload h.frames h.desc pages blocks
      → IsValid kernel_base_va P h pages blocks
  IsValid-of h pages blocks chain distinct managed linked apart v = record {
    page_chain = chain;
    block_chain = linked;
    pages_distinct = distinct;
    blocks_distinct = apart;
    managed = managed;
    in_use = v.in_use;
    has_data = v.has_data;
    data_distinct = v.data_distinct;
    data_apart = v.data_apart;
  }
