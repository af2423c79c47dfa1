-- ===== src/KernelHeap/Malloc.antt =====
-- src/kernel/allocator/kalloc.c: kmalloc appends one live block, or none.
use native.Mathlib.Decide.{ℕ_discrete}
use mathlib.Core.Path.{subst}
use mathlib.Core.List.{map-append}
use kernelite.Base.{
  ℕ, ◌+◌, ◌-◌, ◌*◌, ◌^◌, ◌≤◌, ◌<◌, ◌≡◌, ◌≢◌, ◌⊎◌, inl, inr, refl, ap, ◌∙◌, sym, arith,
}
use kernelite.Base.{List, [], ◌∷◌, ◌++◌, length, true, false, some, ltb, ◌==◌, Bool-cases}
use kernelite.MemLayout.{va_to_pa, pa_to_va}
use kernelite.PageAllocator.Chunk.{num_pages, page_size}
use kernelite.KernelHeap.State.{Desc, KernelHeap, put, set_used}
use kernelite.KernelHeap.Blocks.{add_to_allocated_list, find_tail, fill_block, kmalloc}
use kernelite.Base.{All, All-map}
use kernelite.KernelHeap.Members.{All-In, All-of_In, In, NotIn, Distinct, Distinct-snoc}
use kernelite.KernelHeap.Chains.{Chain, Chain-congr, Chain-append, last, put_self, put_ne}
use kernelite.KernelHeap.Search.{next_of, find_tail-last}
use kernelite.KernelHeap.Separate.{Separate, IsValid-Separate}
use kernelite.KernelHeap.Invariant.{Pages, IsValid, InUse, HasData, virtual, address, live}
use kernelite.KernelHeap.Reserve.{IsReserved, IsValid-frames, IsValid-set_used}
use kernelite.KernelHeap.Find.{find_free_management_block-IsReserved}
use kernelite.KernelHeap.Payload.{
  Keeps, Keeps-eq, Keeps-trans, with_next, with_next-Keeps, next_of-with_next, contents-Keeps,
  IsPayload, IsPayload-Keeps, IsPayload-snoc, IsValid-IsPayload, IsValid-of,
}

-- The descriptor stands at the end of the list; only pointers to the next descriptor change.
record IsAppended {S : Type 0} (h : KernelHeap S) (blocks : List ℕ) (b : ℕ) (h' : KernelHeap S)
    : Type 0 where
  pub chain : Chain (next_of h'.desc) h'.allocated (blocks ++ b ∷ [])
  pub keeps : (y : ℕ) → Keeps h.desc h'.desc y
  pub frames : h'.frames ≡ h.frames
  pub head : h'.kalloc_page_head ≡ h.kalloc_page_head
  pub pages : h'.next_page ≡ h.next_page

module _ {S : Type 0} where
  add_to_allocated_list-IsAppended :
      (fuel : ℕ) (h : KernelHeap S) (blocks : List ℕ) (b : ℕ)
      → Chain (next_of h.desc) h.allocated blocks
      → Distinct blocks
      → NotIn b blocks
      → b ≢ 0
      → length blocks < fuel
      → (h' : KernelHeap S) × (add_to_allocated_list fuel b h ≡ some h') × IsAppended h blocks b h'
  unfolding add_to_allocated_list
  add_to_allocated_list-IsAppended fuel h [] b c d n nz l =
      let real : (b == 0) ≡ false = ground arith in
      let empty : (h.allocated == 0) ≡ true = ground arith in
      (
        record h { desc = with_next h.desc b 0; allocated = b },
        rw (real, empty) refl,
        record {
          chain = (refl, nz, ap (λ (d : Desc). d.next) (put_self h.desc b _));
          keeps = with_next-Keeps h.desc b 0;
          frames = refl;
          head = refl;
          pages = refl;
        },
      )
  add_to_allocated_list-IsAppended fuel h (x ∷ xs) b c d n nz l =
      let real : (b == 0) ≡ false = ground arith in
      let nonempty : (h.allocated == 0) ≡ false = ground (arith, c.0, c.1) in
      (
        record h { desc = linked },
        rw (real, nonempty, tail, add_to_allocated_list) refl,
        record {
          chain =
              Chain-congr (put (next_of cleared) (last x xs) b) (next_of linked) h.allocated
                (x ∷ xs ++ b ∷ [])
                (All-of_In _ (x ∷ xs ++ b ∷ []) (λ y i. next_of-with_next cleared (last x xs) b y))
                (Chain-append (next_of cleared) h.allocated x xs b cleared_chain d n nz
                  (ap (λ (d : Desc). d.next) (put_self h.desc b _)));
          keeps = λ y.
              Keeps-trans h.desc cleared linked y (with_next-Keeps h.desc b 0 y)
                (with_next-Keeps cleared (last x xs) b y);
          frames = refl;
          head = refl;
          pages = refl;
        },
      )
    where
      cleared : ℕ → Desc
      cleared = with_next h.desc b 0

      linked : ℕ → Desc
      linked = with_next cleared (last x xs) b

      cleared_chain : Chain (next_of cleared) h.allocated (x ∷ xs)
      cleared_chain =
          Chain-congr (next_of h.desc) (next_of cleared) h.allocated (x ∷ xs)
            (All-map (x ∷ xs) (λ y ne. ap (λ (d : Desc). d.next) (put_ne h.desc b _ y ne)) n) c

      tail : find_tail fuel cleared h.allocated ≡ some (last x xs)
      tail = find_tail-last fuel cleared h.allocated x xs cleared_chain (omega arith)

module _ {S : Type 0} (kernel_base_va : ℕ) (P : Pages S kernel_base_va) where
  -- What `kmalloc` leaves: the live blocks of before, or one more with the pointer that it returns.
  pub record Outcome (h : KernelHeap S) (blocks : List ℕ) (size r : ℕ) (h' : KernelHeap S)
      : Type 0 where
    pub pages' : List ℕ
    pub blocks' : List ℕ
    pub valid : IsValid kernel_base_va P h' pages' blocks'
    pub answer :
        ((r ≡ 0) × (live kernel_base_va P h' blocks' ≡ live kernel_base_va P h blocks))
        ⊎ ((r ≢ 0)
            × (size ≤ num_pages size * 4096)
            × (live kernel_base_va P h' blocks' ≡ live kernel_base_va P h blocks ++ (r, size) ∷ []))

  module _ (h : KernelHeap S) (pages blocks : List ℕ) (b size : ℕ)
      (valid : IsValid kernel_base_va P h pages blocks) (out : NotIn b blocks) (nonnull : b ≢ 0)
      (taken : InUse kernel_base_va P h.desc pages b) where
    abbrev got : ℕ
    got = (P.page_alloc (num_pages size) h.frames).0

    abbrev frames' : S
    frames' = (P.page_alloc (num_pages size) h.frames).1

    abbrev filled : ℕ → Desc
    filled = put h.desc b (record (h.desc b) { ptr = pa_to_va kernel_base_va got; size = size })

    abbrev with_data : KernelHeap S
    with_data = record h { frames = frames'; desc = filled }

    filled_other : (x : ℕ) → In x blocks → filled x ≡ h.desc x
    filled_other x i = put_ne h.desc b _ x (All-In (λ y. y ≢ b) x blocks out i)

    filled-Keeps : All (Keeps h.desc filled) blocks
    filled-Keeps =
        All-of_In (Keeps h.desc filled) blocks (λ x i. Keeps-eq h.desc filled x (filled_other x i))

    filled_ptr : (filled b).ptr ≡ pa_to_va kernel_base_va got
    filled_ptr = ap (λ (d : Desc). d.ptr) (put_self h.desc b _)

    filled_size : (filled b).size ≡ size
    filled_size = ap (λ (d : Desc). d.size) (put_self h.desc b _)

    -- The data of the new block is apart from all that was granted before.
    new_apart :
        got ≢ 0 → (a n : ℕ) → P.holds h.frames (va_to_pa kernel_base_va a) n → a ≢ (filled b).ptr
    new_apart some_left a n held e = P.fresh (num_pages size) h.frames _ n some_left held (
        ap (va_to_pa kernel_base_va) (e ∙ filled_ptr)
        ∙ address kernel_base_va P (num_pages size) h.frames)

    filled-IsPayload : got ≢ 0 → IsPayload kernel_base_va P frames' filled pages (blocks ++ b ∷ [])
    filled-IsPayload some_left =
        IsPayload-snoc kernel_base_va P frames' filled pages blocks b
          (IsPayload-Keeps kernel_base_va P frames' h.desc filled pages blocks filled-Keeps (
            IsValid-IsPayload kernel_base_va P (record h { frames = frames' }) pages blocks
              (IsValid-frames kernel_base_va P h frames' pages blocks valid
                (P.kept (num_pages size) h.frames))))
          (ap (λ (d : Desc). d.is_used) (put_self h.desc b _) ∙ taken.0, taken.1)
          (
            rw filled_ptr (omega (arith, virtual kernel_base_va P (num_pages size) h.frames)),
            rw filled_ptr (
                omega (
                  arith,
                  virtual kernel_base_va P (num_pages size) h.frames,
                  P.small (num_pages size) h.frames,
                )),
            subst (λ a. P.holds frames' (va_to_pa kernel_base_va a) (num_pages (filled b).size))
                (sym filled_ptr)
                (subst
                  (λ n.
                    P.holds frames' (va_to_pa kernel_base_va (pa_to_va kernel_base_va got))
                      (num_pages n))
                  (sym filled_size)
                  (subst (λ a. P.holds frames' a (num_pages size))
                    (sym (address kernel_base_va P (num_pages size) h.frames))
                    (P.granted (num_pages size) h.frames some_left))),
          )
          (All-of_In (λ x. (filled x).ptr ≢ (filled b).ptr) blocks
            (λ x i e.
              new_apart some_left (h.desc x).ptr _
                (All-In (HasData kernel_base_va P h.frames h.desc) x blocks valid.has_data i).2
                (ap (λ (d : Desc). d.ptr) (sym (filled_other x i)) ∙ e)))
          (All-map pages (λ p m. new_apart some_left p 1 m.2) valid.managed)

    appended_block :
        (h' : KernelHeap S)
        → IsAppended with_data blocks b h'
        → size ≤ num_pages size * 4096
        → got ≢ 0
        → Outcome h blocks size (h'.desc b).ptr h'
    appended_block h' a enough some_left = record {
      pages' = pages;
      blocks' = blocks ++ b ∷ [];
      valid =
          IsValid-of kernel_base_va P h' pages (blocks ++ b ∷ [])
            (rw (a.pages, a.head) valid.page_chain) valid.pages_distinct
            (rw a.frames (
              All-map pages (λ p m. (m.0, m.1, P.kept (num_pages size) h.frames _ _ m.2))
                valid.managed))
            a.chain (Distinct-snoc blocks b valid.blocks_distinct out)
            (rw a.frames (
              IsPayload-Keeps kernel_base_va P frames' filled h'.desc pages (blocks ++ b ∷ [])
                all_keep (filled-IsPayload some_left)));
      answer = inr (
        rw ((a.keeps b).0, filled_ptr)
            (omega (arith, virtual kernel_base_va P (num_pages size) h.frames)),
        enough,
        contents-Keeps filled h'.desc (blocks ++ b ∷ []) all_keep
            ∙ map-append (λ x. ((filled x).ptr, (filled x).size)) blocks (b ∷ [])
            ∙ cc (contents-Keeps h.desc filled blocks filled-Keeps, (a.keeps b).0, filled_size),
      );
    }
      where
        all_keep : All (Keeps filled h'.desc) (blocks ++ b ∷ [])
        all_keep = All-of_In (Keeps filled h'.desc) (blocks ++ b ∷ []) (λ y i. a.keeps y)

    granted_block :
        (fuel : ℕ)
        → got ≢ 0
        → length blocks < fuel
        → size ≤ num_pages size * 4096
        → (h' : KernelHeap S) × (add_to_allocated_list fuel b with_data ≡ some h')
          × Outcome h blocks size (h'.desc b).ptr h'
    granted_block fuel some_left l enough =
        let c =
          Chain-congr (next_of h.desc) (next_of filled) h.allocated blocks
            (All-of_In (λ x. next_of filled x ≡ next_of h.desc x) blocks
              (λ x i. ap (λ (d : Desc). d.next) (filled_other x i)))
            valid.block_chain in
        let (h', e, a) =
          add_to_allocated_list-IsAppended fuel with_data blocks b c valid.blocks_distinct out
            nonnull l in
        (h', e, appended_block h' a enough some_left)

    -- The descriptor is given back when there are no pages for the data.
    refused_block : Outcome h blocks size 0 (set_used b false (record h { frames = frames' }))
    unfolding set_used
    refused_block = record {
      pages' = pages;
      blocks' = blocks;
      valid =
          IsValid-set_used kernel_base_va P (record h { frames = frames' }) b false pages blocks
            (IsValid-frames kernel_base_va P h frames' pages blocks valid
              (P.kept (num_pages size) h.frames))
            out;
      answer = inl (
        refl,
        contents-Keeps h.desc given_back blocks (
            All-map blocks
              (λ x ne.
                Keeps-eq h.desc given_back x
                  (put_ne h.desc b (record (h.desc b) { is_used = false }) x ne))
              out),
      );
    }
      where
        given_back : ℕ → Desc
        given_back = put h.desc b (record (h.desc b) { is_used = false })

    fill_block-Outcome :
        (fuel : ℕ)
        → length blocks < fuel
        → size ≤ num_pages size * 4096
        → (r : ℕ) × (h' : KernelHeap S) × (fill_block P.page_alloc P.page_free kernel_base_va fuel
              size b h
            ≡ some (r, h'))
          × Outcome h blocks size r h'
    unfolding fill_block
    fill_block-Outcome fuel l enough =
        let real : (b == 0) ≡ false = ground arith in
        elim (ℕ_discrete got 0) [
          | yes none_left ↦ (0, _, rw (real, none_left) refl, refused_block)
          | no some_left ↦
              let nonzero : (got == 0) ≡ false = ground arith in
              let (h', e, outcome) = granted_block fuel some_left l enough in
              ((h'.desc b).ptr, h', rw (real, nonzero, e) refl, outcome)
        ]

  same_live :
      (h h' h'' : KernelHeap S) (blocks : List ℕ) (size r : ℕ)
      → All (λ x. h'.desc x ≡ h.desc x) blocks
      → Outcome h' blocks size r h''
      → Outcome h blocks size r h''
  same_live h h' h'' blocks size r same o = record {
    pages' = o.pages';
    blocks' = o.blocks';
    valid = o.valid;
    answer =
        subst
          (λ l.
            ((r ≡ 0) × (live kernel_base_va P h'' o.blocks' ≡ l))
            ⊎ ((r ≢ 0)
                × (size ≤ num_pages size * 4096)
                × (live kernel_base_va P h'' o.blocks' ≡ l ++ (r, size) ∷ [])))
          (contents-Keeps h.desc h'.desc blocks
            (All-map blocks (λ x e. Keeps-eq h.desc h'.desc x e) same))
          o.answer;
  }

  unchanged :
      (h : KernelHeap S) (pages blocks : List ℕ) (size : ℕ)
      → IsValid kernel_base_va P h pages blocks
      → Outcome h blocks size 0 h
  unchanged h pages blocks size valid = record {
    pages' = pages;
    blocks' = blocks;
    valid = valid;
    answer = inl (refl, refl);
  }

  filled_from :
      (fuel size : ℕ) (h : KernelHeap S) (blocks : List ℕ)
      → length blocks < fuel
      → size ≤ num_pages size * 4096
      → (b : ℕ) (h' : KernelHeap S) → IsReserved kernel_base_va P h blocks b h'
      → (r : ℕ) × (h'' : KernelHeap S) × (fill_block P.page_alloc P.page_free kernel_base_va fuel
            size b h'
          ≡ some (r, h''))
        × Outcome h blocks size r h''
  unfolding fill_block
  filled_from fuel size h blocks l enough b h' r = elim r.taken [
    | inl none_left ↦ (
      0,
      h',
      rw none_left refl,
      same_live h h' h' blocks size 0 r.same (unchanged h' r.pages blocks size r.valid),
    )
    | inr (out, nonnull, taken) ↦
        let (v, h'', e, o) =
          fill_block-Outcome h' r.pages blocks b size r.valid out nonnull taken fuel l enough in
        (v, h'', e, same_live h h' h'' blocks size v r.same o)
  ]

  num_pages_enough :
      (size : ℕ)
      → size < 2 ^ 64
      → ltb (2 ^ 64 - 1 - (page_size - 1)) size ≡ false
      → size ≤ num_pages size * 4096
  unfolding num_pages
  num_pages_enough size h e = ground arith

  with_Separate :
      {h h' : KernelHeap S} {blocks : List ℕ} {size r : ℕ}
      → Outcome h blocks size r h'
      → (o : Outcome h blocks size r h') × Separate kernel_base_va P h' o.pages' o.blocks'
  with_Separate {h} {h'} o = (o, IsValid-Separate kernel_base_va P h' o.pages' o.blocks' o.valid)

  -- `kmalloc` on a valid heap and with more fuel than the lists are long: it returns. Either it
  -- returns NULL and the live blocks are those of before, or it returns a pointer that is not NULL
  -- and appends it with the size to the live blocks, after a grant of enough pages. The heap stays valid, and the
  -- pages that hold the data of its live blocks share no byte with one another or with a management page.
  pub kmalloc-Outcome :
      (fuel size : ℕ) (h : KernelHeap S) (pages blocks : List ℕ)
      → IsValid kernel_base_va P h pages blocks
      → size < 2 ^ 64
      → length pages + 1 < fuel
      → length blocks < fuel
      → (r : ℕ) × (h' : KernelHeap S) × (kmalloc P.page_alloc P.page_free kernel_base_va fuel size h
          ≡ some (r, h'))
        × ((o : Outcome h blocks size r h') × Separate kernel_base_va P h' o.pages' o.blocks')
  unfolding kmalloc
  kmalloc-Outcome fuel size h pages blocks valid hs lp lb = elim (ℕ_discrete size 0) [
    | yes zero_size ↦
        let t : (size == 0) ≡ true = ground arith in
        (0, h, rw t refl, with_Separate (unchanged h pages blocks size valid))
    | no some_size ↦
        let t : (size == 0) ≡ false = ground arith in
        elim (Bool-cases (ltb (2 ^ 64 - 1 - (page_size - 1)) size)) [
          | inl large ↦
              (0, h, rw (t, large) refl, with_Separate (unchanged h pages blocks size valid))
          | inr fits ↦
              let found =
                find_free_management_block-IsReserved kernel_base_va P fuel h pages blocks valid
                  lp in
              let result =
                filled_from fuel size h blocks lb (num_pages_enough size hs fits) found.0 found.1
                  found.3 in
              (result.0, result.1, rw (t, fits, found.2) result.2, with_Separate result.3)
        ]
  ]
