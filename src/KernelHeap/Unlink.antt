-- ===== src/KernelHeap/Unlink.antt =====
-- src/kernel/allocator/kalloc.c: remove_from_allocated_list takes one block out of the list.
use native.Mathlib.Decide.{ℕ_discrete}
use mathlib.Core.Path.{subst}
use kernelite.Base.{ℕ, ◌<◌, ◌≡◌, ◌≢◌, ◌⊎◌, inl, inr, refl, ap, ◌∙◌, sym, arith}
use kernelite.Base.{List, [], ◌∷◌, length, true, false, ◌||◌, Option, some, ◌==◌}
use kernelite.KernelHeap.State.{Desc, KernelHeap, put}
use kernelite.KernelHeap.Blocks.{unlink_block, remove_from_allocated_list}
use kernelite.Base.{All}
use kernelite.KernelHeap.Members.{
  All-In, All-of_In, In, Distinct, remove, remove_here, remove_later,
}
use kernelite.KernelHeap.Members.{In-tail}
use kernelite.KernelHeap.Chains.{
  Chain, Chain-congr, Chain-nonzero, Chain-remove, before, before_later, before-In, put_self,
  put_ne,
}
use kernelite.KernelHeap.Search.{next_of, find_block-Found}
use kernelite.KernelHeap.Payload.{
  Keeps, Keeps-eq, Keeps-trans, with_next, with_next-Keeps, next_of-with_next,
}

abbrev pub unused : (ℕ → Desc) → ℕ → ℕ → Desc
unused f b = put f b (record (f b) { is_used = false })

unused-next : (f : ℕ → Desc) (b y : ℕ) → next_of (unused f b) y ≡ next_of f y
unused-next f b y = elim (ℕ_discrete y b) [
  | yes e ↦
      ap (next_of (unused f b)) e
      ∙ ap (λ (d : Desc). d.next) (put_self f b _)
      ∙ ap (next_of f) (sym e)
  | no ne ↦ ap (λ (d : Desc). d.next) (put_ne f b _ y ne)
]

-- The block is out of the list and not in use; its pointer and size are still there.
pub record IsRemoved {S : Type 0} (h : KernelHeap S) (blocks : List ℕ) (b : ℕ) (h' : KernelHeap S)
    : Type 0 where
  pub chain : Chain (next_of h'.desc) h'.allocated (remove b blocks)
  pub keeps : (y : ℕ) → y ≢ b → Keeps h.desc h'.desc y
  pub ptr : (h'.desc b).ptr ≡ (h.desc b).ptr
  pub size : (h'.desc b).size ≡ (h.desc b).size
  pub frames : h'.frames ≡ h.frames
  pub head : h'.kalloc_page_head ≡ h.kalloc_page_head
  pub pages : h'.next_page ≡ h.next_page

module _ {S : Type 0} where
  first-IsRemoved :
      (h : KernelHeap S) (x : ℕ) (xs : List ℕ)
      → Chain (next_of h.desc) h.allocated (x ∷ xs)
      → IsRemoved h (x ∷ xs) x (record h { allocated = (h.desc x).next; desc = unused h.desc x })
  first-IsRemoved h x xs c = record {
    chain =
        subst (Chain (next_of (unused h.desc x)) (h.desc x).next) (sym (remove_here x x xs refl)) (
          Chain-congr (next_of h.desc) (next_of (unused h.desc x)) (h.desc x).next xs
            (All-of_In _ xs (λ y i. unused-next h.desc x y)) c.2);
    keeps = λ y ne. Keeps-eq h.desc (unused h.desc x) y (put_ne h.desc x _ y ne);
    ptr = ap (λ (d : Desc). d.ptr) (put_self h.desc x _);
    size = ap (λ (d : Desc). d.size) (put_self h.desc x _);
    frames = refl;
    head = refl;
    pages = refl;
  }

  later-IsRemoved :
      (h : KernelHeap S) (x : ℕ) (xs : List ℕ) (b : ℕ)
      → Chain (next_of h.desc) h.allocated (x ∷ xs)
      → Distinct (x ∷ xs)
      → In b xs
      → x ≢ b
      → IsRemoved h
          (x ∷ xs)
          b
          (record h { desc = unused (with_next h.desc (before b x xs) (h.desc b).next) b })
  later-IsRemoved h x xs b c d i ne = record {
    chain = subst (Chain (next_of (unused linked b)) h.allocated) (sym (remove_later b x xs ne)) (
        Chain-congr (put (next_of h.desc) (before b x xs) (next_of h.desc b))
          (next_of (unused linked b)) h.allocated (x ∷ remove b xs)
          (All-of_In _ (x ∷ remove b xs) (λ y k.
            unused-next linked b y ∙ next_of-with_next h.desc (before b x xs) (h.desc b).next y))
          (Chain-remove (next_of h.desc) h.allocated x xs b c d i));
    keeps = λ y apart.
        Keeps-trans h.desc linked (unused linked b) y (kept y)
          (Keeps-eq linked (unused linked b) y (put_ne linked b _ y apart));
    ptr = ap (λ (d : Desc). d.ptr) (put_self linked b _) ∙ (kept b).0;
    size = ap (λ (d : Desc). d.size) (put_self linked b _) ∙ (kept b).1;
    frames = refl;
    head = refl;
    pages = refl;
  }
    where
      linked : ℕ → Desc
      linked = with_next h.desc (before b x xs) (h.desc b).next

      kept : (y : ℕ) → Keeps h.desc linked y
      kept = with_next-Keeps h.desc (before b x xs) (h.desc b).next

  -- No block has the pointer and nothing changes, or the block that has it is taken out.
  abbrev pub Unlinked : KernelHeap S → List ℕ → ℕ → Option (ℕ × KernelHeap S) → Type 0
  Unlinked h blocks ptr r =
      ((r ≡ some (0, h)) × All (λ x. (h.desc x).ptr ≢ ptr) blocks)
      ⊎ ((b : ℕ) × (h' : KernelHeap S) × (r ≡ some (b, h'))
          × (b ≢ 0)
          × In b blocks
          × ((h.desc b).ptr ≡ ptr)
          × IsRemoved h blocks b h')

  pub remove_from_allocated_list-Unlinked :
      (fuel ptr : ℕ) (h : KernelHeap S) (blocks : List ℕ)
      → Chain (next_of h.desc) h.allocated blocks
      → Distinct blocks
      → All (λ x. (h.desc x).ptr ≢ 0) blocks
      → length blocks < fuel
      → Unlinked h blocks ptr (remove_from_allocated_list fuel ptr h)
  unfolding remove_from_allocated_list
  remove_from_allocated_list-Unlinked fuel ptr h [] c d nz l =
      let nothing : (ptr == 0 || h.allocated == 0) ≡ true = ground (arith, c) in
      inl (rw nothing refl, tt)
  remove_from_allocated_list-Unlinked fuel ptr h (x ∷ xs) c d nz l = elim (ℕ_discrete ptr 0) [
    | yes null ↦
        let nothing : (ptr == 0 || h.allocated == 0) ≡ true = ground (arith, null) in
        inl (rw nothing refl, subst (λ p. All (λ y. (h.desc y).ptr ≢ p) (x ∷ xs)) (sym null) nz)
    | no real ↦
        let something : (ptr == 0 || h.allocated == 0) ≡ false = ground (arith, c.0, c.1) in
        elim (ℕ_discrete (h.desc x).ptr ptr) [
          | yes e ↦
              let here : ((h.desc h.allocated).ptr == ptr) ≡ true = rw c.0 (ground arith) in
              inr (
                x,
                _,
                rw (something, here)
                    (ap
                      (λ w.
                        some (w, record h { allocated = (h.desc w).next; desc = unused h.desc w }))
                      c.0),
                c.1,
                inl refl,
                e,
                first-IsRemoved h x xs c,
              )
          | no ne ↦
              let other : ((h.desc h.allocated).ptr == ptr) ≡ false = rw c.0 (ground arith) in
              elim (find_block-Found fuel h.desc ptr h.allocated 0 (x ∷ xs) c l) [
                | inl (b, e, i, has) ↦
                    let apart : x ≢ b = λ q. ne (ap (λ w. (h.desc w).ptr) q ∙ has) in
                    let k : In b xs = In-tail b x xs i apart in
                    let nonzero = Chain-nonzero (next_of h.desc) h.allocated (x ∷ xs) c in
                    let bz : b ≢ 0 = All-In (λ y. y ≢ 0) b (x ∷ xs) nonzero i in
                    let pz : before b x xs ≢ 0 =
                      All-In (λ y. y ≢ 0) (before b x xs) (x ∷ xs) nonzero (before-In b x xs k) in
                    let b_real : (b == 0) ≡ false = ground arith in
                    let p_real : (before b x xs == 0) ≡ false = ground arith in
                    inr (
                      b,
                      _,
                      rw
                          (
                            something,
                            other,
                            e,
                            before_later b 0 x xs apart,
                            unlink_block,
                            b_real,
                            p_real,
                          )
                          refl,
                      bz,
                      i,
                      has,
                      later-IsRemoved h x xs b c d k apart,
                    )
                | inr (q, e, none_has) ↦ inl (rw (something, other, e) refl, none_has)
              ]
        ]
  ]
