-- ===== src/KernelHeap/Cycle.antt =====
-- src/kernel/allocator/kalloc.c: kfree undoes kmalloc.
use mathlib.Core.Path.{subst}
use kernelite.Base.{ℕ, ◌+◌, ◌<◌, ◌^◌, ◌≡◌, ◌≢◌, ◌⊎◌, inl, inr, refl, ap, ◌∙◌, arith}
use kernelite.Base.{List, [], ◌∷◌, ◌++◌, length, true, false, some, ◌==◌}
use kernelite.KernelHeap.State.{Desc, KernelHeap}
use kernelite.KernelHeap.Blocks.{kmalloc, kfree}
use kernelite.Base.{All}
use kernelite.KernelHeap.Members.{DistinctBy}
use kernelite.KernelHeap.Invariant.{Pages, IsValid, live}
use kernelite.KernelHeap.Payload.{contents}
use kernelite.KernelHeap.Malloc.{Outcome, kmalloc-Outcome}
use kernelite.KernelHeap.Free.{drop_ptr, kfree_lem}

-- No two entries have the same pointer.
abbrev pub UniquePtrs : List (ℕ × ℕ) → Type 0
UniquePtrs [] = Unit
UniquePtrs ((q, n) ∷ l) = All (λ e. e.0 ≢ q) l × UniquePtrs l

All-contents :
    (desc : ℕ → Desc) (q : ℕ) (blocks : List ℕ)
    → All (λ y. (desc y).ptr ≢ q) blocks
    → All (λ e. e.0 ≢ q) (contents desc blocks)
All-contents desc q [] h = tt
All-contents desc q (b ∷ bs) h = (h.0, All-contents desc q bs h.1)

UniquePtrs-contents :
    (desc : ℕ → Desc) (blocks : List ℕ)
    → DistinctBy (λ b. (desc b).ptr) blocks
    → UniquePtrs (contents desc blocks)
UniquePtrs-contents desc [] d = tt
UniquePtrs-contents desc (b ∷ bs) d =
    (All-contents desc (desc b).ptr bs d.0, UniquePtrs-contents desc bs d.1)

last_apart : (l : List (ℕ × ℕ)) (r n q : ℕ) → All (λ e. e.0 ≢ q) (l ++ (r, n) ∷ []) → r ≢ q
last_apart [] r n q h = h.0
last_apart (e ∷ l) r n q h = last_apart l r n q h.1

drop_ptr-snoc :
    (l : List (ℕ × ℕ)) (r n : ℕ) → UniquePtrs (l ++ (r, n) ∷ []) → drop_ptr r (l ++ (r, n) ∷ []) ≡ l
unfolding drop_ptr
drop_ptr-snoc [] r n u = let t : (r == r) ≡ true = ground arith in rw t refl
drop_ptr-snoc ((q, k) ∷ l) r n u =
    let ne : r ≢ q = last_apart l r n q u.0 in
    let t : (q == r) ≡ false = ground arith in rw t (ap (λ w. (q, k) ∷ w) (drop_ptr-snoc l r n u.1))

module _ {S : Type 0} (kernel_base_va : ℕ) (P : Pages S kernel_base_va) where
  -- On a valid heap, `kmalloc` returns with enough fuel; if it returns a pointer, then `kfree` of
  -- that pointer, with enough fuel for the new heap, returns too, and the live blocks are those of before.
  pub kfree-kmalloc :
      (fuel size : ℕ) (h : KernelHeap S) (pages blocks : List ℕ)
      → IsValid kernel_base_va P h pages blocks
      → size < 2 ^ 64
      → length pages + 1 < fuel
      → length blocks < fuel
      → (r : ℕ) × (h' : KernelHeap S) × (kmalloc P.page_alloc P.page_free kernel_base_va fuel size h
          ≡ some (r, h'))
        × ((r ≡ 0)
            ⊎ ((enough : ℕ) × (h'' : KernelHeap S) × (pages'' : List ℕ) × (blocks'' : List ℕ)
                × (kfree P.page_alloc P.page_free kernel_base_va enough r h' ≡ some h'')
                × IsValid kernel_base_va P h'' pages'' blocks''
                × (live kernel_base_va P h'' blocks'' ≡ live kernel_base_va P h blocks)))
  kfree-kmalloc fuel size h pages blocks valid hs lp lb =
      let (r, h', e, (o, _)) =
        kmalloc-Outcome kernel_base_va P fuel size h pages blocks valid hs lp lb in
      (r, h', e, after r h' o)
    where
      after :
          (r : ℕ) (h' : KernelHeap S)
          → Outcome kernel_base_va P h blocks size r h'
          → (r ≡ 0)
            ⊎ ((enough : ℕ) × (h'' : KernelHeap S) × (pages'' : List ℕ) × (blocks'' : List ℕ)
                × (kfree P.page_alloc P.page_free kernel_base_va enough r h' ≡ some h'')
                × IsValid kernel_base_va P h'' pages'' blocks''
                × (live kernel_base_va P h'' blocks'' ≡ live kernel_base_va P h blocks))
      after r h' o = elim o.answer [
        | inl failed ↦ inl failed.0
        | inr given ↦
            let enough = length o.pages' + length o.blocks' + 1 in
            let (h'', p, b, e, v, q) =
              kfree_lem kernel_base_va P enough r h' o.pages' o.blocks' o.valid (omega arith)
                (omega arith) in
            inr (
              enough,
              h'',
              p,
              b,
              e,
              v,
              q
                  ∙ ap (drop_ptr r) given.2
                  ∙ drop_ptr-snoc (live kernel_base_va P h blocks) r size (
                      subst UniquePtrs given.2
                        (UniquePtrs-contents h'.desc o.blocks' o.valid.data_distinct)),
            )
      ]
