-- ===== src/KernelHeap/Search.antt =====
-- src/kernel/allocator/kalloc.c: what the loops along the lists find, with enough fuel.
use native.Mathlib.Decide.{ℕ_discrete}
use mathlib.Core.Path.{subst}
use kernelite.Base.{ℕ, zero, suc, ◌+◌, ◌≤◌, ◌<◌, ◌≡◌, ◌≢◌, ◌⊎◌, inl, inr, refl, ap, ◌∙◌, sym, arith}
use kernelite.Base.{
  List, [], ◌∷◌, length, ◌==◌, ◌||◌, Bool, true, false, Option, none, some, Bool-cases,
}
use kernelite.KernelHeap.State.{Desc, slot, max_blocks}
use kernelite.KernelHeap.Blocks.{first_free, scan_pages, find_tail, find_block, find_page, any_used}
use kernelite.Base.{All}
use kernelite.KernelHeap.Members.{In}
use kernelite.KernelHeap.Members.{In-tail}
use kernelite.KernelHeap.Chains.{Chain, last, before, before_here, before_later}

abbrev pub next_of : (ℕ → Desc) → ℕ → ℕ
next_of desc a = (desc a).next

nonzero : {x : ℕ} → x ≢ 0 → (x == 0) ≡ false
nonzero {x} h = ground arith

first_free-Found :
    (desc : ℕ → Desc) (page left index : ℕ)
    → (first_free desc page left index ≡ none)
      ⊎ ((j : ℕ) × (first_free desc page left index ≡ some (slot page j))
          × (j < index + left)
          × ((desc (slot page j)).is_used ≡ false))
unfolding first_free
first_free-Found desc page zero index = inl refl
first_free-Found desc page (suc left) index = elim (Bool-cases (desc (slot page index)).is_used) [
  | inl used ↦ elim (first_free-Found desc page left (index + 1)) [
    | inl full ↦ inl (rw used full)
    | inr (j, e, h, u) ↦ inr (j, rw used e, omega arith, u)
  ]
  | inr free ↦ inr (index, rw free refl, omega arith, free)
]

-- The scan of the pages stops at a free descriptor of one of them, or at the last page.
abbrev pub Scanned : (ℕ → Desc) → ℕ → List ℕ → Option (Option ℕ × ℕ) → Type 0
Scanned desc prev pages r =
    ((p j q : ℕ) × (r ≡ some (some (slot p j), q))
      × In p pages
      × (j < max_blocks)
      × ((desc (slot p j)).is_used ≡ false))
    ⊎ (r ≡ some (none, last prev pages))

Scanned-later :
    (desc : ℕ → Desc) (prev p : ℕ) (pages : List ℕ) (r : Option (Option ℕ × ℕ))
    → Scanned desc p pages r
    → Scanned desc prev (p ∷ pages) r
Scanned-later desc prev p pages r (inl (p', j, q, e, i, h, u)) = inl (p', j, q, e, inr i, h, u)
Scanned-later desc prev p pages r (inr e) = inr e

pub scan_pages-Scanned :
    (fuel : ℕ) (desc : ℕ → Desc) (next_page : ℕ → ℕ) (current prev : ℕ) (pages : List ℕ)
    → Chain next_page current pages
    → length pages < fuel
    → Scanned desc prev pages (scan_pages fuel desc next_page current prev)
unfolding scan_pages
scan_pages-Scanned zero desc nx current prev pages c l = absurd (omega arith)
scan_pages-Scanned (suc fuel) desc nx current prev [] c l =
    inr (ap (λ w. scan_pages (suc fuel) desc nx w prev) c)
scan_pages-Scanned (suc fuel) desc nx current prev (p ∷ pages) c l =
    subst (λ w. Scanned desc prev (p ∷ pages) (scan_pages (suc fuel) desc nx w prev)) (sym c.0)
      (elim (first_free-Found desc p max_blocks 0) [
        | inl full ↦
            rw (nonzero c.1, full)
              (Scanned-later desc prev p pages (scan_pages fuel desc nx (nx p) p)
                (scan_pages-Scanned fuel desc nx (nx p) p pages c.2 (omega arith)))
        | inr (j, e, h, u) ↦ inl (p, j, p, rw (nonzero c.1, e) refl, inl refl, omega arith, u)
      ])

pub find_tail-last :
    (fuel : ℕ) (desc : ℕ → Desc) (head x : ℕ) (xs : List ℕ)
    → Chain (next_of desc) head (x ∷ xs)
    → length xs < fuel
    → find_tail fuel desc head ≡ some (last x xs)
unfolding find_tail
find_tail-last zero desc head x xs c l = absurd (omega arith)
find_tail-last (suc fuel) desc head x [] c l = rw (c.0, c.2) refl
find_tail-last (suc fuel) desc head x (y ∷ ys) c l =
    let more : ((desc x).next == 0) ≡ false = rw c.2.0 (nonzero c.2.1) in
    rw c.0 (rw more (find_tail-last fuel desc (desc x).next y ys c.2 (omega arith)))

-- The search finds the first descriptor for `ptr` and the one before it, or that there is none.
pub find_block-Found :
    (fuel : ℕ) (desc : ℕ → Desc) (ptr current prev : ℕ) (xs : List ℕ)
    → Chain (next_of desc) current xs
    → length xs < fuel
    → ((b : ℕ) × (find_block fuel desc ptr current prev ≡ some (b, before b prev xs))
        × In b xs
        × ((desc b).ptr ≡ ptr))
      ⊎ ((q : ℕ) × (find_block fuel desc ptr current prev ≡ some (0, q))
          × All (λ x. (desc x).ptr ≢ ptr) xs)
unfolding find_block
find_block-Found zero desc ptr current prev xs c l = absurd (omega arith)
find_block-Found (suc fuel) desc ptr current prev [] c l = inr (prev, rw c refl, tt)
find_block-Found (suc fuel) desc ptr current prev (x ∷ xs) c l =
    rw c.0 (elim (ℕ_discrete (desc x).ptr ptr) [
      | yes e ↦
          let t : ((desc x).ptr == ptr) ≡ true = ground arith in
          inl (x, rw (nonzero c.1, t, before_here x prev x xs refl) refl, inl refl, e)
      | no ne ↦
          let t : ((desc x).ptr == ptr) ≡ false = ground arith in
          elim (find_block-Found fuel desc ptr (desc x).next x xs c.2 (omega arith)) [
            | inl (b, e, i, h) ↦
                let apart : x ≢ b = λ q. ne (ap (λ w. (desc w).ptr) q ∙ h) in
                inl (b, rw (nonzero c.1, t, before_later b prev x xs apart) e, inr i, h)
            | inr (q, e, h) ↦ inr (q, rw (nonzero c.1, t) e, (ne, h))
          ]
    ])

-- A page of the chain is found, with the one before it.
pub find_page-before :
    (fuel : ℕ) (next_page : ℕ → ℕ) (page current prev : ℕ) (pages : List ℕ)
    → Chain next_page current pages
    → length pages < fuel
    → In page pages
    → find_page fuel next_page page current prev ≡ some (page, before page prev pages)
unfolding find_page
find_page-before zero nx page current prev pages c l i = absurd (omega arith)
find_page-before (suc fuel) nx page current prev [] c l i = absurd i
find_page-before (suc fuel) nx page current prev (p ∷ ps) c l i = rw c.0 (elim (ℕ_discrete p page) [
  | yes e ↦
      let t : (p == page) ≡ true = ground arith in
      rw (nonzero c.1, t, before_here page prev p ps e) (ap (λ w. some (w, prev)) e)
  | no ne ↦
      let t : (p == page) ≡ false = ground arith in
      rw (nonzero c.1, t, before_later page prev p ps ne)
        (find_page-before fuel nx page (nx p) p ps c.2 (omega arith) (In-tail page p ps i ne))
])

or_false : {a b : Bool} → (a || b) ≡ false → (a ≡ false) × (b ≡ false)
or_false {a} {b} h = ground arith

pub any_used-false :
    (desc : ℕ → Desc) (page left index : ℕ) (j : ℕ)
    → any_used desc page left index ≡ false
    → index ≤ j
    → j < index + left
    → (desc (slot page j)).is_used ≡ false
unfolding any_used
any_used-false desc page zero index j h l u = absurd (omega arith)
any_used-false desc page (suc left) index j h l u = elim (ℕ_discrete j index) [
  | yes e ↦ ap (λ i. (desc (slot page i)).is_used) e ∙ (or_false h).0
  | no ne ↦ any_used-false desc page left (index + 1) j (or_false h).1 (omega arith) (omega arith)
]
