-- ===== src/PageTable/Remap.antt =====
-- A change of the translation: some pages of the address space get new leaves, by a rule, and the others
-- keep theirs.
use kernelite.Base.{ℕ, ◌/◌, ◌%◌, ◌^◌, ◌≡◌, ◌∙◌, refl, ap, inl, inr, ==_iff}
use kernelite.Base.{
  Mem, Option, none, some, Bool, true, false, Bool-cases, ◌==◌, ◌&&◌, ◌||◌, leb, ltb, if◌then◌else◌,
}
use kernelite.PageTable.Layout.{PagePermissions, MemType, PageDesc}
use kernelite.PageTable.Map.{map_page, leaf_desc}
use kernelite.PageTable.Walk.{translate}
use kernelite.PageTable.Walk.Tree.{Frames, Tree}
use kernelite.PageTable.Walk.Link.{IsBase}
use kernelite.PageTable.Mapping.{map_page-Mapped}

-- The page of a virtual address in the 48 bits that are translated.
abbrev pub page_of : ℕ → ℕ
page_of w = w / 2 ^ 12 % 2 ^ 36

abbrev pub within : ℕ → ℕ → ℕ → Bool
within first last n = leb first n && ltb n last

module _ (kernel_base_va root : ℕ) (leaf : ℕ → PageDesc) where
  -- From `before` to `after`, the pages of which P holds get the leaf for their number, and the translation of the
  -- others is as it was.
  abbrev pub Remap : Mem → Mem → (ℕ → Bool) → Type 0
  Remap before after P =
      (w : ℕ)
      → translate kernel_base_va root w after ≡ (
          if P (page_of w) then some (leaf (page_of w)) else translate kernel_base_va root w before)

  pub Remap-trans :
      (a b c : Mem) (P Q R : ℕ → Bool)
      → Remap a b P
      → Remap b c Q
      → ((n : ℕ) → R n ≡ Q n || P n)
      → Remap a c R
  Remap-trans a b c P Q R f g h w = elim (Bool-cases (Q (page_of w))) [
    | inl now ↦ rw (h (page_of w), g w, now) refl
    | inr no' ↦ rw (h (page_of w), g w, no') (f w)
  ]

  pub Remap-congr : (a b : Mem) (P Q : ℕ → Bool) → Remap a b P → ((n : ℕ) → Q n ≡ P n) → Remap a b Q
  Remap-congr a b P Q f h w = rw (h (page_of w)) (f w)

  -- If the page has the number, its leaf is the one for that number.
  leaf_for :
      (ok : Bool) (n i : ℕ) (otherwise : Option PageDesc)
      → (if ok && (n == i) then some (leaf i) else otherwise)
        ≡ (if ok && (n == i) then some (leaf n) else otherwise)
  leaf_for false n i otherwise = refl
  leaf_for true n i otherwise = elim (Bool-cases (n == i)) [
    | inl same ↦ rw ((==_iff n i).0 same) refl
    | inr other ↦ rw other refl
  ]

  -- map_page of a readable page with the leaf for its number, as such a change.
  pub map_page-Remap :
      (base : IsBase kernel_base_va) {S : Type 0} (F : Frames S) (v p i : ℕ)
      (perms : PagePermissions) (mt : MemType) (s : S) (tm : Mem)
      → perms.read ≡ true
      → page_of v ≡ i
      → leaf_desc p perms mt ≡ leaf i
      → Tree kernel_base_va (F.in_use s) root tm
      → let r = map_page kernel_base_va F.page_alloc root v p perms mt (s, tm) in
        Tree kernel_base_va (F.in_use r.1.0) root r.1.1 × Remap tm r.1.1 (λ n. r.0 && (n == i))
  map_page-Remap base F v p i perms mt s tm readable at rule T =
      let r = map_page kernel_base_va F.page_alloc root v p perms mt (s, tm) in
      let M = map_page-Mapped kernel_base_va base F root v p perms mt s tm T in
      let chosen : (if perms.read then some (leaf_desc p perms mt) else none) ≡ some (leaf i) =
        ap (λ b. if b then some (leaf_desc p perms mt) else none) readable ∙ ap some rule in
      (
        M.tree,
        λ w.
            M.translated w
            ∙ ap
                (λ d.
                  if r.0 && (page_of w == page_of v) then d else translate kernel_base_va root w tm)
                chosen
            ∙ ap
                (λ n.
                  if r.0 && (page_of w == n)
                  then some (leaf i)
                  else translate kernel_base_va root w tm)
                at
            ∙ leaf_for r.0 (page_of w) i (translate kernel_base_va root w tm),
      )
