-- ===== src/PageTable/Mapping.antt =====
-- `map_page` against the hardware's walk.
use kernelite.Base.{
  ℕ, zero, suc, ◌+◌, ◌*◌, ◌/◌, ◌%◌, ◌^◌, ◌≤◌, ◌<◌, ◌≡◌, ◌≢◌, inl, inr, refl, ap, ◌∙◌, arith,
}
use kernelite.Base.{
  Mem, Option, none, some, Bool, true, false, Bool-cases, ◌==◌, ◌!=◌, if◌then◌else◌, ==_ne, store,
  store_self,
}
use kernelite.Base.{bit_and, ◌||◌, ◌&&◌, ◌>>>◌}
use native.Mathlib.Decide.{ℕ_discrete, dec_lt}
use kernelite.Base.{==_iff}
use kernelite.Bits.{bit_and_mask}
use kernelite.PageTable.Layout.{
  PagePermissions, MemType, device, normal, PageDesc, page_desc, page_value,
}
use kernelite.PageTable.Fields.{FitsPage, page_desc-page_value}
use kernelite.PageTable.Map.{entry_at, descend, map_page, write_leaf, leaf_desc, table_index}
use kernelite.PageTable.Walk.{walk_index, walk_index-lt, leaf_at, leaf_of, table_at, translate}
use kernelite.PageTable.Walk.Tree.{Frames, Tree}
use kernelite.PageTable.Walk.Link.{IsBase}
use kernelite.PageTable.Walk.Route.{table_at-level, table_at_unique}
use kernelite.PageTable.Leaf.{Tree-written, table_at-written, leaf_of-written, table_at-same_page}
use kernelite.PageTable.Walk.Descend.{Reached, descend-Reached}

-- The indices of `map_page` are those of the walk.
table_index-walk_index :
    (v : ℕ)
    → (table_index 39 v ≡ walk_index 0 v)
      × (table_index 30 v ≡ walk_index 1 v)
      × (table_index 21 v ≡ walk_index 2 v)
      × (table_index 12 v ≡ walk_index 3 v)
unfolding table_index walk_index
table_index-walk_index v = (
  bit_and_mask 9 (v >>> 39),
  bit_and_mask 9 (v >>> 30),
  bit_and_mask 9 (v >>> 21),
  bit_and_mask 9 (v >>> 12),
)

leaf_desc-FitsPage :
    (p : ℕ) (perms : PagePermissions) (mt : MemType) → FitsPage (leaf_desc p perms mt)
unfolding leaf_desc page_desc
leaf_desc-FitsPage p perms device =
    ground (arith, bit_and_mask 36 (p >>> 12), bit_and_mask 2 (p >>> 48))
leaf_desc-FitsPage p perms normal =
    ground (arith, bit_and_mask 36 (p >>> 12), bit_and_mask 2 (p >>> 48))

-- Two addresses in one page of the 48-bit address space.
abbrev pub SamePage : ℕ → ℕ → Type 0
SamePage v w = v / 2 ^ 12 % 2 ^ 36 ≡ w / 2 ^ 12 % 2 ^ 36

abbrev pub same_page? : ℕ → ℕ → Bool
same_page? v w = v / 2 ^ 12 % 2 ^ 36 == w / 2 ^ 12 % 2 ^ 36

same_page : (v w : ℕ) → ((j : ℕ) → j < 4 → walk_index j v ≡ walk_index j w) → SamePage v w
unfolding walk_index
same_page v w h =
    omega (arith, h 0 (omega arith), h 1 (omega arith), h 2 (omega arith), h 3 (omega arith))

same_index : (v w : ℕ) → SamePage v w → (j : ℕ) → j < 4 → walk_index j v ≡ walk_index j w
unfolding walk_index
same_index v w h zero l = omega arith
same_index v w h (suc zero) l = omega arith
same_index v w h (suc (suc zero)) l = omega arith
same_index v w h (suc (suc (suc j))) l = omega arith

leaf_desc-valid :
    (p : ℕ) (perms : PagePermissions) (mt : MemType)
    → ((leaf_desc p perms mt).valid ≡ (if perms.read then 1 else 0))
      × ((leaf_desc p perms mt).is_page ≡ 1)
      × ((leaf_desc p perms mt).access_flag ≡ 1)
unfolding leaf_desc page_desc
leaf_desc-valid p perms device = ground arith
leaf_desc-valid p perms normal = ground arith

-- The leaf that `map_page` writes, read back as a walk reads it.
leaf_at-leaf_desc :
    (p : ℕ) (perms : PagePermissions) (mt : MemType)
    → leaf_at (page_value (leaf_desc p perms mt))
      ≡ (if perms.read then some (leaf_desc p perms mt) else none)
unfolding leaf_at
leaf_at-leaf_desc p perms mt =
    rw (page_desc-page_value (leaf_desc p perms mt) (leaf_desc-FitsPage p perms mt))
      (ground (arith, leaf_desc-valid p perms mt))

leaf_desc-frame :
    (p : ℕ) (perms : PagePermissions) (mt : MemType)
    → p % 4096 ≡ 0
    → p < 2 ^ 48
    → let d = leaf_desc p perms mt in (d.frame_addr_47_12 * 2 ^ 12 ≡ p) × (d.frame_addr_49_48 ≡ 0)
unfolding leaf_desc page_desc
leaf_desc-frame p perms device a h =
    ground (arith, bit_and_mask 36 (p >>> 12), bit_and_mask 2 (p >>> 48))
leaf_desc-frame p perms normal a h =
    ground (arith, bit_and_mask 36 (p >>> 12), bit_and_mask 2 (p >>> 48))

leaf_desc-access :
    (p : ℕ) (perms : PagePermissions) (mt : MemType)
    → let d = leaf_desc p perms mt in
      (d.xn ≡ (if perms.execute then 0 else 1))
      × (d.pxn ≡ (if perms.execute then 0 else 1))
      × (d.ap ≡ (
          if perms.read
          then (if perms.write then 0 else 2) + (if perms.user_accessible then 1 else 0)
          else 0))
      × (d.attr_indx ≡ (elim mt [ device ↦ 0 | normal ↦ 1 ]))
      × (d.sh ≡ (elim mt [ device ↦ 0 | normal ↦ 3 ]))
unfolding leaf_desc page_desc
leaf_desc-access p perms device = ground arith
leaf_desc-access p perms normal = ground arith

-- The word of the leaf, bit by bit as the architecture lays a page descriptor out, for an aligned physical address
-- below 2^48: bit 0 (valid) is set if the page is readable, bit 1 (page) and bit 10 (access flag) are set; bits 47 to
-- 12 are those of the physical address; bits 54 and 53 (XN and PXN) are set where execution was not asked for; bit 7 of a
-- readable page is set where it is not writable and bit 6 where user code may access it; and the memory type
-- selects the attribute (bits 4 to 2) and the shareability (bits 9 and 8).
pub leaf_desc_lem :
    (p : ℕ) (perms : PagePermissions) (mt : MemType)
    → p % 4096 ≡ 0
    → p < 2 ^ 48
    → let w = page_value (leaf_desc p perms mt) in
      (w % 2 ≡ (if perms.read then 1 else 0))
      × (w / 2 % 2 ≡ 1)
      × (w / 2 ^ 10 % 2 ≡ 1)
      × (w / 2 ^ 12 % 2 ^ 36 * 2 ^ 12 ≡ p)
      × (w / 2 ^ 54 % 2 ≡ (if perms.execute then 0 else 1))
      × (w / 2 ^ 53 % 2 ≡ (if perms.execute then 0 else 1))
      × (w / 2 ^ 6 % 4 ≡ (
          if perms.read
          then (if perms.write then 0 else 2) + (if perms.user_accessible then 1 else 0)
          else 0))
      × (w / 2 ^ 2 % 8 ≡ (elim mt [ device ↦ 0 | normal ↦ 1 ]))
      × (w / 2 ^ 8 % 4 ≡ (elim mt [ device ↦ 0 | normal ↦ 3 ]))
unfolding page_desc
leaf_desc_lem p perms mt a h =
    let d = leaf_desc p perms mt in
    let e : page_desc (page_value d) ≡ d = page_desc-page_value d (leaf_desc-FitsPage p perms mt) in
    let (valid, page, flag) = leaf_desc-valid p perms mt in
    let (frame, _) = leaf_desc-frame p perms mt a h in
    let (xn, pxn, ap', attr, sh) = leaf_desc-access p perms mt in
    (
      omega arith ∙ ap (λ (x : PageDesc). x.valid) e ∙ valid,
      ap (λ (x : PageDesc). x.is_page) e ∙ page,
      ap (λ (x : PageDesc). x.access_flag) e ∙ flag,
      ap (λ (x : PageDesc). x.frame_addr_47_12 * 2 ^ 12) e ∙ frame,
      ap (λ (x : PageDesc). x.xn) e ∙ xn,
      ap (λ (x : PageDesc). x.pxn) e ∙ pxn,
      ap (λ (x : PageDesc). x.ap) e ∙ ap',
      ap (λ (x : PageDesc). x.attr_indx) e ∙ attr,
      ap (λ (x : PageDesc). x.sh) e ∙ sh,
    )

module _ (kernel_base_va : ℕ) (base : IsBase kernel_base_va) {S : Type 0} (F : Frames S)
    (root : ℕ) where
  -- What `map_page` leaves: a tree of tables in which the page of `v`, if the call succeeded, is
  -- translated by `leaf`, and every other address, or every address if it failed, as before.
  pub record Mapped (before : Mem) (v : ℕ) (leaf : Option PageDesc) (r : Bool × (S × Mem))
      : Type 0 where
    pub tree : Tree kernel_base_va (F.in_use r.1.0) root r.1.1
    pub translated :
        (w : ℕ)
        → translate kernel_base_va root w r.1.1
          ≡ (if r.0 && same_page? w v then leaf else translate kernel_base_va root w before)

  Mapped-failed :
      (before : Mem) (k v : ℕ) (leaf : Option PageDesc) (t : ℕ) (st : S × Mem)
      → Reached kernel_base_va base F root before k v (t, st)
      → Mapped before v leaf (false, st)
  Mapped-failed before k v leaf t (s, tm) R = record { tree = R.tree; translated = R.same }

  Mapped-written :
      (before : Mem) (v x t : ℕ) (s : S) (tm : Mem)
      → Reached kernel_base_va base F root before 3 v (t, (s, tm))
      → t ≢ 0
      → Mapped before v (leaf_at x) (true, (s, store tm (entry_at t (walk_index 3 v)) x))
  unfolding translate
  Mapped-written before v x t s tm R real = record {
    tree = Tree-written kernel_base_va root tm (F.in_use s) R.tree t third i index x;
    translated = λ w. elim (Bool-cases (same_page? w v)) [
      | inl yes' ↦ rw yes' (inside w ((==_iff _ _).0 yes'))
      | inr no' ↦
          rw no'
            (outside w (λ e. let bad : same_page? w v ≡ true = (==_iff _ _).1 e in cc (bad, no')))
    ];
  }
    where
      i : ℕ
      i = walk_index 3 v

      index : i < 512
      index = walk_index-lt 3 v

      here : table_at kernel_base_va root v 3 tm ≡ some t
      here = R.there real

      third : R.tree.level t ≡ 3
      third = table_at-level kernel_base_va (F.in_use s) root tm R.tree 3 v t (omega arith) here

      tm' : Mem
      tm' = store tm (entry_at t i) x

      at :
          (w : ℕ)
          → 3 ≤ 3
          → table_at kernel_base_va root w 3 tm' ≡ table_at kernel_base_va root w 3 tm
      at w h = table_at-written kernel_base_va root tm (F.in_use s) R.tree t third i index x 3 w h

      inside : (w : ℕ) → SamePage w v → translate kernel_base_va root w tm' ≡ leaf_at x
      inside w same =
          ap (leaf_of kernel_base_va w tm') (
            at w (omega arith)
            ∙ table_at-same_page kernel_base_va root tm 3 w v
                (λ j l. same_index w v same j (omega arith))
            ∙ here)
          ∙ rw (same_index w v same 3 (omega arith)) (ap leaf_at (store_self tm (entry_at t i) x))

      apart :
          (w : ℕ)
          → table_at kernel_base_va root w 3 tm ≡ some t
          → walk_index 3 w ≡ i
          → (j : ℕ) → j < 4
          → walk_index j w ≡ walk_index j v
      apart w e l j h = elim (dec_lt j 3) [
        | yes h' ↦
            table_at_unique kernel_base_va (F.in_use s) root tm R.tree 3 w v t (omega arith) e here
              j h'
        | no n ↦ let k : j ≡ 3 = omega arith in rw k l
      ]

      outside :
          (w : ℕ)
          → ¬ SamePage w v
          → translate kernel_base_va root w tm' ≡ translate kernel_base_va root w before
      outside w ne =
          ap (leaf_of kernel_base_va w tm') (at w (omega arith))
          ∙ leaf_of-written kernel_base_va root tm (F.in_use s) R.tree t third i index x w _ refl
              (λ e l. ne (same_page w v (apart w e l)))
          ∙ R.same w

  write_leaf-Mapped :
      (before : Mem) (v x : ℕ) (r : ℕ × (S × Mem))
      → Reached kernel_base_va base F root before 3 v r
      → Mapped before v (leaf_at x) (write_leaf kernel_base_va F.page_alloc (walk_index 3 v) x r)
  unfolding write_leaf
  write_leaf-Mapped before v x (t, (s, tm)) R = elim (ℕ_discrete t 0) [
    | yes null ↦ rw (ap (λ (y : ℕ). y == 0) null) (Mapped-failed before 3 v (leaf_at x) t (s, tm) R)
    | no real ↦ rw (==_ne real) (Mapped-written before v x t s tm R real)
  ]

  -- `map_page` on a tree of tables leaves a tree of tables. If it succeeds, the hardware translates
  -- each address of the page of `v` by the leaf for the physical page, or not at all where reading
  -- is not allowed, and every address of another page as before; if it fails, it translates every
  -- address as before, though it may have linked new, empty tables.
  pub map_page-Mapped :
      (v p : ℕ) (perms : PagePermissions) (mt : MemType) (s : S) (tm : Mem)
      → Tree kernel_base_va (F.in_use s) root tm
      → Mapped tm v
          (if perms.read then some (leaf_desc p perms mt) else none)
          (map_page kernel_base_va F.page_alloc root v p perms mt (s, tm))
  unfolding map_page
  map_page-Mapped v p perms mt s tm T =
      elim (Bool-cases ((bit_and p 0xFFF != 0) || (bit_and v 0xFFF != 0))) [
        | inl unaligned ↦ rw unaligned (Mapped-failed tm 0 v _ root (s, tm) start)
        | inr aligned ↦
            let i = table_index-walk_index v in
            rw (aligned, i.0, i.1, i.2, i.3, ← leaf_at-leaf_desc p perms mt)
              (write_leaf-Mapped tm v (page_value (leaf_desc p perms mt)) _ third)
      ]
    where
      start : Reached kernel_base_va base F root tm 0 v (root, (s, tm))
      start = record { tree = T; same = λ w. refl; there = λ h. unfold table_at in refl }

      first :
          Reached kernel_base_va base F root tm 1 v
            (descend kernel_base_va F.page_alloc perms (walk_index 0 v) (root, (s, tm)))
      first = descend-Reached kernel_base_va base F root tm 0 v perms _ (omega arith) start

      second : Reached kernel_base_va base F root tm 2 v (
          descend kernel_base_va F.page_alloc perms
            (walk_index 1 v)
            (descend kernel_base_va F.page_alloc perms (walk_index 0 v) (root, (s, tm))))
      second = descend-Reached kernel_base_va base F root tm 1 v perms _ (omega arith) first

      third : Reached kernel_base_va base F root tm 3 v (
          descend kernel_base_va F.page_alloc perms (walk_index 2 v) (
            descend kernel_base_va F.page_alloc perms
              (walk_index 1 v)
              (descend kernel_base_va F.page_alloc perms (walk_index 0 v) (root, (s, tm)))))
      third = descend-Reached kernel_base_va base F root tm 2 v perms _ (omega arith) second
