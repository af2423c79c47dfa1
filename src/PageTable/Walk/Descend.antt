-- ===== src/PageTable/Walk/Descend.antt =====
-- One step of `map_page` down the tables, with or without a new table.
use kernelite.Base.{ℕ, suc, ◌<◌, ◌≡◌, ◌≢◌, inl, inr, refl, ap, ◌∙◌, arith}
use kernelite.Base.{Mem, some, Bool-cases, ◌==◌, ==_ne}
use native.Mathlib.Decide.{ℕ_discrete}
use kernelite.MemLayout.{pa_to_va}
use kernelite.MemLayout.RoundTrip.{translations_inverse}
use kernelite.PageTable.Layout.{PagePermissions, table_desc}
use kernelite.PageTable.Map.{
  entry_at, next_table, descend, get_next_level_table, allocate_new_table, check_table_permissions,
}
use kernelite.PageTable.Walk.{
  walk_index, walk_index-lt, walk_step-valid, valid-cases, table_at, translate,
}
use kernelite.PageTable.Walk.Tree.{Frames, Tree}
use kernelite.PageTable.Walk.Link.{
  IsBase, linked, Tree-linked, translate-linked, table_at-linked, link_lem,
}
use kernelite.PageTable.Walk.Route.{table_at-level}

module _ (kernel_base_va : ℕ) (base : IsBase kernel_base_va) {S : Type 0} (F : Frames S)
    (root : ℕ) where
  -- On the way to `v`, at level `k`: the tables form a tree that translates as `before`, and the
  -- pointer, unless it is null, is the table that the walk comes to.
  pub record Reached (before : Mem) (k v : ℕ) (r : ℕ × (S × Mem)) : Type 0 where
    pub tree : Tree kernel_base_va (F.in_use r.1.0) root r.1.1
    pub same :
        (w : ℕ) → translate kernel_base_va root w r.1.1 ≡ translate kernel_base_va root w before
    pub there : r.0 ≢ 0 → table_at kernel_base_va root v k r.1.1 ≡ some r.0

  Tree-kept :
      (u u' : ℕ → Type 0) (tm : Mem)
      → ((q : ℕ) → u q → u' q)
      → Tree kernel_base_va u root tm
      → Tree kernel_base_va u' root tm
  Tree-kept u u' tm kept T = record {
    level = T.level;
    slot = T.slot;
    top = T.top;
    page = T.page;
    used = λ t h. kept _ (T.used t h);
    is_table = T.is_table;
    below = T.below;
    parent = T.parent;
  }

  -- A step that stops where it is.
  Reached-stopped :
      (before : Mem) (k v t : ℕ) (s : S) (tm : Mem)
      → Reached before k v (t, (s, tm))
      → Reached before (suc k) v (0, (s, tm))
  Reached-stopped before k v t s tm R = record {
    tree = R.tree;
    same = R.same;
    there = λ h. absurd (h refl);
  }

  module _ (before : Mem) (k v t : ℕ) (s : S) (tm : Mem) (low : k < 3)
      (R : Reached before k v (t, (s, tm))) (real : t ≢ 0) where
    abbrev entry : ℕ
    entry = entry_at t (walk_index k v)

    level : R.tree.level t ≡ k
    level =
        table_at-level kernel_base_va (F.in_use s) root tm R.tree k v t (omega arith) (R.there real)

    -- Down an entry that is valid already.
    Reached-down :
        (table_desc (tm entry)).valid ≡ 1
        → Reached before (suc k) v (next_table kernel_base_va entry tm, (s, tm))
    unfolding table_at
    Reached-down valid = record {
      tree = R.tree;
      same = R.same;
      there = λ h. rw (R.there real) (
          walk_step-valid kernel_base_va k v t tm valid (
            R.tree.is_table t (walk_index k v) (omega (arith, level)) (walk_index-lt k v)
              (omega arith)));
    }

    -- Down a new table.
    Reached-new :
        (table_desc (tm entry)).valid ≡ 0
        → (F.page_alloc s).0 ≢ 0
        → let tm' = linked kernel_base_va (F.page_alloc s).0 entry tm in
          Reached before (suc k) v (next_table kernel_base_va entry tm', ((F.page_alloc s).1, tm'))
    unfolding table_at
    Reached-new invalid got = record {
      tree =
          Tree-linked kernel_base_va base (F.in_use s) root tm R.tree p (F.aligned s) (F.small s)
            (F.fresh s got) t i inner index invalid (F.in_use (F.page_alloc s).1) (F.kept s)
            (F.granted s got);
      same = λ w.
          translate-linked kernel_base_va base (F.in_use s) root tm R.tree p (F.aligned s)
            (F.small s) (F.fresh s got) t i inner index invalid w
          ∙ R.same w;
      there = λ h.
          rw
            (table_at-linked kernel_base_va base (F.in_use s) root tm R.tree p (F.aligned s)
              (F.small s) (F.fresh s got) t i inner index invalid k v t (omega arith)
              (R.there real))
            (walk_step-valid kernel_base_va k v t (linked kernel_base_va p entry tm) link.0 link.1);
    }
      where
        p : ℕ
        p = (F.page_alloc s).0

        i : ℕ
        i = walk_index k v

        inner : R.tree.level t < 3
        inner = omega (arith, level)

        index : i < 512
        index = walk_index-lt k v

        link :
            let d = table_desc (linked kernel_base_va p entry tm entry) in
            (d.valid ≡ 1)
            × (d.is_table ≡ 1)
            × (d.ap_table ≡ 0)
            × (next_table kernel_base_va entry (linked kernel_base_va p entry tm)
                ≡ pa_to_va kernel_base_va p)
        link =
            link_lem kernel_base_va base (F.in_use s) root tm R.tree p (F.aligned s) (F.small s)
              (F.fresh s got) t i inner index invalid

    -- No memory for a new table.
    Reached-refused : Reached before (suc k) v (0, ((F.page_alloc s).1, tm))
    Reached-refused = record {
      tree = Tree-kept (F.in_use s) (F.in_use (F.page_alloc s).1) tm (F.kept s) R.tree;
      same = R.same;
      there = λ h. absurd (h refl);
    }

    Reached-get :
        (perms : PagePermissions)
        → Reached before
            (suc k)
            v
            (get_next_level_table kernel_base_va F.page_alloc entry perms (s, tm))
    unfolding get_next_level_table allocate_new_table
    Reached-get perms = elim (valid-cases (tm entry)) [
      | inl invalid ↦ elim (ℕ_discrete (F.page_alloc s).0 0) [
        | yes null ↦ rw (invalid, null) Reached-refused
        | no got ↦
            rw
              (
                invalid,
                ==_ne got,
                (translations_inverse kernel_base_va (F.page_alloc s).0 (omega (arith, base.room))
                    (omega (arith, F.small s))).0,
              )
              (Reached-new invalid got)
      ]
      | inr valid ↦ elim (Bool-cases (check_table_permissions (table_desc (tm entry)) perms)) [
        | inl allowed ↦ rw (allowed, valid) (Reached-down valid)
        | inr denied ↦ rw (denied, valid) (Reached-stopped before k v t s tm R)
      ]
    ]

  -- `descend` goes one level down the way to `v`, or stops.
  pub descend-Reached :
      (before : Mem) (k v : ℕ) (perms : PagePermissions) (r : ℕ × (S × Mem))
      → k < 3
      → Reached before k v r
      → Reached before (suc k) v (descend kernel_base_va F.page_alloc perms (walk_index k v) r)
  unfolding descend
  descend-Reached before k v perms (t, (s, tm)) h R = elim (ℕ_discrete t 0) [
    | yes null ↦ rw (ap (λ (x : ℕ). x == 0) null) (Reached-stopped before k v t s tm R)
    | no real ↦ rw (==_ne real) (Reached-get before k v t s tm h R real perms)
  ]
