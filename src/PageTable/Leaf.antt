-- ===== src/PageTable/Leaf.antt =====
-- Writing a leaf into a table of the last level.
use kernelite.Base.{ℕ, zero, suc, ◌≤◌, ◌<◌, ◌≡◌, ◌≢◌, refl, ap, ◌∙◌, arith}
use kernelite.Base.{Mem, Option, none, some, store, store_ne}
use kernelite.PageTable.Map.{entry_at, next_table}
use kernelite.PageTable.Walk.{
  walk_index, walk_index-lt, walk_step, walk_step-same, leaf_at, leaf_of, table_at,
}
use kernelite.PageTable.Walk.Tree.{Tree}
use kernelite.PageTable.Walk.Link.{entry_at-injective}
use kernelite.PageTable.Walk.Route.{table_at-level}

module _ (kernel_base_va : ℕ) (root : ℕ) (tm : Mem) where
  walk_step-index :
      (k v w : ℕ)
      → walk_index k v ≡ walk_index k w
      → (o : Option ℕ) → walk_step kernel_base_va k v tm o ≡ walk_step kernel_base_va k w tm o
  unfolding walk_step
  walk_step-index k v w h none = refl
  walk_step-index k v w h (some t) = rw h refl

  -- Addresses of one page take the same way.
  pub table_at-same_page :
      (k v w : ℕ)
      → ((j : ℕ) → j < k → walk_index j v ≡ walk_index j w)
      → table_at kernel_base_va root v k tm ≡ table_at kernel_base_va root w k tm
  unfolding table_at
  table_at-same_page zero v w h = refl
  table_at-same_page (suc k) v w h =
      walk_step-index k v w (h k (omega arith)) _
      ∙ ap (walk_step kernel_base_va k w tm) (table_at-same_page k v w (λ j l. h j (omega arith)))

  module _ (in_use : ℕ → Type 0) (T : Tree kernel_base_va in_use root tm) (t : ℕ)
      (third : T.level t ≡ 3) (i : ℕ) (index : i < 512) (x : ℕ) where
    abbrev pub written : Mem
    written = store tm (entry_at t i) x

    -- A leaf is no entry of an inner table.
    inner-written : (u j : ℕ) → T.level u < 3 → j < 512 → written (entry_at u j) ≡ tm (entry_at u j)
    inner-written u j l h = store_ne tm (entry_at t i) x (entry_at u j) (λ e. omega (
      arith,
      ap T.level
          (entry_at-injective u t j i (T.page u (omega arith)) (T.page t (omega arith)) h index
            e).0,
    ))

    pub Tree-written : Tree kernel_base_va in_use root written
    unfolding next_table
    Tree-written = record {
      level = T.level;
      slot = T.slot;
      top = T.top;
      page = T.page;
      used = T.used;
      is_table = λ u j l h. rw (inner-written u j l h) (T.is_table u j l h);
      below = λ u j l h. rw (inner-written u j l h) (T.below u j l h);
      parent = λ u j l h. rw (inner-written u j l h) (T.parent u j l h);
    }

    pub table_at-written :
        (k v : ℕ)
        → k ≤ 3
        → table_at kernel_base_va root v k written ≡ table_at kernel_base_va root v k tm
    unfolding table_at
    table_at-written zero v h = refl
    table_at-written (suc k) v h =
        rw (table_at-written k v (omega arith)) (step (table_at kernel_base_va root v k tm) refl)
      where
        step :
            (o : Option ℕ)
            → table_at kernel_base_va root v k tm ≡ o
            → walk_step kernel_base_va k v written o ≡ walk_step kernel_base_va k v tm o
        step none e = unfold walk_step in refl
        step (some u) e =
            let l = table_at-level kernel_base_va in_use root tm T k v u (omega arith) e in
            walk_step-same kernel_base_va k v u written tm
              (inner-written u (walk_index k v) (omega (arith, l)) (walk_index-lt k v))

    -- Another entry than the leaf is as it was.
    pub leaf_of-written :
        (w : ℕ) (o : Option ℕ)
        → table_at kernel_base_va root w 3 tm ≡ o
        → (o ≡ some t → walk_index 3 w ≢ i)
        → leaf_of kernel_base_va w written o ≡ leaf_of kernel_base_va w tm o
    unfolding leaf_of
    leaf_of-written w none e ne = refl
    leaf_of-written w (some u) e ne =
        let l = table_at-level kernel_base_va in_use root tm T 3 w u (omega arith) e in
        ap leaf_at (
          store_ne tm (entry_at t i) x (entry_at u (walk_index 3 w)) (λ s.
            let o =
              entry_at-injective u t (walk_index 3 w) i (T.page u (omega arith))
                (T.page t (omega arith)) (walk_index-lt 3 w) index s in
            ne (ap some o.0) o.1))
