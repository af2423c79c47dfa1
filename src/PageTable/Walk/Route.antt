-- ===== src/PageTable/Walk/Route.antt =====
-- The tables on the way to an address: their levels, and that a table lies on one way only.
use kernelite.Base.{ℕ, zero, suc, ◌≤◌, ◌<◌, ◌≡◌, ◌≢◌, inl, inr, ap, ◌∙◌, sym, arith}
use kernelite.Base.{Mem, none, some, Option-cases}
use kernelite.PageTable.Layout.{table_desc}
use kernelite.PageTable.Map.{entry_at, next_table}
use kernelite.PageTable.Walk.{
  walk_index, walk_index-lt, walk_step, walk_step-invalid, walk_step-next, valid-cases, table_at,
}
use kernelite.PageTable.Walk.Tree.{Tree}
use kernelite.PageTable.Walk.Link.{entry_at-injective}
use native.Mathlib.Decide.{dec_lt}

module _ (kernel_base_va : ℕ) (in_use : ℕ → Type 0) (root : ℕ) (tm : Mem)
    (T : Tree kernel_base_va in_use root tm) where
  -- The table above, and the entry by which the walk came down.
  record Above (k v u : ℕ) : Type 0 where
    table : ℕ
    here : table_at kernel_base_va root v k tm ≡ some table
    valid : (table_desc (tm (entry_at table (walk_index k v)))).valid ≢ 0
    down : next_table kernel_base_va (entry_at table (walk_index k v)) tm ≡ u

  above : (k v u : ℕ) → table_at kernel_base_va root v (suc k) tm ≡ some u → Above k v u
  unfolding table_at walk_step
  above k v u e = elim (Option-cases (table_at kernel_base_va root v k tm)) [
    | inl gone ↦ let stop : walk_step kernel_base_va k v tm none ≡ some u = rw gone at e in cc stop
    | inr (t, at) ↦
        let step : walk_step kernel_base_va k v tm (some t) ≡ some u = rw at at e in
        record {
          table = t;
          here = at;
          valid =
              λ bad. let stop = walk_step-invalid kernel_base_va k v t tm bad in cc (stop, step);
          down = elim (valid-cases (tm (entry_at t (walk_index k v)))) [
            | inl bad ↦
                let stop = walk_step-invalid kernel_base_va k v t tm bad in
                let clash : none ≡ some u = sym stop ∙ step in absurd (cc clash)
            | inr h ↦ walk_step-next kernel_base_va k v t u tm h step
          ];
        }
  ]

  pub table_at-level :
      (k v u : ℕ) → k ≤ 3 → table_at kernel_base_va root v k tm ≡ some u → T.level u ≡ k
  unfolding table_at
  table_at-level zero v u h e = let same : root ≡ u = cc in ap T.level (sym same) ∙ T.top
  table_at-level (suc k) v u h e =
      let a = above k v u e in
      let l = table_at-level k v a.table (omega arith) a.here in
      ap T.level (sym a.down)
      ∙ T.below a.table (walk_index k v) (omega arith) (walk_index-lt k v) a.valid
      ∙ ap suc l

  -- Two addresses that come to one table have the same indices above it.
  pub table_at_unique :
      (k v w u : ℕ)
      → k ≤ 3
      → table_at kernel_base_va root v k tm ≡ some u
      → table_at kernel_base_va root w k tm ≡ some u
      → (j : ℕ) → j < k
      → walk_index j v ≡ walk_index j w
  table_at_unique zero v w u h e f j l = absurd (omega arith)
  table_at_unique (suc k) v w u h e f j l =
      let a = above k v u e in
      let b = above k w u f in
      let la = table_at-level k v a.table (omega arith) a.here in
      let lb = table_at-level k w b.table (omega arith) b.here in
      let slots =
        sym (T.parent a.table (walk_index k v) (omega arith) (walk_index-lt k v) a.valid)
        ∙ ap T.slot (a.down ∙ sym b.down)
        ∙ T.parent b.table (walk_index k w) (omega arith) (walk_index-lt k w) b.valid in
      let same =
        entry_at-injective a.table b.table (walk_index k v) (walk_index k w)
          (T.page a.table (omega arith)) (T.page b.table (omega arith)) (walk_index-lt k v)
          (walk_index-lt k w) slots in
      elim (dec_lt j k) [
        | yes l' ↦
            table_at_unique k v w a.table (omega arith) a.here (b.here ∙ ap some (sym same.0)) j l'
        | no n ↦ let at : j ≡ k = omega arith in rw at same.1
      ]
