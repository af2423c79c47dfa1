-- ===== src/PageTable/Walk/Link.antt =====
-- Linking a fresh, empty table below an invalid entry keeps the tables a tree and the walk as it was.
use kernelite.Base.{
  ℕ, zero, suc, ◌+◌, ◌%◌, ◌^◌, ◌≤◌, ◌<◌, ◌≡◌, ◌≢◌, inl, inr, refl, ap, ◌∙◌, sym, arith,
}
use kernelite.Base.{◌==◌, if◌then◌else◌, Mem, store, store_self, store_ne, Option, none, some}
use kernelite.Base.{==_ne, ==_self}
use mathlib.Core.Path.{subst}
use native.Mathlib.Decide.{ℕ_discrete}
use kernelite.MemLayout.{pa_to_va}
use kernelite.MemLayout.RoundTrip.{translations_inverse}
use kernelite.PageTable.Layout.{table_desc, page_desc, ptrs_per_table}
use kernelite.PageTable.Map.{entry_at, next_table, page_table_init, next_level_value}
use kernelite.PageTable.Address.{next_level_value_lem}
use kernelite.PageTable.Walk.{
  walk_index, walk_index-lt, walk_step-invalid, walk_step-valid, walk_step-same, valid-cases,
  walk_step, table_at, translate, leaf_of, leaf_at,
}
use kernelite.PageTable.Walk.Tree.{Tree, zero_entries-at, zero_entries-outside}

-- `tm` with the table at physical address `p` emptied and linked at entry `e`.
abbrev pub linked : ℕ → ℕ → ℕ → Mem → Mem
linked kernel_base_va p e tm =
    store (page_table_init (pa_to_va kernel_base_va p) tm) e (next_level_value p)

-- The kernel's base is page-aligned, and 48-bit addresses do not wrap above it.
pub record IsBase (kernel_base_va : ℕ) : Type 0 where
  pub aligned : kernel_base_va % 4096 ≡ 0
  pub room : kernel_base_va + 2 ^ 48 ≤ 2 ^ 64

-- Entries of aligned tables are apart, unless they are the same entry of the same table.
pub entry_at-injective :
    (t u i j : ℕ)
    → t % 4096 ≡ 0
    → u % 4096 ≡ 0
    → i < 512
    → j < 512
    → entry_at t i ≡ entry_at u j
    → (t ≡ u) × (i ≡ j)
entry_at-injective t u i j h k p q e = omega arith

module _ (kernel_base_va : ℕ) (base : IsBase kernel_base_va) (in_use : ℕ → Type 0) (root : ℕ)
    (tm : Mem) (T : Tree kernel_base_va in_use root tm) (p : ℕ) (p_aligned : p % 4096 ≡ 0)
    (p_small : p < 2 ^ 48) (fresh : ¬ in_use p) (t i : ℕ) (inner : T.level t < 3) (index : i < 512)
    (invalid : (table_desc (tm (entry_at t i))).valid ≡ 0) where
  abbrev pub new : ℕ
  new = pa_to_va kernel_base_va p

  abbrev pub tm' : Mem
  tm' = linked kernel_base_va p (entry_at t i) tm

  new-aligned : new % 4096 ≡ 0
  unfolding pa_to_va
  new-aligned = omega (arith, base.aligned, base.room)

  new-no_table : ¬ (T.level new < 4)
  new-no_table h = fresh (
      subst in_use
        (translations_inverse kernel_base_va p (omega (arith, base.room)) (omega arith)).0
        (T.used new h))

  ne-new : (u : ℕ) → T.level u < 4 → u ≢ new
  ne-new u h e = new-no_table (subst (λ x. T.level x < 4) e h)

  pub at_link : tm' (entry_at t i) ≡ next_level_value p
  at_link = store_self (page_table_init new tm) (entry_at t i) (next_level_value p)

  pub at_new : (j : ℕ) → j < 512 → tm' (entry_at new j) ≡ 0
  unfolding page_table_init
  at_new j h =
      store_ne (page_table_init new tm) (entry_at t i) (next_level_value p) (entry_at new j) (λ e.
        ne-new t (omega arith)
          (sym (entry_at-injective new t j i new-aligned (T.page t (omega arith)) h index e).0))
      ∙ zero_entries-at new ptrs_per_table 0 tm j (omega arith) (omega arith)

  pub at_old :
      (u j : ℕ)
      → T.level u < 4
      → j < 512
      → entry_at u j ≢ entry_at t i
      → tm' (entry_at u j) ≡ tm (entry_at u j)
  unfolding page_table_init
  at_old u j l h ne =
      store_ne (page_table_init new tm) (entry_at t i) (next_level_value p) (entry_at u j) ne
      ∙ zero_entries-outside new ptrs_per_table 0 tm (entry_at u j)
          (omega (arith, ne-new u l, new-aligned, T.page u l))

  -- The link, read as a descriptor.
  pub link_lem :
      ((table_desc (tm' (entry_at t i))).valid ≡ 1)
      × ((table_desc (tm' (entry_at t i))).is_table ≡ 1)
      × ((table_desc (tm' (entry_at t i))).ap_table ≡ 0)
      × (next_table kernel_base_va (entry_at t i) tm' ≡ new)
  unfolding next_table
  link_lem =
      let l = next_level_value_lem p (omega arith) p_aligned in
      rw at_link (l.0, l.1, l.2, ap (pa_to_va kernel_base_va) l.3)

  -- The levels and parents, with the new table in its place.
  new_level : ℕ → ℕ
  new_level x = if x == new then suc (T.level t) else T.level x

  new_level-ne : (x : ℕ) → x ≢ new → new_level x ≡ T.level x
  unfolding new_level
  new_level-ne x ne = rw (==_ne ne) refl

  new_slot : ℕ → ℕ
  new_slot x = if x == new then entry_at t i else T.slot x

  -- What holds of a valid entry of an inner table, with the new levels and parents.
  record Linked (u j : ℕ) : Type 0 where
    is_table : (table_desc (tm' (entry_at u j))).is_table ≡ 1
    below : new_level (next_table kernel_base_va (entry_at u j) tm') ≡ suc (new_level u)
    parent : new_slot (next_table kernel_base_va (entry_at u j) tm') ≡ entry_at u j

  Linked-old :
      (u j : ℕ)
      → T.level u < 3
      → j < 512
      → entry_at u j ≢ entry_at t i
      → (table_desc (tm' (entry_at u j))).valid ≢ 0
      → Linked u j
  unfolding new_level new_slot next_table
  Linked-old u j l h ne v =
      let same = at_old u j (omega arith) h ne in
      let v' = subst (λ x. (table_desc x).valid ≢ 0) same v in
      let target = T.below u j l h v' in
      let old : next_table kernel_base_va (entry_at u j) tm ≢ new = ne-new _ (omega arith) in
      record {
        is_table = rw same (T.is_table u j l h v');
        below = rw (same, ==_ne old, ==_ne (ne-new u (omega arith))) target;
        parent = rw (same, ==_ne old) (T.parent u j l h v');
      }

  Linked-self : Linked t i
  unfolding new_level new_slot
  Linked-self = record {
    is_table = link_lem.1;
    below = rw (link_lem.3, ==_self new, ==_ne (ne-new t (omega arith))) refl;
    parent = rw (link_lem.3, ==_self new) refl;
  }

  Linked-all :
      (u j : ℕ)
      → new_level u < 3
      → j < 512
      → (table_desc (tm' (entry_at u j))).valid ≢ 0
      → Linked u j
  Linked-all u j l h v = elim (ℕ_discrete u new) [
    | yes e ↦ absurd (
        v (
          subst (λ x. (table_desc (tm' (entry_at x j))).valid ≡ 0) (sym e)
            (rw (at_new j h) (unfold table_desc in refl))))
    | no ne ↦
        let l' : T.level u < 3 = subst (λ x. x < 3) (new_level-ne u ne) l in
        elim (ℕ_discrete (entry_at u j) (entry_at t i)) [
          | yes e ↦
              let s =
                entry_at-injective u t j i (T.page u (omega arith)) (T.page t (omega arith)) h index
                  e in
              subst (λ x. Linked x j) (sym s.0) (subst (Linked t) (sym s.1) Linked-self)
          | no apart ↦ Linked-old u j l' h apart v
        ]
  ]

  -- The tables still form a tree.
  pub Tree-linked :
      (in_use' : ℕ → Type 0)
      → ((q : ℕ) → in_use q → in_use' q)
      → in_use' p
      → Tree kernel_base_va in_use' root tm'
  Tree-linked in_use' kept granted = record {
    level = new_level;
    slot = new_slot;
    top = new_level-ne root (ne-new root (omega (arith, T.top))) ∙ T.top;
    page = λ x h. elim (ℕ_discrete x new) [
      | yes e ↦ rw e new-aligned
      | no ne ↦ T.page x (subst (λ y. y < 4) (new_level-ne x ne) h)
    ];
    used = λ x h. elim (ℕ_discrete x new) [
      | yes e ↦
          rw (e, (translations_inverse kernel_base_va p (omega (arith, base.room)) (omega arith)).0)
            granted
      | no ne ↦ kept _ (T.used x (subst (λ y. y < 4) (new_level-ne x ne) h))
    ];
    is_table = λ u j l h v. (Linked-all u j l h v).is_table;
    below = λ u j l h v. (Linked-all u j l h v).below;
    parent = λ u j l h v. (Linked-all u j l h v).parent;
  }

  -- The old tables keep their levels.
  pub level-linked :
      (in_use' : ℕ → Type 0) (kept : (q : ℕ) → in_use q → in_use' q) (granted : in_use' p)
      → ((x : ℕ) → T.level x < 4 → (Tree-linked in_use' kept granted).level x ≡ T.level x)
        × ((Tree-linked in_use' kept granted).level new ≡ suc (T.level t))
  unfolding Tree-linked new_level
  level-linked in_use' kept granted = (λ x h. new_level-ne x (ne-new x h), rw (==_self new) refl)

  -- A walk before the link, beside the same walk after it: both are at one table, or the second has
  -- come to the new table, where there is nothing.
  abbrev Beside : ℕ → Option ℕ → Option ℕ → Type 0
  Beside k none none = Unit
  Beside k none (some u) = u ≡ new
  Beside k (some u) none = ⊥
  Beside k (some u) (some u') = (u' ≡ u) × (T.level u ≡ k)

  walk_step-new : (k v : ℕ) → walk_step kernel_base_va k v tm' (some new) ≡ none
  unfolding walk_step table_desc
  walk_step-new k v = rw (at_new (walk_index k v) (walk_index-lt k v)) refl

  -- A step from an old table, by an entry that the link leaves alone.
  Beside-step_apart :
      (v u : ℕ)
      → T.level u < 3
      → entry_at u (walk_index (T.level u) v) ≢ entry_at t i
      → Beside
          (suc (T.level u))
          (walk_step kernel_base_va (T.level u) v tm (some u))
          (walk_step kernel_base_va (T.level u) v tm' (some u))
  Beside-step_apart v u l ne =
      let j = walk_index (T.level u) v in
      let lt = walk_index-lt (T.level u) v in
      let same = at_old u j (omega arith) lt ne in
      elim (valid-cases (tm (entry_at u j))) [
        | inl no_table ↦
            rw
              (
                walk_step-same kernel_base_va (T.level u) v u tm' tm same,
                walk_step-invalid kernel_base_va (T.level u) v u tm no_table,
              )
              tt
        | inr table ↦
            let valid : (table_desc (tm (entry_at u j))).valid ≢ 0 = omega arith in
            rw
              (
                walk_step-same kernel_base_va (T.level u) v u tm' tm same,
                walk_step-valid kernel_base_va (T.level u) v u tm table (T.is_table u j l lt valid),
              )
              (refl, T.below u j l lt valid)
      ]

  -- A step from the table whose entry becomes the link.
  Beside-step_link :
      (v : ℕ)
      → i ≡ walk_index (T.level t) v
      → Beside
          (suc (T.level t))
          (walk_step kernel_base_va (T.level t) v tm (some t))
          (walk_step kernel_base_va (T.level t) v tm' (some t))
  Beside-step_link v e =
      rw
        (
          walk_step-invalid kernel_base_va (T.level t) v t tm (rw (← e) invalid),
          walk_step-valid kernel_base_va (T.level t) v t tm' (rw (← e) link_lem.0)
              (rw (← e) link_lem.1),
          ← e,
        )
        link_lem.3

  Beside-step :
      (k v : ℕ) (a b : Option ℕ)
      → k < 3
      → Beside k a b
      → Beside (suc k) (walk_step kernel_base_va k v tm a) (walk_step kernel_base_va k v tm' b)
  Beside-step k v none none h s = unfold walk_step in tt
  Beside-step k v none (some u) h s = rw (s, walk_step-new k v) (unfold walk_step in tt)
  Beside-step k v (some u) none h s = absurd s
  Beside-step k v (some u) (some u') h s =
      rw (s.0, ← s.1)
        (elim (ℕ_discrete (entry_at u (walk_index (T.level u) v)) (entry_at t i)) [
          | yes e ↦
              let o =
                entry_at-injective u t _ i (T.page u (omega arith)) (T.page t (omega arith))
                  (walk_index-lt (T.level u) v) index e in
              subst
                (λ x.
                  Beside (suc (T.level x)) (walk_step kernel_base_va (T.level x) v tm (some x))
                    (walk_step kernel_base_va (T.level x) v tm' (some x)))
                (sym o.0) (Beside-step_link v (sym o.1 ∙ ap (λ x. walk_index (T.level x) v) o.0))
          | no ne ↦ Beside-step_apart v u (omega arith) ne
        ])

  Beside-table_at :
      (k v : ℕ)
      → k ≤ 3
      → Beside k (table_at kernel_base_va root v k tm) (table_at kernel_base_va root v k tm')
  unfolding table_at
  Beside-table_at zero v h = (refl, T.top)
  Beside-table_at (suc k) v h = Beside-step k v _ _ h (Beside-table_at k v (omega arith))

  Beside-leaf_of :
      (v : ℕ) (a b : Option ℕ)
      → Beside 3 a b
      → leaf_of kernel_base_va v tm' b ≡ leaf_of kernel_base_va v tm a
  unfolding leaf_of leaf_at page_desc
  Beside-leaf_of v none none s = refl
  Beside-leaf_of v none (some u) s = rw (s, at_new (walk_index 3 v) (walk_index-lt 3 v)) refl
  Beside-leaf_of v (some u) none s = absurd s
  Beside-leaf_of v (some u) (some u') s = rw s.0 (
      ap leaf_at (
        at_old u (walk_index 3 v) (omega (arith, s.1)) (walk_index-lt 3 v) (λ e. omega (
          arith,
          s.1,
          ap T.level
              (entry_at-injective u t _ i (T.page u (omega (arith, s.1))) (T.page t (omega arith))
                (walk_index-lt 3 v) index e).0,
        ))))

  -- No address is translated otherwise than before.
  pub translate-linked :
      (v : ℕ) → translate kernel_base_va root v tm' ≡ translate kernel_base_va root v tm
  unfolding translate
  translate-linked v = Beside-leaf_of v _ _ (Beside-table_at 3 v (omega arith))

  -- A table that is reached before the link is reached after it.
  pub table_at-linked :
      (k v u : ℕ)
      → k ≤ 3
      → table_at kernel_base_va root v k tm ≡ some u
      → table_at kernel_base_va root v k tm' ≡ some u
  table_at-linked k v u h e =
      beside (table_at kernel_base_va root v k tm') (rw e at (Beside-table_at k v h))
    where
      beside : (b : Option ℕ) → Beside k (some u) b → b ≡ some u
      beside none s = absurd s
      beside (some u') s = ap some s.0
