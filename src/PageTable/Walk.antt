-- ===== src/PageTable/Walk.antt =====
-- What the hardware makes of the tables: a walk over four levels, from the root down. It is the
-- specification of `map_page`. Tables are read bit by bit, from the architecture; a leaf
-- is given as the descriptor of Layout.
pub mod Tree
pub mod Root
pub mod Link
pub mod Route
pub mod Descend
use kernelite.Base.{
  ℕ, zero, suc, ◌+◌, ◌*◌, ◌/◌, ◌%◌, ◌^◌, Bool, true, false, ◌&&◌, Option, none, some,
}
use kernelite.Base.{◌<◌, arith, ◌≡◌, ◌⊎◌, refl, ap, ◌∙◌}
use kernelite.Base.{◌==◌, if◌then◌else◌, Mem}
use kernelite.PageTable.Layout.{PageDesc, table_desc, page_desc}
use kernelite.MemLayout.{pa_to_va}
use kernelite.PageTable.Map.{entry_at, next_table}
use kernelite.PageTable.Address.{get_page_table_entry_address-sum}

-- Index of the table entry for `v` at each level.
unfoldable pub walk_index : ℕ → ℕ → ℕ
walk_index zero v = v / 2 ^ 39 % 512
walk_index (suc zero) v = v / 2 ^ 30 % 512
walk_index (suc (suc zero)) v = v / 2 ^ 21 % 512
walk_index (suc (suc (suc _))) v = v / 2 ^ 12 % 512

pub walk_index-lt : (level v : ℕ) → walk_index level v < 512
unfolding walk_index
walk_index-lt zero v = omega arith
walk_index-lt (suc zero) v = omega arith
walk_index-lt (suc (suc zero)) v = omega arith
walk_index-lt (suc (suc (suc _))) v = omega arith

pub valid-cases : (e : ℕ) → ((table_desc e).valid ≡ 0) ⊎ ((table_desc e).valid ≡ 1)
unfolding table_desc
valid-cases e = omega arith

-- The leaf that an entry of a level 3 table is. Without the access flag every access faults.
unfoldable pub leaf_at : ℕ → Option PageDesc
leaf_at e =
    let d = page_desc e in
    if d.valid == 1 && (d.is_page == 1 && (d.access_flag == 1)) then some d else none

module _ (kernel_base_va : ℕ) where
  -- The address of the table below: bits 47 to 12 of the entry in place, above them bits 49 and 48, and bits 9 and 8 as the bits 51
  -- and 50.
  unfoldable pub table_below : ℕ → ℕ
  table_below e =
      pa_to_va kernel_base_va
        (e / 2 ^ 8 % 4 * 2 ^ 50 + e / 2 ^ 48 % 4 * 2 ^ 48 + e / 2 ^ 12 % 2 ^ 36 * 2 ^ 12)

  -- The code reads the same address out of a valid entry.
  next_table-table_below :
      (entry : ℕ) (tm : Mem)
      → (table_desc (tm entry)).valid ≡ 1
      → next_table kernel_base_va entry tm ≡ table_below (tm entry)
  unfolding next_table table_below table_desc
  next_table-table_below entry tm h = ap (pa_to_va kernel_base_va) (
      get_page_table_entry_address-sum (table_desc (tm entry)) h (omega arith) (omega arith)
        (omega arith))

  -- One step, from a table to the one below: bits 0 and 1 of the entry make it a valid table descriptor.
  unfoldable pub walk_step : ℕ → ℕ → Mem → Option ℕ → Option ℕ
  walk_step level v tm none = none
  walk_step level v tm (some t) =
      let e = tm (entry_at t (walk_index level v)) in
      if e % 2 == 1 && (e / 2 % 2 == 1) then some (table_below e) else none

  pub walk_step-invalid :
      (level v t : ℕ) (tm : Mem)
      → (table_desc (tm (entry_at t (walk_index level v)))).valid ≡ 0
      → walk_step level v tm (some t) ≡ none
  unfolding walk_step table_desc
  walk_step-invalid level v t tm h =
      let bit0 : (tm (entry_at t (walk_index level v)) % 2 == 1) ≡ false = ground (arith, h) in
      rw bit0 refl

  pub walk_step-valid :
      (level v t : ℕ) (tm : Mem)
      → (table_desc (tm (entry_at t (walk_index level v)))).valid ≡ 1
      → (table_desc (tm (entry_at t (walk_index level v)))).is_table ≡ 1
      → walk_step level v tm (some t)
        ≡ some (next_table kernel_base_va (entry_at t (walk_index level v)) tm)
  unfolding walk_step table_desc
  walk_step-valid level v t tm h k =
      let bit0 : (tm (entry_at t (walk_index level v)) % 2 == 1) ≡ true = ground (arith, h) in
      let bit1 : (tm (entry_at t (walk_index level v)) / 2 % 2 == 1) ≡ true = ground (arith, k) in
      rw (bit0, bit1, next_table-table_below (entry_at t (walk_index level v)) tm h) refl

  pub walk_step-next :
      (level v t u : ℕ) (tm : Mem)
      → (table_desc (tm (entry_at t (walk_index level v)))).valid ≡ 1
      → walk_step level v tm (some t) ≡ some u
      → next_table kernel_base_va (entry_at t (walk_index level v)) tm ≡ u
  unfolding walk_step
  walk_step-next level v t u tm h step =
      let below : table_below (tm (entry_at t (walk_index level v))) ≡ u = ground (arith, step) in
      next_table-table_below (entry_at t (walk_index level v)) tm h ∙ below

  -- A step depends on the memory of one entry.
  pub walk_step-same :
      (level v t : ℕ) (tm tm' : Mem)
      → tm (entry_at t (walk_index level v)) ≡ tm' (entry_at t (walk_index level v))
      → walk_step level v tm (some t) ≡ walk_step level v tm' (some t)
  unfolding walk_step
  walk_step-same level v t tm tm' h = rw h refl

  -- The table of the given level on the way to `v`.
  unfoldable pub table_at : ℕ → ℕ → ℕ → Mem → Option ℕ
  table_at root v zero tm = some root
  table_at root v (suc level) tm = walk_step level v tm (table_at root v level tm)

  unfoldable pub leaf_of : ℕ → Mem → Option ℕ → Option PageDesc
  leaf_of v tm none = none
  leaf_of v tm (some t) = leaf_at (tm (entry_at t (walk_index 3 v)))

  -- The leaf descriptor that a virtual address is translated by.
  unfoldable pub translate : ℕ → ℕ → Mem → Option PageDesc
  unfolding table_at walk_step leaf_of
  translate root v tm = leaf_of v tm (table_at root v 3 tm)
