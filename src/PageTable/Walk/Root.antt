-- ===== src/PageTable/Walk/Root.antt =====
-- A root table without entries: the start of a map.
use kernelite.Base.{ℕ, ◌%◌, ◌<◌, ◌≡◌, refl, arith}
use kernelite.Base.{Mem, none, ◌==◌, if◌then◌else◌}
use kernelite.MemLayout.{va_to_pa}
use kernelite.PageTable.Layout.{table_desc}
use kernelite.PageTable.Map.{entry_at}
use kernelite.PageTable.Walk.{translate, walk_index, walk_index-lt}
use kernelite.PageTable.Walk.Tree.{Tree}

module _ (kernel_base_va root : ℕ) (tm : Mem)
    (empty : (i : ℕ) → i < 512 → tm (entry_at root i) ≡ 0) where
  -- Nothing is translated.
  pub translate-none : (w : ℕ) → translate kernel_base_va root w tm ≡ none
  unfolding translate table_desc
  translate-none w = rw (empty (walk_index 0 w) (walk_index-lt 0 w)) refl

  abbrev only_root : ℕ → ℕ
  only_root t = if t == root then 0 else 4

  only_root-eq : (t : ℕ) → only_root t < 4 → t ≡ root
  only_root-eq t h = ground arith

  no_entry : (t i : ℕ) → only_root t < 3 → i < 512 → (table_desc (tm (entry_at t i))).valid ≡ 0
  unfolding table_desc
  no_entry t i h l = rw (only_root-eq t (omega arith), empty i l) refl

  -- The root alone is a tree.
  pub root-Tree :
      (in_use : ℕ → Type 0)
      → root % 4096 ≡ 0
      → in_use (va_to_pa kernel_base_va root)
      → Tree kernel_base_va in_use root tm
  unfolding table_desc
  root-Tree in_use aligned used = record {
    level = only_root;
    slot = λ t. 0;
    top = ground arith;
    page = λ t h. ground (arith, only_root-eq t h);
    used = λ t h. rw (only_root-eq t h) used;
    is_table = λ t i h k v. absurd (v (no_entry t i h k));
    below = λ t i h k v. absurd (v (no_entry t i h k));
    parent = λ t i h k v. absurd (v (no_entry t i h k));
  }
