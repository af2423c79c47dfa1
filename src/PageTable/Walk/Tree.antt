-- ===== src/PageTable/Walk/Tree.antt =====
-- The tables form a tree: the invariant of `map_page`, and what it depends on of the allocator.
use kernelite.Base.{
  ℕ, zero, suc, ◌+◌, ◌*◌, ◌%◌, ◌^◌, ◌≤◌, ◌<◌, ◌≡◌, ◌≢◌, ◌⊎◌, inl, refl, ◌∙◌, arith,
}
use kernelite.Base.{Mem, store, store_self, store_ne}
use native.Mathlib.Decide.{dec_lt}
use kernelite.MemLayout.{va_to_pa}
use kernelite.PageTable.Layout.{table_desc}
use kernelite.PageTable.Map.{entry_at, next_table, zero_entries}

-- What `map_page` needs of the page allocator: the pages that it hands out are aligned, lie below
-- 2^48, were not in use, and stay in use.
pub record Frames (S : Type 0) : Type 1 where
  pub page_alloc : S → ℕ × S
  pub in_use : S → ℕ → Type 0
  pub aligned : (s : S) → (page_alloc s).0 % 4096 ≡ 0
  pub small : (s : S) → (page_alloc s).0 < 2 ^ 48
  pub fresh : (s : S) → (page_alloc s).0 ≢ 0 → ¬ in_use s (page_alloc s).0
  pub granted : (s : S) → (page_alloc s).0 ≢ 0 → in_use (page_alloc s).1 (page_alloc s).0
  pub kept : (s : S) (p : ℕ) → in_use s p → in_use (page_alloc s).1 p

-- Each table has a level and, below the root, one entry that points to it. 4 is the level of what
-- is no table.
pub record Tree (kernel_base_va : ℕ) (in_use : ℕ → Type 0) (root : ℕ) (tm : Mem) : Type 0 where
  pub level : ℕ → ℕ
  pub slot : ℕ → ℕ
  pub top : level root ≡ 0
  pub page : (t : ℕ) → level t < 4 → t % 4096 ≡ 0
  pub used : (t : ℕ) → level t < 4 → in_use (va_to_pa kernel_base_va t)
  pub is_table :
      (t i : ℕ)
      → level t < 3
      → i < 512
      → (table_desc (tm (entry_at t i))).valid ≢ 0
      → (table_desc (tm (entry_at t i))).is_table ≡ 1
  pub below :
      (t i : ℕ)
      → level t < 3
      → i < 512
      → (table_desc (tm (entry_at t i))).valid ≢ 0
      → level (next_table kernel_base_va (entry_at t i) tm) ≡ suc (level t)
  pub parent :
      (t i : ℕ)
      → level t < 3
      → i < 512
      → (table_desc (tm (entry_at t i))).valid ≢ 0
      → slot (next_table kernel_base_va (entry_at t i) tm) ≡ entry_at t i

pub zero_entries-outside :
    (t left i : ℕ) (tm : Mem) (a : ℕ)
    → (a < t + 8 * i) ⊎ (t + 8 * (i + left) ≤ a)
    → zero_entries t left i tm a ≡ tm a
unfolding zero_entries
zero_entries-outside t zero i tm a h = refl
zero_entries-outside t (suc left) i tm a h =
    zero_entries-outside t left (i + 1) (store tm (t + 8 * i) 0) a (omega arith)
    ∙ store_ne tm (t + 8 * i) 0 a (omega arith)

pub zero_entries-at :
    (t left i : ℕ) (tm : Mem) (j : ℕ)
    → i ≤ j
    → j < i + left
    → zero_entries t left i tm (entry_at t j) ≡ 0
unfolding zero_entries
zero_entries-at t zero i tm j h k = absurd (omega arith)
zero_entries-at t (suc left) i tm j h k = elim (dec_lt i j) [
  | yes l ↦ zero_entries-at t left (i + 1) (store tm (t + 8 * i) 0) j (omega arith) (omega arith)
  | no l ↦
      zero_entries-outside t left (i + 1) (store tm (t + 8 * i) 0) (t + 8 * j) (inl (omega arith))
      ∙ (let e : j ≡ i = omega arith in rw e (store_self tm (t + 8 * i) 0))
]
