-- ===== src/PageTable/Address.antt =====
-- The address that a descriptor holds, and the word that links a table to the next.
use kernelite.Base.{ℕ, ◌+◌, ◌*◌, ◌%◌, ◌^◌, ◌<◌, bit_or, ◌≡◌, refl, ◌∙◌, arith}
use kernelite.Base.{◌>>>◌, ◌<<<◌}
use kernelite.Bits.{bit_and_mask, bit_or_fields, bit_or_comm, bit_or-zero}
use kernelite.PageTable.Layout.{TableDesc, table_desc}
use kernelite.PageTable.Fields.{FitsTable, table_desc-table_value}
use kernelite.PageTable.Map.{
  set_page_table_entry_address, get_page_table_entry_address, next_level_value,
}

-- `lo | (hi << k)` is a sum when `lo` fits `k` bits.
or_above : (k lo hi : ℕ) → lo < 2 ^ k → bit_or lo (hi * 2 ^ k) ≡ hi * 2 ^ k + lo
or_above k lo hi h = bit_or_comm lo (hi * 2 ^ k) ∙ bit_or_fields k hi lo h

-- The three address fields of a valid descriptor, put together.
pub get_page_table_entry_address-sum :
    (d : TableDesc)
    → d.valid ≡ 1
    → d.nlta_47_12 < 2 ^ 36
    → d.nlta_49_48 < 4
    → d.nlta_51_50 < 4
    → get_page_table_entry_address d
      ≡ d.nlta_51_50 * 2 ^ 50 + d.nlta_49_48 * 2 ^ 48 + d.nlta_47_12 * 2 ^ 12
unfolding get_page_table_entry_address
get_page_table_entry_address-sum d v a b c = rw v (
    rw
      (
        bit_or_comm 0 (d.nlta_47_12 <<< 12),
        bit_or-zero (d.nlta_47_12 <<< 12),
        or_above 48 (d.nlta_47_12 * 2 ^ 12) d.nlta_49_48 (omega arith),
        or_above 50 (d.nlta_49_48 * 2 ^ 48 + d.nlta_47_12 * 2 ^ 12) d.nlta_51_50 (omega arith),
      )
      (omega arith))

-- An aligned 52-bit address is what a descriptor holds after it has been set, whatever the
-- descriptor held before.
get-set_page_table_entry_address :
    (d : TableDesc) (p : ℕ)
    → d.valid ≡ 1
    → p < 2 ^ 52
    → p % 4096 ≡ 0
    → get_page_table_entry_address (set_page_table_entry_address d p) ≡ p
unfolding set_page_table_entry_address
get-set_page_table_entry_address d p v h a =
    get_page_table_entry_address-sum (set_page_table_entry_address d p) v
      (omega (arith, bit_and_mask 36 (p >>> 12))) (omega (arith, bit_and_mask 2 (p >>> 48)))
      (omega (arith, bit_and_mask 2 (p >>> 50)))
    ∙ omega
        (arith, bit_and_mask 36 (p >>> 12), bit_and_mask 2 (p >>> 48), bit_and_mask 2 (p >>> 50))

-- The descriptor that links to the table at `p`.
abbrev link : ℕ → TableDesc
link p = set_page_table_entry_address (record (table_desc 0) { valid = 1; is_table = 1 }) p

link-FitsTable : (p : ℕ) → FitsTable (link p)
unfolding set_page_table_entry_address table_desc
link-FitsTable p =
    omega (arith, bit_and_mask 36 (p >>> 12), bit_and_mask 2 (p >>> 48), bit_and_mask 2 (p >>> 50))

-- What the word of `set_next_level_table` reads as: a valid table descriptor, with no restriction on
-- what lies below, that points to the table.
pub next_level_value_lem :
    (p : ℕ)
    → p < 2 ^ 52
    → p % 4096 ≡ 0
    → let d = table_desc (next_level_value p) in
      (d.valid ≡ 1) × (d.is_table ≡ 1) × (d.ap_table ≡ 0) × (get_page_table_entry_address d ≡ p)
next_level_value_lem p h a = rw reads (
  unfold set_page_table_entry_address in refl,
  unfold set_page_table_entry_address in refl,
  unfold set_page_table_entry_address table_desc in refl,
  get-set_page_table_entry_address (record (table_desc 0) { valid = 1; is_table = 1 }) p refl h a,
)
  where
    reads : table_desc (next_level_value p) ≡ link p
    reads = unfold next_level_value in table_desc-table_value (link p) (link-FitsTable p)
