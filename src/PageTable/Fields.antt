-- ===== src/PageTable/Fields.antt =====
-- The bit fields of a descriptor and its 64-bit word determine one another.
use kernelite.Base.{ℕ, ◌^◌, ◌<◌, ◌≡◌, arith}
use kernelite.PageTable.Layout.{TableDesc, PageDesc, table_desc, table_value, page_desc, page_value}

-- Every field fits its width.
pub record FitsTable (d : TableDesc) : Type 0 where
  pub valid : d.valid < 2
  pub is_table : d.is_table < 2
  pub ignored_7_2 : d.ignored_7_2 < 64
  pub nlta_51_50 : d.nlta_51_50 < 4
  pub access_flag : d.access_flag < 2
  pub ignored_11 : d.ignored_11 < 2
  pub nlta_47_12 : d.nlta_47_12 < 2 ^ 36
  pub nlta_49_48 : d.nlta_49_48 < 4
  pub res_50 : d.res_50 < 2
  pub ignored_51 : d.ignored_51 < 2
  pub protected : d.protected < 2
  pub ignored_58_53 : d.ignored_58_53 < 64
  pub pxn_table : d.pxn_table < 2
  pub xn_table : d.xn_table < 2
  pub ap_table : d.ap_table < 4
  pub ns_table : d.ns_table < 2

pub table_value-table_desc : (v : ℕ) → v < 2 ^ 64 → table_value (table_desc v) ≡ v
unfolding table_value table_desc
table_value-table_desc v h = omega arith

pub table_desc-table_value : (d : TableDesc) → FitsTable d → table_desc (table_value d) ≡ d
unfolding table_value table_desc
table_desc-table_value d f = ground arith

-- Every field fits its width.
pub record FitsPage (d : PageDesc) : Type 0 where
  pub valid : d.valid < 2
  pub is_page : d.is_page < 2
  pub attr_indx : d.attr_indx < 8
  pub non_secure : d.non_secure < 2
  pub ap : d.ap < 4
  pub sh : d.sh < 4
  pub access_flag : d.access_flag < 2
  pub non_global : d.non_global < 2
  pub frame_addr_47_12 : d.frame_addr_47_12 < 2 ^ 36
  pub frame_addr_49_48 : d.frame_addr_49_48 < 4
  pub guarded_page : d.guarded_page < 2
  pub dirty_bit : d.dirty_bit < 2
  pub contiguous : d.contiguous < 2
  pub pxn : d.pxn < 2
  pub xn : d.xn < 2
  pub sw_reserved : d.sw_reserved < 16
  pub attr_indx_3 : d.attr_indx_3 < 2
  pub po_index : d.po_index < 8
  pub amec : d.amec < 2

page_value-page_desc : (v : ℕ) → v < 2 ^ 64 → page_value (page_desc v) ≡ v
unfolding page_value page_desc
page_value-page_desc v h = omega arith

pub page_desc-page_value : (d : PageDesc) → FitsPage d → page_desc (page_value d) ≡ d
unfolding page_value page_desc
page_desc-page_value d f = ground arith
