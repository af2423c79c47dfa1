-- ===== src/PageTable/Layout.antt =====
-- src/include/page_table/page_table.h: the permissions, the memory types, and the two descriptors
-- as bit fields of a 64-bit word (the union `page_table_entry_t`).
use kernelite.Base.{ℕ, ◌+◌, ◌/◌, ◌%◌, ◌^◌, Bool, ◌<<<◌}

-- PTRS_PER_TABLE
abbrev pub ptrs_per_table : ℕ
ptrs_per_table = 512

pub record PagePermissions : Type 0 where
  pub read : Bool
  pub write : Bool
  pub execute : Bool
  pub user_accessible : Bool

pub data MemType : Type 0 where
  device normal : MemType

-- `table_desc_t`, lowest bits first.
pub record TableDesc : Type 0 where
  pub valid : ℕ
  pub is_table : ℕ
  pub ignored_7_2 : ℕ
  pub nlta_51_50 : ℕ
  pub access_flag : ℕ
  pub ignored_11 : ℕ
  pub nlta_47_12 : ℕ
  pub nlta_49_48 : ℕ
  pub res_50 : ℕ
  pub ignored_51 : ℕ
  pub protected : ℕ
  pub ignored_58_53 : ℕ
  pub pxn_table : ℕ
  pub xn_table : ℕ
  pub ap_table : ℕ
  pub ns_table : ℕ

-- `page_desc_t`, lowest bits first.
pub record PageDesc : Type 0 where
  pub valid : ℕ
  pub is_page : ℕ
  pub attr_indx : ℕ
  pub non_secure : ℕ
  pub ap : ℕ
  pub sh : ℕ
  pub access_flag : ℕ
  pub non_global : ℕ
  pub frame_addr_47_12 : ℕ
  pub frame_addr_49_48 : ℕ
  pub guarded_page : ℕ
  pub dirty_bit : ℕ
  pub contiguous : ℕ
  pub pxn : ℕ
  pub xn : ℕ
  pub sw_reserved : ℕ
  pub attr_indx_3 : ℕ
  pub po_index : ℕ
  pub amec : ℕ

-- Bits `lo` to `lo + w - 1` of a word.
abbrev pub field : ℕ → ℕ → ℕ → ℕ
field lo w v = v / 2 ^ lo % 2 ^ w

-- The union read as a table descriptor, and the word that such a descriptor is.
unfoldable pub table_desc : ℕ → TableDesc
table_desc v = record {
  valid = field 0 1 v;
  is_table = field 1 1 v;
  ignored_7_2 = field 2 6 v;
  nlta_51_50 = field 8 2 v;
  access_flag = field 10 1 v;
  ignored_11 = field 11 1 v;
  nlta_47_12 = field 12 36 v;
  nlta_49_48 = field 48 2 v;
  res_50 = field 50 1 v;
  ignored_51 = field 51 1 v;
  protected = field 52 1 v;
  ignored_58_53 = field 53 6 v;
  pxn_table = field 59 1 v;
  xn_table = field 60 1 v;
  ap_table = field 61 2 v;
  ns_table = field 63 1 v;
}

unfoldable pub table_value : TableDesc → ℕ
table_value d =
    d.valid
    + d.is_table <<< 1
    + d.ignored_7_2 <<< 2
    + d.nlta_51_50 <<< 8
    + d.access_flag <<< 10
    + d.ignored_11 <<< 11
    + d.nlta_47_12 <<< 12
    + d.nlta_49_48 <<< 48
    + d.res_50 <<< 50
    + d.ignored_51 <<< 51
    + d.protected <<< 52
    + d.ignored_58_53 <<< 53
    + d.pxn_table <<< 59
    + d.xn_table <<< 60
    + d.ap_table <<< 61
    + d.ns_table <<< 63

-- The union read as a page descriptor, and the word that such a descriptor is.
unfoldable pub page_desc : ℕ → PageDesc
page_desc v = record {
  valid = field 0 1 v;
  is_page = field 1 1 v;
  attr_indx = field 2 3 v;
  non_secure = field 5 1 v;
  ap = field 6 2 v;
  sh = field 8 2 v;
  access_flag = field 10 1 v;
  non_global = field 11 1 v;
  frame_addr_47_12 = field 12 36 v;
  frame_addr_49_48 = field 48 2 v;
  guarded_page = field 50 1 v;
  dirty_bit = field 51 1 v;
  contiguous = field 52 1 v;
  pxn = field 53 1 v;
  xn = field 54 1 v;
  sw_reserved = field 55 4 v;
  attr_indx_3 = field 59 1 v;
  po_index = field 60 3 v;
  amec = field 63 1 v;
}

unfoldable pub page_value : PageDesc → ℕ
page_value d =
    d.valid
    + d.is_page <<< 1
    + d.attr_indx <<< 2
    + d.non_secure <<< 5
    + d.ap <<< 6
    + d.sh <<< 8
    + d.access_flag <<< 10
    + d.non_global <<< 11
    + d.frame_addr_47_12 <<< 12
    + d.frame_addr_49_48 <<< 48
    + d.guarded_page <<< 50
    + d.dirty_bit <<< 51
    + d.contiguous <<< 52
    + d.pxn <<< 53
    + d.xn <<< 54
    + d.sw_reserved <<< 55
    + d.attr_indx_3 <<< 59
    + d.po_index <<< 60
    + d.amec <<< 63
