-- ===== src/PageTable/Map.antt =====
-- src/kernel/page_table/page_table.c, the tables in memory and `map_page`. Memory holds a 64-bit
-- entry at each multiple of 8; a table is the address of its entry 0. The physical allocator is a
-- parameter: a state and what `page_alloc(1)` does to it.
use kernelite.Base.{ℕ, zero, suc, ◌+◌, ◌*◌, bit_and, bit_or, Bool, true, false, ◌&&◌, ◌||◌, not}
use kernelite.Base.{◌==◌, ◌!=◌, if◌then◌else◌, Mem, store, ◌>>>◌, ◌<<<◌}
use kernelite.MemLayout.{va_to_pa, pa_to_va}
use kernelite.PageTable.Layout.{PagePermissions, MemType, device, normal, TableDesc, PageDesc}
use kernelite.PageTable.Layout.{ptrs_per_table, table_desc, table_value, page_desc, page_value}

-- PA_47_12_MASK, PA_49_48_MASK and PA_51_50_MASK
abbrev pub pa_47_12_mask : ℕ
pa_47_12_mask = 0xF_FFFF_FFFF

abbrev pub pa_49_48_mask : ℕ
pa_49_48_mask = 3

abbrev pub pa_51_50_mask : ℕ
pa_51_50_mask = 3

unfoldable pub set_page_table_entry_address : TableDesc → ℕ → TableDesc
set_page_table_entry_address entry phys_addr = record entry {
  nlta_47_12 = bit_and (phys_addr >>> 12) pa_47_12_mask;
  nlta_49_48 = bit_and (phys_addr >>> 48) pa_49_48_mask;
  nlta_51_50 = bit_and (phys_addr >>> 50) pa_51_50_mask;
}

unfoldable pub set_page_desc_entry_address : PageDesc → ℕ → PageDesc
set_page_desc_entry_address entry phys_addr = record entry {
  frame_addr_47_12 = bit_and (phys_addr >>> 12) pa_47_12_mask;
  frame_addr_49_48 = bit_and (phys_addr >>> 48) pa_49_48_mask;
}

unfoldable pub get_page_table_entry_address : TableDesc → ℕ
get_page_table_entry_address entry =
    if entry.valid == 0
    then 0
    else bit_or (bit_or (bit_or 0 (entry.nlta_47_12 <<< 12)) (entry.nlta_49_48 <<< 48))
        (entry.nlta_51_50 <<< 50)

-- The test of the table's APTable field; its values are those of `enum aptable_values`.
unfoldable pub check_table_permissions : TableDesc → PagePermissions → Bool
check_table_permissions entry perms =
    if entry.valid == 0
    then false
    else if perms.user_accessible
    then not (entry.ap_table == 1 || (entry.ap_table == 3 || perms.write && (entry.ap_table == 2)))
    else not (perms.write && (entry.ap_table == 2 || (entry.ap_table == 3)))

-- `entries[i].value = 0` for the `left` entries from `i` on.
unfoldable pub zero_entries : ℕ → ℕ → ℕ → Mem → Mem
zero_entries table zero i tm = tm
zero_entries table (suc left) i tm = zero_entries table left (i + 1) (store tm (table + 8 * i) 0)

unfoldable pub page_table_init : ℕ → Mem → Mem
unfolding zero_entries
page_table_init table tm = zero_entries table ptrs_per_table 0 tm

-- The word that `set_next_level_table` stores.
unfoldable pub next_level_value : ℕ → ℕ
unfolding set_page_table_entry_address
next_level_value next_table_addr = table_value (
    set_page_table_entry_address (record (table_desc 0) { valid = 1; is_table = 1 })
      next_table_addr)

-- AP, XN and PXN of the leaf, and its valid bit.
unfoldable pub set_permissions : PageDesc → PagePermissions → PageDesc
set_permissions d perms =
    let never = if perms.execute then 0 else 1 in
    let d' = record d { xn = never; pxn = never } in
    if not perms.read
    then record d' { valid = 0 }
    else if perms.write
    then record d' { ap = if perms.user_accessible then 1 else 0 }
    else record d' { ap = if perms.user_accessible then 3 else 2 }

unfoldable pub set_memory_type : PageDesc → MemType → PageDesc
set_memory_type d device = record d { attr_indx = 0; sh = 0 }
set_memory_type d normal = record d { attr_indx = 1; sh = 3 }

-- The leaf that `map_page` builds from a zeroed entry.
unfoldable pub leaf_desc : ℕ → PagePermissions → MemType → PageDesc
unfolding set_page_desc_entry_address set_permissions set_memory_type
leaf_desc phys_addr perms mem_type =
    let fresh = record (page_desc 0) { valid = 1; is_page = 1 } in
    let d = set_permissions (set_page_desc_entry_address fresh phys_addr) perms in
    set_memory_type (record d { access_flag = 1 }) mem_type

-- `(v_addr >> shift) & 0x1FF`, the index into a table.
unfoldable pub table_index : ℕ → ℕ → ℕ
table_index shift v_addr = bit_and (v_addr >>> shift) 0x1FF

-- The address of `table->entries[i]`.
abbrev pub entry_at : ℕ → ℕ → ℕ
entry_at table i = table + 8 * i

-- The pointer that the entry's table descriptor holds.
unfoldable pub next_table : ℕ → ℕ → Mem → ℕ
next_table kernel_base_va entry tm =
    pa_to_va kernel_base_va (get_page_table_entry_address (table_desc (tm entry)))

module _ (kernel_base_va : ℕ) {S : Type 0} (page_alloc : S → ℕ × S) where
  -- The allocator's state and the memory of the tables.
  abbrev pub Tables : Type 0
  Tables = S × Mem

  unfoldable pub allocate_new_table : ℕ → Tables → Bool × Tables
  allocate_new_table entry (s, tm) =
      let (new_table_phys, s') = page_alloc s in
      let new_table = pa_to_va kernel_base_va new_table_phys in
      let phys_addr = va_to_pa kernel_base_va new_table in
      if new_table_phys == 0
      then (false, (s', tm))
      else (true, (s', store (page_table_init new_table tm) entry (next_level_value phys_addr)))

  -- 0 is the null pointer.
  unfoldable pub get_next_level_table : ℕ → PagePermissions → Tables → ℕ × Tables
  get_next_level_table entry perms st =
      let (allocated, st') = allocate_new_table entry st in
      if (table_desc (st.1 entry)).valid == 0
      then (if allocated then (next_table kernel_base_va entry st'.1, st') else (0, st'))
      else if not (check_table_permissions (table_desc (st.1 entry)) perms)
      then (0, st)
      else (next_table kernel_base_va entry st.1, st)

  -- One step down: the table below `table` on the way to index `i`, unless `table` is null.
  unfoldable pub descend : PagePermissions → ℕ → ℕ × Tables → ℕ × Tables
  descend perms i (table, st) =
      if table == 0 then (0, st) else get_next_level_table (entry_at table i) perms st

  unfoldable pub write_leaf : ℕ → ℕ → ℕ × Tables → Bool × Tables
  write_leaf l3_idx leaf (level3, (s, tm)) =
      if level3 == 0 then (false, (s, tm)) else (true, (s, store tm (entry_at level3 l3_idx) leaf))

  unfoldable pub map_page : ℕ → ℕ → ℕ → PagePermissions → MemType → Tables → Bool × Tables
  unfolding write_leaf
  map_page root v_addr phys_addr perms mem_type st =
      let level1 = descend perms (table_index 39 v_addr) (root, st) in
      let level2 = descend perms (table_index 30 v_addr) level1 in
      let level3 = descend perms (table_index 21 v_addr) level2 in
      if (bit_and phys_addr 0xFFF != 0) || (bit_and v_addr 0xFFF != 0)
      then (false, st)
      else write_leaf (table_index 12 v_addr) (page_value (leaf_desc phys_addr perms mem_type))
          level3
