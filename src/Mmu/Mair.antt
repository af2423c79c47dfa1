-- ===== src/Mmu/Mair.antt =====
-- src/kernel/mmu/mmu.c, the eight attributes of MAIR_EL1 (mair_reg_t), a byte each.
use kernelite.Base.{ℕ, ◌+◌, ◌*◌}
use kernelite.Mmu.Place.{Place, bits, get}

-- mair_device_attr_t
pub data DeviceAttr : Type 0 where
  xs res0_1 type res0_7_4 : DeviceAttr

abbrev pub device_place : DeviceAttr → Place
device_place xs = bits 0 1
device_place res0_1 = bits 1 1
device_place type = bits 2 2
device_place res0_7_4 = bits 4 4

-- mair_normal_attr_t
pub data NormalAttr : Type 0 where
  inner_write_alloc inner_read_alloc inner_write_back inner_non_transient : NormalAttr
  outer_write_alloc outer_read_alloc outer_write_back outer_non_transient : NormalAttr

abbrev pub normal_place : NormalAttr → Place
normal_place inner_write_alloc = bits 0 1
normal_place inner_read_alloc = bits 1 1
normal_place inner_write_back = bits 2 1
normal_place inner_non_transient = bits 3 1
normal_place outer_write_alloc = bits 4 1
normal_place outer_read_alloc = bits 5 1
normal_place outer_write_back = bits 6 1
normal_place outer_non_transient = bits 7 1

-- enum device_type
abbrev pub device_ngnrne : ℕ
device_ngnrne = 0

-- A field of slot `i`, as a field of the register: attr[0] is bits [7:0].
abbrev pub slot : ℕ → Place → Place
slot i p = bits (8 * i + p.low) p.width

-- The byte attr[i].
abbrev pub attr : ℕ → ℕ → ℕ
attr i v = get (bits (8 * i) 8) v
