-- ===== src/Fdt/Memory.antt =====
-- src/kernel/fdt/fdt.c, get_mem and get_reg_property. A memory map is the list of the regions that
-- are filled in, so its length is `count`.
use kernelite.Base.{ℕ, zero, suc, ◌+◌, ◌-◌, ◌*◌, ◌/◌, ◌%◌, ◌^◌, bit_or, Bool, true, false, ◌||◌}
use kernelite.Base.{
  Option, none, some, List, [], ◌∷◌, ◌++◌, length, ltb, leb, ◌==◌, ◌!=◌, if◌then◌else◌, u64, ◌<<<◌,
}
use kernelite.Base.{◌⊎◌, inl, inr}
use kernelite.Fdt.Tree.{FdtInt, offset, error, Libfdt, Fdt}

abbrev pub max_mem_regions : ℕ
max_mem_regions = 16

pub record MemoryRegion : Type 0 where
  pub base : ℕ
  pub size : ℕ

abbrev pub region : ℕ → ℕ → MemoryRegion
region base size = record { base = base; size = size }

abbrev pub MemoryMap : Type 0
MemoryMap = List MemoryRegion

-- `v = (v << 32) | cell` for the `left` cells from `i` on.
unfoldable pub read_cells : (ℕ → ℕ) → ℕ → ℕ → ℕ → ℕ
read_cells cell zero i v = v
read_cells cell (suc left) i v =
    read_cells cell left (i + 1) (u64 (bit_or (u64 (v <<< 32)) (cell i)))

-- Entry `i` of a property whose addresses and sizes take `a` and `s` cells.
unfoldable pub entry : (ℕ → ℕ) → ℕ → ℕ → ℕ → MemoryRegion
unfolding read_cells
entry cell a s i =
    region (read_cells cell a (i * (a + s)) 0) (read_cells cell s (i * (a + s) + a) 0)

-- The loop of get_mem over the entries of one node, with the rounds left.
unfoldable pub add_entries : (ℕ → ℕ) → ℕ → ℕ → ℕ → ℕ → MemoryMap → MemoryMap
unfolding entry
add_entries cell a s zero i mmap = mmap
add_entries cell a s (suc left) i mmap =
    let r = entry cell a s i in
    let next = add_entries cell a s left (i + 1) (if ltb 0 r.size then mmap ++ r ∷ [] else mmap) in
    if leb max_mem_regions (length mmap) then mmap else next

-- One node: `inl` is the error number that get_mem returns.
unfoldable pub add_node : Libfdt → ℕ → ℕ → ℕ → MemoryMap → ℕ ⊎ MemoryMap
unfolding add_entries
add_node t a s node mmap = elim (t.getprop node "reg") [
  | none ↦ inr mmap
  | some reg ↦
      (let entry_size = (a + s) * 4 in
        if reg.len == 0
        then inr mmap
        else if ltb reg.len entry_size || (reg.len % entry_size != 0)
        then inl t.err_badstate
        else inr (add_entries reg.cell a s (reg.len / entry_size) 0 mmap))
]

-- The loop over the memory nodes; `none` is no fuel left.
unfoldable pub add_nodes : Libfdt → ℕ → ℕ → ℕ → Option ℕ → MemoryMap → Option (FdtInt × MemoryMap)
unfolding add_node
add_nodes t a s zero start mmap = none
add_nodes t a s (suc fuel) start mmap = elim (t.next_memory start) [
  | error e ↦ some (offset 0, mmap)
  | offset n ↦ elim (add_node t a s n mmap) [
    | inl e ↦ some (error e, mmap)
    | inr mmap' ↦ add_nodes t a s fuel (some n) mmap'
  ]
]

-- The cell counts that get_mem accepts.
unfoldable pub cell_count : FdtInt → Option ℕ
cell_count (error e) = none
cell_count (offset n) = if n == 0 || ltb 2 n then none else some n

unfoldable pub get_mem : ℕ → ℕ → Fdt → MemoryMap → Option (FdtInt × MemoryMap)
unfolding cell_count add_nodes
get_mem err_internal fuel none mmap = some (error err_internal, mmap)
get_mem err_internal fuel (some t) mmap = elim t.root [
  | error e ↦ some (error e, [])
  | offset root ↦ elim (cell_count (t.address_cells root)) [
    | none ↦ some (error t.err_badstate, [])
    | some a ↦ elim (cell_count (t.size_cells root)) [
      | none ↦ some (error t.err_badstate, [])
      | some s ↦ add_nodes t a s fuel none []
    ]
  ]
]

-- An `int` as a `size_t`, and as the number of rounds of `for (int i = 0; i < n; i++)`.
unfoldable pub as_size : FdtInt → ℕ
as_size (offset n) = n
as_size (error e) = 2 ^ 64 - e

unfoldable pub rounds : FdtInt → ℕ
rounds (offset n) = n
rounds (error e) = 0

-- The loop of get_reg_property, which reads on from cell `pos`.
unfoldable pub reg_entries : (ℕ → ℕ) → ℕ → ℕ → ℕ → ℕ → MemoryMap → Bool × MemoryMap
unfolding read_cells
reg_entries cell a s zero pos reg_map = (true, reg_map)
reg_entries cell a s (suc left) pos reg_map =
    let r = region (read_cells cell a pos 0) (read_cells cell s (pos + a) 0) in
    let next = reg_entries cell a s left (pos + a + s) (reg_map ++ r ∷ []) in
    if ltb (length reg_map) max_mem_regions then next else (false, reg_map)

-- The first branch returns `-FDT_ERR_INTERNAL` from a function into `bool`. Division by 0 (no
-- cells at all) is undefined in C.
unfoldable pub get_reg_property : ℕ → Fdt → FdtInt → MemoryMap → Bool × MemoryMap
unfolding as_size rounds reg_entries
get_reg_property err_internal none node reg_map = (err_internal != 0, reg_map)
get_reg_property err_internal (some t) (error e) reg_map = (err_internal != 0, reg_map)
get_reg_property err_internal (some t) (offset node) reg_map =
    let a = t.address_cells node in
    let s = t.size_cells node in
    let entry_bytes = u64 (u64 (as_size a + as_size s) * 4) in
    elim (t.getprop node "reg") [
      | none ↦ (false, [])
      | some reg ↦
          (if reg.len == 0
            then (false, [])
            else reg_entries reg.cell (rounds a) (rounds s) (reg.len / entry_bytes) 0 [])
    ]
