-- ===== src/Tests/Fdt.antt =====
-- The device tree wrapper on a tree of four nodes: the root at 0, memory at 40, the timer at 80 and the
-- interrupt controller at 120.
use Prim.Native.String.{String}
use kernelite.Base.{
  ◌≢◌, ℕ, ◌+◌, ◌*◌, ◌/◌, ◌%◌, ◌≤◌, ◌<◌, ◌≡◌, inl, inr, refl, ap, sym, ◌∙◌, Bool-cases, arith,
}
use kernelite.Base.{
  Bool, true, false, Option, none, some, List, [], ◌∷◌, ◌++◌, length, take, leb, ◌==◌,
  if◌then◌else◌,
}
use kernelite.Fdt.Tree.{
  FdtInt, offset, error, Property, Libfdt, fdt_is_error, get_nodes_by_compatible,
}
use kernelite.Fdt.Memory.{
  MemoryMap, region, add_node, as_size, get_mem, get_reg_property, max_mem_regions,
}
use kernelite.Base.{All}
use kernelite.Fdt.Decode.{
  Advances, IsMap, nonempty, entries, reg_list, get_mem-IsMap, add_node-take, get_reg_property_lem,
}
use kernelite.Fdt.Bounds.{Descends, get_nodes_by_compatible-bounded}

-- The walk that only finds the node at `n`.
abbrev only : ℕ → Option ℕ → FdtInt
only n none = offset n
only n (some p) = error 1

-- The cells 0, 0x40000000, 0 and 0x1000000, then zeros.
abbrev memory_cells : ℕ → ℕ
memory_cells i = if i == 1 then 0x40000000 else if i == 3 then 0x1000000 else 0

abbrev memory_reg : Property
memory_reg = record { len = 16; cell = memory_cells }

-- Four interrupts of three cells each: PPIs 13, 14, 11 and 10, level triggered.
abbrev interrupt_cells : ℕ → ℕ
interrupt_cells i =
    if i % 3 == 0
    then 1
    else if i % 3 == 2
    then 4
    else if i == 1
    then 13
    else if i == 4
    then 14
    else if i == 7
    then 11
    else 10

abbrev timer_interrupts : Property
timer_interrupts = record { len = 48; cell = interrupt_cells }

abbrev three : Property
three = record { len = 4; cell = λ i. 3 }

-- One property per node, under any name.
abbrev properties : ℕ → String → Option Property
properties n name =
    if n == 40
    then some memory_reg
    else if n == 80
    then some timer_interrupts
    else if n == 120
    then some three
    else none

abbrev root_parent : Bool → FdtInt
root_parent b = if b then error 1 else offset 0

abbrev pub board : Libfdt
board = record {
  err_badstate = 7;
  err_notfound = 1;
  err_badncells = 14;
  check_header = offset 0;
  root = offset 0;
  address_cells = λ n. offset 2;
  size_cells = λ n. offset 2;
  next_memory = only 40;
  interrupt_controller = offset 120;
  next_compatible = λ s. only 80;
  getprop = properties;
  parent = λ n. root_parent (n == 0);
  by_phandle = λ p. offset 120;
}

only-Advances : (p : ℕ) → p < 200 → Advances 200 (only p)
unfolding as_size fdt_is_error
only-Advances p l none n e = let same : p ≡ n = ap as_size e in (omega arith, tt)
only-Advances p l (some q) n e = let same : true ≡ false = ap fdt_is_error e in absurd (cc)

pub board-Advances : Advances 200 (board.next_compatible "arm,armv8-timer")
board-Advances = only-Advances 80 (omega arith)

pub board-Descends : Descends board
unfolding as_size fdt_is_error
board-Descends n m e = elim (Bool-cases (n == 0)) [
  | inl root ↦
      let same : true ≡ false = ap fdt_is_error (sym (ap root_parent root) ∙ e) in absurd (cc)
  | inr other ↦ let same : 0 ≡ m = ap as_size (sym (ap root_parent other) ∙ e) in ground arith
]

read_board : get_mem 13 201 (some board) [] ≡ some (offset 0, region 0x40000000 0x1000000 ∷ [])
unfolding get_mem
read_board = refl

get_mem-IsMap_example :
    (r : FdtInt) × (m : MemoryMap) × (get_mem 13 201 (some board) [] ≡ some (r, m)) × IsMap m
get_mem-IsMap_example =
    get_mem-IsMap board 200 201 13 [] (only-Advances 40 (omega arith)) (omega arith)

add_node-take_example :
    (16 % ((2 + 2) * 4) ≡ 0
      → add_node board 2 2 40 []
        ≡ inr (
            take max_mem_regions
              ([] ++ nonempty (entries memory_cells 2 2 (16 / ((2 + 2) * 4)) 0))))
    × (16 % ((2 + 2) * 4) ≢ 0 → add_node board 2 2 40 [] ≡ inl board.err_badstate)
add_node-take_example =
    add_node-take board 2 2 40 memory_reg [] refl (omega arith) (omega arith) (omega arith)

get_reg_property_lem_example : get_reg_property 13 (some board) (offset 40) [] ≡ (
  leb (16 / ((2 + 2) * 4)) max_mem_regions,
  take max_mem_regions (reg_list memory_cells 2 2 (16 / ((2 + 2) * 4)) 0),
)
get_reg_property_lem_example =
    get_reg_property_lem 13 board 40 2 2 memory_reg [] refl refl refl (omega arith) (omega arith)
      (omega arith) (omega arith)

get_nodes_by_compatible-bounded_example :
    (l : List ℕ) × (get_nodes_by_compatible 13 201 (some board) "arm,armv8-timer" 10 ≡ some (inr l))
    × (length l ≤ 10)
    × All (λ n. n < 200) l
get_nodes_by_compatible-bounded_example =
    get_nodes_by_compatible-bounded board "arm,armv8-timer" 200 201 13 10 board-Advances
      (omega arith)
