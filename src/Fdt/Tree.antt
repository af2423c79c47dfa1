-- ===== src/Fdt/Tree.antt =====
-- What src/kernel/fdt/fdt.c takes from libfdt, as a record of functions on one tree, and the
-- functions that pass an offset or a string on.
use Prim.Native.String.{String}
use kernelite.Base.{ℕ, zero, suc, Bool, true, false, Option, none, some, List, [], ◌∷◌}
use kernelite.Base.{◌⊎◌, inl, inr, ◌==◌, if◌then◌else◌}

-- An `int` that is an offset or count, or minus an error number.
pub data FdtInt : Type 0 where
  offset : ℕ → FdtInt
  error : ℕ → FdtInt

-- A property that was found: its length in bytes, and its cells as `fdt32_to_cpu` reads them.
pub record Property : Type 0 where
  pub len : ℕ
  pub cell : ℕ → ℕ

-- The error numbers are constants of libfdt.h; FDT_ERR_INTERNAL is an argument where it is used. `fdt_getprop` gives `none` for NULL. `next_memory`
-- is `fdt_node_offset_by_prop_value` for the nodes with `device_type = "memory"`, and
-- `next_compatible` is `fdt_node_offset_by_compatible`; `none` stands for the start, -1.
pub record Libfdt : Type 0 where
  pub err_badstate : ℕ
  pub err_notfound : ℕ
  pub err_badncells : ℕ
  pub check_header : FdtInt
  pub root : FdtInt
  pub address_cells : ℕ → FdtInt
  pub size_cells : ℕ → FdtInt
  pub next_memory : Option ℕ → FdtInt
  pub interrupt_controller : FdtInt
  pub next_compatible : String → Option ℕ → FdtInt
  pub getprop : ℕ → String → Option Property
  pub parent : ℕ → FdtInt
  pub by_phandle : ℕ → FdtInt

-- A pointer to a tree: `none` is NULL.
abbrev pub Fdt : Type 0
Fdt = Option Libfdt

unfoldable pub fdt_is_error : FdtInt → Bool
fdt_is_error (offset n) = false
fdt_is_error (error e) = true

unfoldable pub check_fdt : Fdt → Bool
check_fdt none = false
check_fdt (some t) = elim t.check_header [ offset n ↦ n == 0 | error e ↦ false ]

unfoldable pub get_intc_node_offset : ℕ → Fdt → FdtInt
get_intc_node_offset err_internal none = error err_internal
get_intc_node_offset err_internal (some t) = t.interrupt_controller

unfoldable pub get_compatible_string : Fdt → FdtInt → Option Property
get_compatible_string none node = none
get_compatible_string (some t) (error e) = none
get_compatible_string (some t) (offset n) = elim (t.getprop n "compatible") [
  | none ↦ none
  | some p ↦ (if p.len == 0 then none else some p)
]

-- The nodes with a compatible string, after `start`: each round calls the library again.
unfoldable pub nodes_after : Libfdt → String → ℕ → Option ℕ → ℕ → Option (List ℕ)
nodes_after t compatible zero start room = none
nodes_after t compatible (suc fuel) start room = elim (t.next_compatible compatible start) [
  | error e ↦ some []
  | offset n ↦ elim room [
    | zero ↦ some []
    | suc left ↦ elim (nodes_after t compatible fuel (some n) left) [
      | none ↦ none
      | some l ↦ some (n ∷ l)
    ]
  ]
]

-- The nodes that are written to the array, whose number is returned. The arguments that are NULL
-- give the error number; the array is a length here.
unfoldable pub get_nodes_by_compatible : ℕ → ℕ → Fdt → String → ℕ → Option (ℕ ⊎ List ℕ)
unfolding nodes_after
get_nodes_by_compatible err_internal fuel none compatible len = some (inl err_internal)
get_nodes_by_compatible err_internal fuel (some t) compatible len =
    elim (nodes_after t compatible fuel none len) [ none ↦ none | some l ↦ some (inr l) ]
