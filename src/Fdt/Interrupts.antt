-- ===== src/Fdt/Interrupts.antt =====
-- src/kernel/fdt/fdt.c, get_intr_property, and interrupt_to_intid of src/include/fdt/fdt.h.
use kernelite.Base.{ℕ, zero, suc, ◌+◌, ◌*◌, ◌/◌, ◌%◌, bit_and, ◌⊎◌, inl, inr}
use kernelite.Base.{Option, none, some, List, [], ◌∷◌, ltb, ◌==◌, ◌!=◌, if◌then◌else◌, u32}
use kernelite.Fdt.Tree.{FdtInt, offset, error, Libfdt, Fdt}

-- IRQ_TRIGGER_EDGE and IRQ_TRIGGER_LEVEL_HIGH
pub data IrqTrigger : Type 0 where
  edge level_high : IrqTrigger

-- The type stays a number: 0 is IRQ_TYPE_SPI, 1 is IRQ_TYPE_PPI, and the tree may hold others.
pub record Interrupt : Type 0 where
  pub type : ℕ
  pub id : ℕ
  pub trigger : IrqTrigger

-- `none` is the result -1; others are an int32_t, which a number from 2 ^ 31 on makes negative.
unfoldable pub interrupt_to_intid : Interrupt → Option ℕ
interrupt_to_intid i =
    if i.type == 1
    then some (u32 (16 + i.id))
    else if i.type == 0
    then some (u32 (32 + i.id))
    else none

-- The nearest ancestor with an `interrupt-parent` of one cell; `none` is no fuel left.
unfoldable pub find_intr_parent : Libfdt → ℕ → FdtInt → Option FdtInt
find_intr_parent t zero ancestor = none
find_intr_parent t (suc fuel) ancestor = elim ancestor [
  | error e ↦ some (error 1)
  | offset n ↦
      (let onwards = find_intr_parent t fuel (t.parent n) in
        elim (t.getprop n "interrupt-parent") [
          | none ↦ onwards
          | some p ↦ (if p.len == 4 then some (t.by_phandle (p.cell 0)) else onwards)
        ])
]

-- The node that says how many cells an interrupt takes: the parent, or the default controller.
unfoldable pub or_controller : Libfdt → FdtInt → FdtInt
or_controller t (offset n) = offset n
or_controller t (error e) = t.interrupt_controller

-- `#interrupt-cells` of the parent, which must be 3: `some e` is the error.
unfoldable pub check_cells : Libfdt → FdtInt → Option ℕ
check_cells t (error e) = some t.err_notfound
check_cells t (offset n) = elim (t.getprop n "#interrupt-cells") [
  | none ↦ some t.err_badncells
  | some p ↦
      (if p.len != 4
        then some t.err_badncells
        else if p.cell 0 != 3
        then some t.err_badncells
        else none)
]

-- Entry `i`: type, number and flags.
unfoldable pub intr_entry : (ℕ → ℕ) → ℕ → Interrupt
intr_entry cell i = record {
  type = cell (i * 3);
  id = cell (i * 3 + 1);
  trigger = if bit_and (cell (i * 3 + 2)) 4 != 0 then level_high else edge;
}

unfoldable pub intr_entries : (ℕ → ℕ) → ℕ → ℕ → List Interrupt
unfolding intr_entry
intr_entries cell zero i = []
intr_entries cell (suc left) i = intr_entry cell i ∷ intr_entries cell left (i + 1)

-- The interrupts that are written, whose number is returned, or the error number.
unfoldable pub get_intr_property : ℕ → ℕ → Fdt → FdtInt → ℕ → Option (ℕ ⊎ List Interrupt)
unfolding find_intr_parent or_controller check_cells intr_entries
get_intr_property err_internal fuel none node len = some (inl err_internal)
get_intr_property err_internal fuel (some t) (error e) len = some (inl err_internal)
get_intr_property err_internal fuel (some t) (offset node) len =
    elim (t.getprop node "interrupts") [
      | none ↦ some (inl t.err_notfound)
      | some intr ↦
          (let parsed =
              elim (find_intr_parent t fuel (offset node)) as (λ _. Option (ℕ ⊎ List Interrupt)) [
                | none ↦ none
                | some parent ↦ some (elim (check_cells t (or_controller t parent)) [
                  | some e ↦ inl e
                  | none ↦
                      (if intr.len % 12 != 0
                        then inl t.err_badstate
                        else inr (
                            intr_entries intr.cell
                              (if ltb (intr.len / 12) len then intr.len / 12 else len) 0))
                ])
              ] in
            if intr.len == 0 then some (inl t.err_notfound) else parsed)
    ]
