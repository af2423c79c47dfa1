-- ===== src/Gicv3/Startup.antt =====
-- src/kernel/drivers/gicv3.c and src/kernel/icu/icu.c: the start-up of the controller. What the hardware answers while a loop waits for it is a function of
-- the number of the read; barriers and what is printed are left out, and `core` is get_core_id().
use kernelite.Base.{ℕ, zero, suc, ◌+◌, ◌-◌, bit_and, Bool, true, false, Option, none, some, []}
use kernelite.Base.{◌∷◌, ◌!=◌, if◌then◌else◌, u64, Mem, store}
use kernelite.MemLayout.{pa_to_va}
use kernelite.Mmu.Place.{Place, bits, get, set}
use kernelite.PageTable.Layout.{PagePermissions, device}
use kernelite.Fdt.Tree.{Fdt, get_intc_node_offset, fdt_is_error}
use kernelite.Fdt.Memory.{MemoryRegion, MemoryMap, get_reg_property}
use kernelite.Gicv3.Registers.{Memap, get_redist_base}
use kernelite.Gicv3.Configure.{raw}
use kernelite.Gicv3.Window.{map_continuous}

unfoldable pub get_gicd_ctlr : Memap → ℕ
get_gicd_ctlr memap = u64 (memap.dist_base + 0x0000)

unfoldable pub get_gicr_waker : Memap → ℕ → ℕ
get_gicr_waker memap cpu_num = u64 (get_redist_base memap cpu_num + 0x0014)

-- gicd_ctlr_t
pub data GicdCtlr : Type 0 where
  enable_grp0 enable_grp1ns enable_grp1s res0 are_s are_ns ds e1nwf res1 rwp : GicdCtlr

abbrev pub gicd_ctlr_place : GicdCtlr → Place
gicd_ctlr_place enable_grp0 = bits 0 1
gicd_ctlr_place enable_grp1ns = bits 1 1
gicd_ctlr_place enable_grp1s = bits 2 1
gicd_ctlr_place res0 = bits 3 1
gicd_ctlr_place are_s = bits 4 1
gicd_ctlr_place are_ns = bits 5 1
gicd_ctlr_place ds = bits 6 1
gicd_ctlr_place e1nwf = bits 7 1
gicd_ctlr_place res1 = bits 8 23
gicd_ctlr_place rwp = bits 31 1

-- gicr_waker_t, without the reserved bits
pub data GicrWaker : Type 0 where
  impl_defined_0 processor_sleep children_asleep impl_defined_31 : GicrWaker

abbrev pub gicr_waker_place : GicrWaker → Place
gicr_waker_place impl_defined_0 = bits 0 1
gicr_waker_place processor_sleep = bits 1 1
gicr_waker_place children_asleep = bits 2 1
gicr_waker_place impl_defined_31 = bits 31 1

-- The registers of the CPU interface, and the mask bits of DAIF.
pub record CpuInterface : Type 0 where
  pub icc_sre_el1 : ℕ
  pub icc_pmr_el1 : ℕ
  pub icc_bpr1_el1 : ℕ
  pub icc_ctlr_el1 : ℕ
  pub icc_igrpen1_el1 : ℕ
  pub daif : ℕ

-- `while (busy) ;` from read `i` on: the read that ends it; `none` is no fuel left.
unfoldable pub poll : (ℕ → Bool) → ℕ → ℕ → Option ℕ
poll busy zero i = none
poll busy (suc fuel) i = let rest = poll busy fuel (i + 1) in if busy i then rest else some i

unfoldable pub enable_icc_sys_reg_interface : CpuInterface → CpuInterface
enable_icc_sys_reg_interface c = record c { icc_sre_el1 = set (bits 0 1) 1 c.icc_sre_el1 }

unfoldable pub set_core_priority_threshold : ℕ → CpuInterface → CpuInterface
set_core_priority_threshold threshold c = record c { icc_pmr_el1 = set (bits 0 8) threshold 0 }

unfoldable pub unmask_all_core_interrupts : CpuInterface → CpuInterface
unfolding set_core_priority_threshold
unmask_all_core_interrupts c = set_core_priority_threshold 0xFF c

unfoldable pub mask_all_core_interrupts : CpuInterface → CpuInterface
unfolding set_core_priority_threshold
mask_all_core_interrupts c = set_core_priority_threshold 0x00 c

unfoldable pub set_core_binary_point : ℕ → CpuInterface → CpuInterface
set_core_binary_point binary_point c = record c {
  icc_bpr1_el1 = set (bits 0 3) (bit_and binary_point 0x7) 0;
}

-- `pri_bits` has three bits, so the difference does not wrap.
unfoldable pub set_core_min_binary_point : CpuInterface → CpuInterface
unfolding set_core_binary_point
set_core_min_binary_point c = set_core_binary_point (7 - get (bits 8 3) c.icc_ctlr_el1) c

unfoldable pub set_combined_eoi_mode : CpuInterface → CpuInterface
set_combined_eoi_mode c = record c { icc_ctlr_el1 = set (bits 1 1) 0 c.icc_ctlr_el1 }

unfoldable pub enable_grp1_interrupts : CpuInterface → CpuInterface
enable_grp1_interrupts c = record c { icc_igrpen1_el1 = set (bits 0 1) 1 c.icc_igrpen1_el1 }

unfoldable pub unmask_all_exceptions : CpuInterface → CpuInterface
unmask_all_exceptions c = record c { daif = 0 }

unfoldable pub mask_all_exceptions : CpuInterface → CpuInterface
mask_all_exceptions c = record c { daif = 0xF }

-- From enable_icc_sys_reg_interface to the end of gicv3_init.
unfoldable pub start_cpu_interface : CpuInterface → CpuInterface
unfolding enable_icc_sys_reg_interface mask_all_core_interrupts unmask_all_core_interrupts
    set_core_min_binary_point set_combined_eoi_mode enable_grp1_interrupts unmask_all_exceptions
start_cpu_interface c = unmask_all_exceptions (
    enable_grp1_interrupts (
      set_combined_eoi_mode (
        set_core_min_binary_point (
          unmask_all_core_interrupts (mask_all_core_interrupts (enable_icc_sys_reg_interface c))))))

-- The values that are read from GICD_CTLR and GICR_WAKER by the two loops.
module _ (ctlr_reads waker_reads : ℕ → ℕ) (fuel : ℕ) (memap : Memap) where
  unfoldable pub set_up_gicd_ctrl : Mem → Option Mem
  unfolding poll
  set_up_gicd_ctrl regs =
      let reg = get_gicd_ctlr memap in
      let v1 = set (gicd_ctlr_place enable_grp1ns) 1 (raw regs reg) in
      let v2 = set (gicd_ctlr_place are_ns) 1 v1 in
      let v3 = set (gicd_ctlr_place are_s) 1 v2 in
      elim (poll (λ i. get (gicd_ctlr_place rwp) (ctlr_reads i) != 0) fuel 0) [
        | none ↦ none
        | some i ↦ some (store regs reg v3)
      ]

  unfoldable pub set_gicr_waker : ℕ → Mem → Option Mem
  unfolding poll
  set_gicr_waker cpu_num regs =
      let reg = get_gicr_waker memap cpu_num in
      let v = set (gicr_waker_place processor_sleep) 0 (raw regs reg) in
      elim (poll (λ i. get (gicr_waker_place children_asleep) (waker_reads i) != 0) fuel 0) [
        | none ↦ none
        | some i ↦ some (store regs reg v)
      ]

  -- From mask_all_exceptions to the end of gicv3_init.
  unfoldable pub start_controller : ℕ → Mem × CpuInterface → Option (Mem × CpuInterface)
  unfolding set_up_gicd_ctrl set_gicr_waker start_cpu_interface mask_all_exceptions
  start_controller core (regs, c) = elim (set_up_gicd_ctrl regs) [
    | none ↦ none
    | some regs' ↦ elim (set_gicr_waker core regs') [
      | none ↦ none
      | some regs'' ↦ some (regs'', start_cpu_interface (mask_all_exceptions c))
    ]
  ]

-- The two register windows that gicv3_init wants.
unfoldable pub two_regions : MemoryMap → Option (MemoryRegion × MemoryRegion)
two_regions [] = none
two_regions (dist ∷ []) = none
two_regions (dist ∷ redist ∷ []) = some (dist, redist)
two_regions (dist ∷ redist ∷ more ∷ rest) = none

abbrev pub window_perms : PagePermissions
window_perms = record { read = true; write = true; execute = false; user_accessible = false }

-- The variable `memap`, the page tables, the registers and the CPU interface.
pub record Controller (S : Type 0) : Type 0 where
  pub memap : Memap
  pub tables : S × Mem
  pub regs : Mem
  pub cpu : CpuInterface

module _ (kernel_base_va : ℕ) {S : Type 0} (page_alloc : S → ℕ × S) (root err_internal : ℕ)
    (ctlr_reads waker_reads : ℕ → ℕ) (fuel core : ℕ) where
  -- The mapping of one window; a failure is only reported.
  unfoldable pub map_window : MemoryRegion → S × Mem → Option (S × Mem)
  map_window r st =
      elim (map_continuous kernel_base_va page_alloc root window_perms device fuel r.base
        (pa_to_va kernel_base_va r.base) r.size st) [ none ↦ none | some (ok, st') ↦ some st' ]

  -- From the point where the windows are known.
  unfoldable pub init_windows : MemoryRegion → MemoryRegion → Controller S → Option (Controller S)
  unfolding map_window start_controller
  init_windows dist redist g =
      let memap : Memap = record {
        dist_base = pa_to_va kernel_base_va dist.base;
        redist_base = pa_to_va kernel_base_va redist.base;
      } in
      elim (map_window dist g.tables) [
        | none ↦ none
        | some st ↦ elim (map_window redist st) [
          | none ↦ none
          | some st' ↦
              elim (start_controller ctlr_reads waker_reads fuel memap core (g.regs, g.cpu)) [
                | none ↦ none
                | some (regs, cpu) ↦
                    some (record { memap = memap; tables = st'; regs = regs; cpu = cpu })
              ]
        ]
      ]

  unfoldable pub gicv3_init : Fdt → Controller S → Option (Controller S)
  unfolding init_windows two_regions
  gicv3_init fdt g =
      let node = get_intc_node_offset err_internal fdt in
      let (ok, reg_map) = get_reg_property err_internal fdt node [] in
      if fdt_is_error node
      then some g
      else if ok
      then elim (two_regions reg_map) [
        | none ↦ some g
        | some (dist, redist) ↦ init_windows dist redist g
      ]
      else some g
