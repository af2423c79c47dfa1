-- ===== src/Mmu/Outcome.antt =====
-- src/kernel/mmu/mmu.c: how the hardware is set up after enable_mmu, against the tables of PageTable.
use kernelite.Base.{ℕ, ◌-◌, ◌^◌, ◌<◌, ◌≡◌, ◌≢◌, true, refl, arith}
use kernelite.Base.{==_ne}
use kernelite.MemLayout.{va_to_pa}
use kernelite.PageTable.Layout.{PagePermissions, MemType, device, normal}
use kernelite.PageTable.Map.{leaf_desc}
use kernelite.Mmu.Place.{get, bits}
use kernelite.Mmu.Mair.{attr}
use kernelite.Mmu.Tcr.{tcr_place, t0sz, t1sz, tg0, tg1, epd0, epd1}
use kernelite.Mmu.Sctlr.{sctlr_place, m, a, c, i, ee}
use kernelite.Mmu.Enable.{SysRegs, enable_mmu, disable_ttbr0, mair_value, tcr_value, sctlr_value}

-- The attribute byte of the architecture for a type of memory: Device-nGnRnE, and Normal, inner and outer
-- write-back, not transient, with allocation on reads and writes.
abbrev pub attribute : MemType → ℕ
attribute device = 0x00
attribute normal = 0xFF

-- Registers that make the hardware walk the tables as they are built: each leaf selects the attribute of its memory
-- type; addresses of both halves have 48 bits, in pages of 4 KB (whose codes are 0 for the low half and 2 for the high); both
-- halves are walked, through write-back and inner shareable memory like that of the tables (codes 3, at the bits that the
-- architecture gives them), to physical addresses of 40 bits (code 2 of IPS, bits 34 to 32); the MMU and the caches are on, data is little-endian and alignment is not checked.
pub record Configured (r : SysRegs) : Type 0 where
  pub slots :
      (p : ℕ) (perms : PagePermissions) (mt : MemType)
      → attr (leaf_desc p perms mt).attr_indx r.mair_el1 ≡ attribute mt
  pub low_bits : 64 - get (tcr_place t0sz) r.tcr_el1 ≡ 48
  pub high_bits : 64 - get (tcr_place t1sz) r.tcr_el1 ≡ 48
  pub low_pages : get (tcr_place tg0) r.tcr_el1 ≡ 0
  pub high_pages : get (tcr_place tg1) r.tcr_el1 ≡ 2
  pub low_walked : get (tcr_place epd0) r.tcr_el1 ≡ 0
  pub high_walked : get (tcr_place epd1) r.tcr_el1 ≡ 0
  pub low_inner_cache : get (bits 8 2) r.tcr_el1 ≡ 3
  pub low_outer_cache : get (bits 10 2) r.tcr_el1 ≡ 3
  pub low_shared : get (bits 12 2) r.tcr_el1 ≡ 3
  pub high_inner_cache : get (bits 24 2) r.tcr_el1 ≡ 3
  pub high_outer_cache : get (bits 26 2) r.tcr_el1 ≡ 3
  pub high_shared : get (bits 28 2) r.tcr_el1 ≡ 3
  pub physical_bits : get (bits 32 3) r.tcr_el1 ≡ 2
  pub mmu_on : get (sctlr_place m) r.sctlr_el1 ≡ 1
  pub data_cache : get (sctlr_place c) r.sctlr_el1 ≡ 1
  pub code_cache : get (sctlr_place i) r.sctlr_el1 ≡ 1
  pub little_endian : get (sctlr_place ee) r.sctlr_el1 ≡ 0
  pub unchecked : get (sctlr_place a) r.sctlr_el1 ≡ 0

mair_value-slots :
    (p : ℕ) (perms : PagePermissions) (mt : MemType)
    → attr (leaf_desc p perms mt).attr_indx mair_value ≡ attribute mt
unfolding mair_value leaf_desc
mair_value-slots p perms device = refl
mair_value-slots p perms normal = refl

-- The five bits that change in SCTLR_EL1, and the runs of bits between them.
sctlr_value_lem :
    (v : ℕ)
    → v < 2 ^ 64
    → (get (bits 0 3) (sctlr_value v) ≡ 5)
      × (get (bits 3 9) (sctlr_value v) ≡ get (bits 3 9) v)
      × (get (bits 12 1) (sctlr_value v) ≡ 1)
      × (get (bits 13 12) (sctlr_value v) ≡ get (bits 13 12) v)
      × (get (bits 25 1) (sctlr_value v) ≡ 0)
      × (get (bits 26 38) (sctlr_value v) ≡ get (bits 26 38) v)
unfolding sctlr_value
sctlr_value_lem v small = omega arith

sctlr_value-flags :
    (v : ℕ)
    → v < 2 ^ 64
    → (get (sctlr_place m) (sctlr_value v) ≡ 1)
      × (get (sctlr_place a) (sctlr_value v) ≡ 0)
      × (get (sctlr_place c) (sctlr_value v) ≡ 1)
sctlr_value-flags v small = omega (arith, sctlr_value_lem v small)

-- enable_mmu on two roots that are not null, with SCTLR_EL1 a 64-bit word: it succeeds; the
-- registers make the hardware walk tables from these roots, at their physical addresses, in the
-- way that map_page builds them; and in SCTLR_EL1 only the bits M, A, C, I and EE may change.
pub enable_mmu_lem :
    (kernel_base_va id_map_root kernel_map_root : ℕ) (regs : SysRegs)
    → id_map_root ≢ 0
    → kernel_map_root ≢ 0
    → regs.sctlr_el1 < 2 ^ 64
    → let (ok, r) = enable_mmu kernel_base_va id_map_root kernel_map_root regs in
      (ok ≡ true)
      × Configured r
      × (r.ttbr0_el1 ≡ va_to_pa kernel_base_va id_map_root)
      × (r.ttbr1_el1 ≡ va_to_pa kernel_base_va kernel_map_root)
      × (get (bits 3 9) r.sctlr_el1 ≡ get (bits 3 9) regs.sctlr_el1)
      × (get (bits 13 12) r.sctlr_el1 ≡ get (bits 13 12) regs.sctlr_el1)
      × (get (bits 26 38) r.sctlr_el1 ≡ get (bits 26 38) regs.sctlr_el1)
unfolding enable_mmu tcr_value
enable_mmu_lem kernel_base_va id_map_root kernel_map_root regs low high small =
    let (_, second, fourth, third, fifth, rest) = sctlr_value_lem regs.sctlr_el1 small in
    let flags = sctlr_value-flags regs.sctlr_el1 small in
    rw (==_ne low, ==_ne high)
      (
        refl,
        record {
          slots = mair_value-slots;
          low_bits = refl;
          high_bits = refl;
          low_pages = refl;
          high_pages = refl;
          low_walked = refl;
          high_walked = refl;
          low_inner_cache = refl;
          low_outer_cache = refl;
          low_shared = refl;
          high_inner_cache = refl;
          high_outer_cache = refl;
          high_shared = refl;
          physical_bits = refl;
          mmu_on = flags.0;
          data_cache = flags.2;
          code_cache = fourth;
          little_endian = fifth;
          unchecked = flags.1;
        },
        refl,
        refl,
        second,
        third,
        rest,
      )

-- After the low map is turned off on 64-bit registers, a miss in the low half is a fault and its root is 0; every other bit of
-- TCR_EL1 and the other registers are as before.
pub disable_ttbr0_lem :
    (regs : SysRegs)
    → regs.tcr_el1 < 2 ^ 64
    → let r = disable_ttbr0 regs in
      (get (tcr_place epd0) r.tcr_el1 ≡ 1)
      × (get (bits 0 7) r.tcr_el1 ≡ get (bits 0 7) regs.tcr_el1)
      × (get (bits 8 56) r.tcr_el1 ≡ get (bits 8 56) regs.tcr_el1)
      × (r.ttbr0_el1 ≡ 0)
      × (r.ttbr1_el1 ≡ regs.ttbr1_el1)
      × (r.mair_el1 ≡ regs.mair_el1)
      × (r.sctlr_el1 ≡ regs.sctlr_el1)
unfolding disable_ttbr0
disable_ttbr0_lem regs small = omega arith
