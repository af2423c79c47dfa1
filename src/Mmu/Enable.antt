-- ===== src/Mmu/Enable.antt =====
-- src/kernel/mmu/mmu.c, enable_mmu, and how high_half_main of src/kernel/main.c turns the low map off. Barriers and
-- the invalidation of the TLB are left out.
use kernelite.Base.{ℕ, ◌-◌, Bool, true, false, ◌||◌, ◌==◌, if◌then◌else◌}
use kernelite.MemLayout.{va_to_pa}
use kernelite.Mmu.Place.{set}
use kernelite.Mmu.Mair.{
  device_place, normal_place, type, xs, inner_write_alloc, inner_read_alloc, inner_write_back,
  inner_non_transient, outer_write_alloc, outer_read_alloc, outer_write_back, outer_non_transient,
  device_ngnrne, slot,
}
use kernelite.Mmu.Tcr.{
  tcr_place, t0sz, irgn0, orgn0, sh0, tg0, t1sz, irgn1, orgn1, sh1, tg1, ips, epd0, epd1,
  tcr_cache_wb_ra_nwa, tcr_sh_inner_shareable, tcr_tg0_4kb, tcr_tg1_4kb, tcr_ips_40bit,
}
use kernelite.Mmu.Sctlr.{sctlr_place, m, a, c, i, ee}

-- The system registers that are written.
pub record SysRegs : Type 0 where
  pub mair_el1 : ℕ
  pub tcr_el1 : ℕ
  pub ttbr0_el1 : ℕ
  pub ttbr1_el1 : ℕ
  pub sctlr_el1 : ℕ

unfoldable pub mair_value : ℕ
mair_value =
    let v0 = set (slot 0 (device_place type)) device_ngnrne 0 in
    let v1 = set (slot 0 (device_place xs)) 0 v0 in
    let v2 = set (slot 1 (normal_place outer_non_transient)) 1 v1 in
    let v3 = set (slot 1 (normal_place outer_write_back)) 1 v2 in
    let v4 = set (slot 1 (normal_place outer_read_alloc)) 1 v3 in
    let v5 = set (slot 1 (normal_place outer_write_alloc)) 1 v4 in
    let v6 = set (slot 1 (normal_place inner_non_transient)) 1 v5 in
    let v7 = set (slot 1 (normal_place inner_write_back)) 1 v6 in
    let v8 = set (slot 1 (normal_place inner_read_alloc)) 1 v7 in
    set (slot 1 (normal_place inner_write_alloc)) 1 v8

unfoldable pub tcr_value : ℕ
tcr_value =
    let v0 = set (tcr_place t0sz) (64 - 48) 0 in
    let v1 = set (tcr_place irgn0) tcr_cache_wb_ra_nwa v0 in
    let v2 = set (tcr_place orgn0) tcr_cache_wb_ra_nwa v1 in
    let v3 = set (tcr_place sh0) tcr_sh_inner_shareable v2 in
    let v4 = set (tcr_place tg0) tcr_tg0_4kb v3 in
    let v5 = set (tcr_place t1sz) (64 - 48) v4 in
    let v6 = set (tcr_place irgn1) tcr_cache_wb_ra_nwa v5 in
    let v7 = set (tcr_place orgn1) tcr_cache_wb_ra_nwa v6 in
    let v8 = set (tcr_place sh1) tcr_sh_inner_shareable v7 in
    let v9 = set (tcr_place tg1) tcr_tg1_4kb v8 in
    let v10 = set (tcr_place ips) tcr_ips_40bit v9 in set (tcr_place epd1) 0 v10

unfoldable pub sctlr_value : ℕ → ℕ
sctlr_value v =
    let v1 = set (sctlr_place a) 0 v in
    let v2 = set (sctlr_place ee) 0 v1 in
    let v3 = set (sctlr_place m) 1 v2 in
    let v4 = set (sctlr_place c) 1 v3 in set (sctlr_place i) 1 v4

-- 0 is the null pointer.
unfoldable pub enable_mmu : ℕ → ℕ → ℕ → SysRegs → Bool × SysRegs
unfolding mair_value tcr_value sctlr_value
enable_mmu kernel_base_va id_map_root kernel_map_root regs =
    if (id_map_root == 0) || (kernel_map_root == 0) then (false, regs) else (
      true,
      record {
        mair_el1 = mair_value;
        tcr_el1 = tcr_value;
        ttbr0_el1 = va_to_pa kernel_base_va id_map_root;
        ttbr1_el1 = va_to_pa kernel_base_va kernel_map_root;
        sctlr_el1 = sctlr_value regs.sctlr_el1;
      },
    )

-- The statements of high_half_main that disable TTBR0.
unfoldable pub disable_ttbr0 : SysRegs → SysRegs
disable_ttbr0 regs = record regs { tcr_el1 = set (tcr_place epd0) 1 regs.tcr_el1; ttbr0_el1 = 0 }
