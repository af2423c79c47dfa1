-- ===== src/Gicv3/Registers.antt =====
-- src/kernel/drivers/gicv3.c, the addresses of the registers. The file's variable `memap` is an argument.
use kernelite.Base.{ℕ, ◌+◌, ◌*◌, u32, u64}

pub record Memap : Type 0 where
  pub dist_base : ℕ
  pub redist_base : ℕ

unfoldable pub get_gicd_igroupr : Memap → ℕ → ℕ
get_gicd_igroupr memap n = u64 (memap.dist_base + 0x0080 + u32 (n * 4))

unfoldable pub get_gicd_igrpmodr : Memap → ℕ → ℕ
get_gicd_igrpmodr memap n = u64 (memap.dist_base + 0x0D00 + u32 (n * 4))

unfoldable pub get_gicd_ipriorityr : Memap → ℕ → ℕ
get_gicd_ipriorityr memap n = u64 (memap.dist_base + 0x0400 + u32 (n * 4))

unfoldable pub get_gicd_irouter : Memap → ℕ → ℕ
get_gicd_irouter memap intid = u64 (memap.dist_base + 0x6000 + u32 (intid * 8))

unfoldable pub get_gicd_isenabler : Memap → ℕ → ℕ
get_gicd_isenabler memap n = u64 (memap.dist_base + 0x0100 + u32 (n * 4))

unfoldable pub get_gicd_icenabler : Memap → ℕ → ℕ
get_gicd_icenabler memap n = u64 (memap.dist_base + 0x0180 + u32 (n * 4))

unfoldable pub get_redist_base : Memap → ℕ → ℕ
get_redist_base memap cpu_num = u64 (memap.redist_base + u64 (cpu_num * 0x20000))

unfoldable pub get_gicr_sgi_base : Memap → ℕ → ℕ
get_gicr_sgi_base memap cpu_num = u64 (get_redist_base memap cpu_num + 0x10000)

unfoldable pub get_gicr_isenabler0 : Memap → ℕ → ℕ
get_gicr_isenabler0 memap cpu_num = u64 (get_gicr_sgi_base memap cpu_num + 0x0100)

unfoldable pub get_gicr_icenabler0 : Memap → ℕ → ℕ
get_gicr_icenabler0 memap cpu_num = u64 (get_gicr_sgi_base memap cpu_num + 0x0180)

unfoldable pub get_gicr_igroupr0 : Memap → ℕ → ℕ
get_gicr_igroupr0 memap cpu_num = u64 (get_gicr_sgi_base memap cpu_num + 0x0080)

unfoldable pub get_gicr_igrpmodr0 : Memap → ℕ → ℕ
get_gicr_igrpmodr0 memap cpu_num = u64 (get_gicr_sgi_base memap cpu_num + 0x0D00)

unfoldable pub get_gicr_ipriorityr : Memap → ℕ → ℕ → ℕ
get_gicr_ipriorityr memap cpu_num n = u64 (get_gicr_sgi_base memap cpu_num + 0x0400 + u32 (n * 4))
