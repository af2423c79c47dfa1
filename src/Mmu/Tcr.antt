-- ===== src/Mmu/Tcr.antt =====
-- src/include/mmu/mmu.h, the fields of TCR_EL1 (tcr_reg_t), and their values in src/kernel/mmu/mmu.c.
use kernelite.Mmu.Place.{Place, bits}
use kernelite.Base.{ℕ}

pub data TcrField : Type 0 where
  t0sz res0_6 epd0 irgn0 orgn0 sh0 tg0 t1sz a1 epd1 irgn1 orgn1 sh1 tg1 ips res0_35 as' tbi0 tbi1 ha
        hd hpd0 hpd1 hwu059 hwu060 hwu061 hwu062 hwu159 hwu160 hwu161 hwu162 tbid0 tbid1 nfd0 nfd1
        e0pd0 e0pd1 tcma0 tcma1 ds mtx0 mtx1 res0_63_62 :
      TcrField

abbrev pub tcr_place : TcrField → Place
tcr_place t0sz = bits 0 6
tcr_place res0_6 = bits 6 1
tcr_place epd0 = bits 7 1
tcr_place irgn0 = bits 8 2
tcr_place orgn0 = bits 10 2
tcr_place sh0 = bits 12 2
tcr_place tg0 = bits 14 2
tcr_place t1sz = bits 16 6
tcr_place a1 = bits 22 1
tcr_place epd1 = bits 23 1
tcr_place irgn1 = bits 24 2
tcr_place orgn1 = bits 26 2
tcr_place sh1 = bits 28 2
tcr_place tg1 = bits 30 2
tcr_place ips = bits 32 3
tcr_place res0_35 = bits 35 1
tcr_place as' = bits 36 1
tcr_place tbi0 = bits 37 1
tcr_place tbi1 = bits 38 1
tcr_place ha = bits 39 1
tcr_place hd = bits 40 1
tcr_place hpd0 = bits 41 1
tcr_place hpd1 = bits 42 1
tcr_place hwu059 = bits 43 1
tcr_place hwu060 = bits 44 1
tcr_place hwu061 = bits 45 1
tcr_place hwu062 = bits 46 1
tcr_place hwu159 = bits 47 1
tcr_place hwu160 = bits 48 1
tcr_place hwu161 = bits 49 1
tcr_place hwu162 = bits 50 1
tcr_place tbid0 = bits 51 1
tcr_place tbid1 = bits 52 1
tcr_place nfd0 = bits 53 1
tcr_place nfd1 = bits 54 1
tcr_place e0pd0 = bits 55 1
tcr_place e0pd1 = bits 56 1
tcr_place tcma0 = bits 57 1
tcr_place tcma1 = bits 58 1
tcr_place ds = bits 59 1
tcr_place mtx0 = bits 60 1
tcr_place mtx1 = bits 61 1
tcr_place res0_63_62 = bits 62 2

-- enum tcr_cacheability, tcr_shareability, tcr_tg0, tcr_tg1 and tcr_ips
abbrev pub tcr_cache_wb_ra_nwa : ℕ
tcr_cache_wb_ra_nwa = 3

abbrev pub tcr_sh_inner_shareable : ℕ
tcr_sh_inner_shareable = 3

abbrev pub tcr_tg0_4kb : ℕ
tcr_tg0_4kb = 0

abbrev pub tcr_tg1_4kb : ℕ
tcr_tg1_4kb = 2

abbrev pub tcr_ips_40bit : ℕ
tcr_ips_40bit = 2
