-- ===== src/Mmu/Sctlr.antt =====
-- src/kernel/mmu/mmu.c, the fields of SCTLR_EL1 (sctlr_el1_t).
use kernelite.Mmu.Place.{Place, bits}

pub data SctlrField : Type 0 where
  m a c sa sa0 cp15ben naa itd sed uma enrctx eos i endb dze uct ntwi res0_17 ntwe wxn tscxt iesb
        eis span e0e ee uci enda ntlsmd lsmaoe enib enia res0_34_32 bt0 bt1 itfsb tcf0 tcf ata0 ata
        dssbs tweden twedel res0_53_50 enasr enas0 enals epan res0_63_58 :
      SctlrField

abbrev pub sctlr_place : SctlrField → Place
sctlr_place m = bits 0 1
sctlr_place a = bits 1 1
sctlr_place c = bits 2 1
sctlr_place sa = bits 3 1
sctlr_place sa0 = bits 4 1
sctlr_place cp15ben = bits 5 1
sctlr_place naa = bits 6 1
sctlr_place itd = bits 7 1
sctlr_place sed = bits 8 1
sctlr_place uma = bits 9 1
sctlr_place enrctx = bits 10 1
sctlr_place eos = bits 11 1
sctlr_place i = bits 12 1
sctlr_place endb = bits 13 1
sctlr_place dze = bits 14 1
sctlr_place uct = bits 15 1
sctlr_place ntwi = bits 16 1
sctlr_place res0_17 = bits 17 1
sctlr_place ntwe = bits 18 1
sctlr_place wxn = bits 19 1
sctlr_place tscxt = bits 20 1
sctlr_place iesb = bits 21 1
sctlr_place eis = bits 22 1
sctlr_place span = bits 23 1
sctlr_place e0e = bits 24 1
sctlr_place ee = bits 25 1
sctlr_place uci = bits 26 1
sctlr_place enda = bits 27 1
sctlr_place ntlsmd = bits 28 1
sctlr_place lsmaoe = bits 29 1
sctlr_place enib = bits 30 1
sctlr_place enia = bits 31 1
sctlr_place res0_34_32 = bits 32 3
sctlr_place bt0 = bits 35 1
sctlr_place bt1 = bits 36 1
sctlr_place itfsb = bits 37 1
sctlr_place tcf0 = bits 38 2
sctlr_place tcf = bits 40 2
sctlr_place ata0 = bits 42 1
sctlr_place ata = bits 43 1
sctlr_place dssbs = bits 44 1
sctlr_place tweden = bits 45 1
sctlr_place twedel = bits 46 4
sctlr_place res0_53_50 = bits 50 4
sctlr_place enasr = bits 54 1
sctlr_place enas0 = bits 55 1
sctlr_place enals = bits 56 1
sctlr_place epan = bits 57 1
sctlr_place res0_63_58 = bits 58 6
