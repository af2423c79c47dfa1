-- ===== src/Tests/Interrupts.antt =====
-- Interrupts of one core, with the registers of QEMU's virt board.
use kernelite.Base.{
  ℕ, ◌+◌, ◌^◌, ◌≡◌, arith, some, none, Mem, refl, true, false, ◌==◌, if◌then◌else◌,
}
use kernelite.Bits.{bit}
use kernelite.Gicv3.Registers.{Memap, get_gicr_isenabler0, get_gicr_sgi_base, get_redist_base}
use kernelite.Gicv3.Configure.{configure_sgi_ppi}
use kernelite.Gicv3.Dispatch.{
  HandlerData, DispatchTable, gicv3_register_irq, gicv3_unregister_irq, gicv3_handle_irq,
}
use kernelite.Gicv3.Effects.{configure_sgi_ppi_lem, sgi_group, sgi_modifier, sgi_priority}
use kernelite.Gicv3.Startup.{CpuInterface, get_gicd_ctlr, get_gicr_waker, start_controller}
use kernelite.Gicv3.Wake.{Started, start_controller_lem}
use kernelite.Gicv3.Handlers.{handle_irq-register, handle_irq-unregister}

abbrev board : Memap
board = record { dist_base = 0xFFFF_0000_0800_0000; redist_base = 0xFFFF_0000_080A_0000 }

abbrev timer : HandlerData
timer = record { handler = 1; private_data = 7 }

abbrev empty_table : DispatchTable
empty_table n = none

abbrev count : HandlerData → ℕ → ℕ
count h s = s + h.private_data

configure_sgi_ppi_lem_example :
    let (ok, regs') = configure_sgi_ppi board 0 30 0xA0 (λ a. 0) in
    (ok ≡ true)
    × (sgi_group board 0 regs' 30 ≡ (if 30 == 30 then 1 else sgi_group board 0 (λ a. 0) 30))
    × (sgi_modifier board 0 regs' 30 ≡ (if 30 == 30 then 0 else sgi_modifier board 0 (λ a. 0) 30))
    × (sgi_priority board 0 regs' 30 5
        ≡ (if 30 == 30 then bit 5 0xA0 else sgi_priority board 0 (λ a. 0) 30 5))
    × (regs' (get_gicr_isenabler0 board 0) ≡ 2 ^ 30)
unfolding get_gicr_sgi_base get_redist_base
configure_sgi_ppi_lem_example =
    configure_sgi_ppi_lem board 0 (omega arith) 30 30 5 0xA0 (λ a. 0) (omega arith) (omega arith)
      (omega arith) (omega arith)

handle_irq-register_example :
    let (ok, (table', regs')) = gicv3_register_irq board 0 30 (some timer) (empty_table, λ a. 0) in
    (ok ≡ true)
    × (gicv3_handle_irq count 30 table' 5
        ≡ (if 30 == 30 then (12, some 30, false) else gicv3_handle_irq count 30 empty_table 5))
handle_irq-register_example =
    handle_irq-register count board 0 30 30 timer empty_table (λ a. 0) 5 (omega arith) (omega arith)

handle_irq-unregister_example :
    gicv3_handle_irq count 30 (gicv3_unregister_irq board 0 30 (empty_table, λ a. 0)).0 5
    ≡ (if 30 == 30 then (5, some 30, false) else gicv3_handle_irq count 30 empty_table 5)
handle_irq-unregister_example =
    handle_irq-unregister count board 0 30 30 empty_table (λ a. 0) 5 (omega arith) (omega arith)

abbrev reset : CpuInterface
reset = record {
  icc_sre_el1 = 6;
  icc_pmr_el1 = 0;
  icc_bpr1_el1 = 0;
  icc_ctlr_el1 = 0x402;
  icc_igrpen1_el1 = 0;
  daif = 0;
}

-- RWP is read as set twice; ChildrenAsleep is clear at the fourth read.
abbrev ctlr_reads : ℕ → ℕ
ctlr_reads n = if n == 2 then 0x32 else 0x8000_0032

abbrev waker_reads : ℕ → ℕ
waker_reads n = if n == 3 then 0 else 4

start_controller_lem_example :
    let st : Mem × CpuInterface = (λ a. 6, reset) in
    (st' : Mem × CpuInterface) × (start_controller ctlr_reads waker_reads 10 board 0 st ≡ some st')
    × Started board 0 st st'
unfolding get_gicd_ctlr get_gicr_waker get_redist_base
start_controller_lem_example =
    start_controller_lem ctlr_reads waker_reads 10 board 0 2 3 refl (omega arith) refl (omega arith)
      (omega arith) (λ a. 6, reset)
