-- ===== src/Gicv3/Dispatch.antt =====
-- src/kernel/drivers/gicv3.c: registration of handlers and the interrupt handler.
-- What the handlers do is a parameter, and so is the acknowledged interrupt; `get_core_id()` is `core`.
use kernelite.Base.{ℕ, ◌^◌, ◌%◌, Bool, true, false, ◌||◌, Option, none, some}
use kernelite.Base.{ltb, leb, ◌==◌, if◌then◌else◌, Mem}
use kernelite.Gicv3.Registers.{Memap}
use kernelite.Gicv3.Configure.{
  configure_sgi_ppi, configure_spi, unconfigure_sgi_ppi, unconfigure_spi,
}

abbrev pub max_int_id : ℕ
max_int_id = 1024

-- A handler (by name) with its private data.
pub record HandlerData : Type 0 where
  pub handler : ℕ
  pub private_data : ℕ

-- `dispatch_table`: an entry with the null handler is `none`.
abbrev pub DispatchTable : Type 0
DispatchTable = ℕ → Option HandlerData

unfoldable pub set_entry : ℕ → Option HandlerData → DispatchTable → DispatchTable
set_entry irq_num entry table n = if n == irq_num then entry else table n

module _ (memap : Memap) (core : ℕ) where
  -- Sets up an interrupt the way its number asks for.
  unfoldable pub configure_irq : ℕ → Mem → Bool × Mem
  configure_irq irq_num regs =
      if ltb irq_num 32
      then configure_sgi_ppi memap core irq_num 0xA0 regs
      else configure_spi memap irq_num 0xA0 0 0 0 0 regs

  unfoldable pub gicv3_register_irq :
      ℕ → Option HandlerData → DispatchTable × Mem → Bool × (DispatchTable × Mem)
  unfolding configure_irq set_entry
  gicv3_register_irq irq_num handler_data (table, regs) =
      let (ok, regs') = configure_irq irq_num regs in
      if leb max_int_id irq_num
      then (false, (table, regs))
      else if ok
      then (true, (set_entry irq_num handler_data table, regs'))
      else (false, (table, regs'))

  unfoldable pub gicv3_unregister_irq : ℕ → DispatchTable × Mem → DispatchTable × Mem
  unfolding set_entry
  gicv3_unregister_irq irq_num (table, regs) =
      let (_, regs') =
        if ltb irq_num 32
        then unconfigure_sgi_ppi memap core irq_num regs
        else unconfigure_spi memap irq_num regs in
      if leb max_int_id irq_num then (table, regs) else (set_entry irq_num none table, regs')

-- `run` is a handler's effect on the rest of the system. The result has the word written to
-- ICC_EOIR1_EL1, if one is, and whether the exceptions are unmasked.
module _ {S : Type 0} (run : HandlerData → S → S) where
  unfoldable pub call_handler : Option HandlerData → S → S
  call_handler none s = s
  call_handler (some h) s = run h s

  unfoldable pub gicv3_handle_irq : ℕ → DispatchTable → S → S × Option ℕ × Bool
  unfolding call_handler
  gicv3_handle_irq iar table s =
      let intid = iar % 2 ^ 24 in
      if (intid == 1023) || (intid == 1022)
      then (s, none, true)
      else if leb max_int_id intid
      then (s, none, true)
      else (call_handler (table intid) s, some intid, false)
