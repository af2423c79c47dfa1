-- ===== src/Gicv3/Handlers.antt =====
-- src/kernel/drivers/gicv3.c: which handler an interrupt reaches after registrations.
use kernelite.Base.{
  ℕ, ◌%◌, ◌^◌, ◌<◌, ◌≤◌, true, false, ◌||◌, Option, none, some, Mem, Bool-cases, inl, inr,
}
use kernelite.Base.{◌≡◌, refl, arith, ltb, leb, ◌==◌, if◌then◌else◌}
use kernelite.Gicv3.Registers.{Memap}
use kernelite.Gicv3.Configure.{configure_sgi_ppi, configure_spi}
use kernelite.Gicv3.Dispatch.{
  HandlerData, DispatchTable, set_entry, configure_irq, gicv3_register_irq, gicv3_unregister_irq,
  call_handler, gicv3_handle_irq,
}

pub configure_irq_succeeds :
    (memap : Memap) (core irq : ℕ) (regs : Mem) → (configure_irq memap core irq regs).0 ≡ true
unfolding configure_irq configure_sgi_ppi configure_spi
configure_irq_succeeds memap core irq regs = elim (Bool-cases (ltb irq 32)) [
  | inl low ↦ let small : ltb 31 irq ≡ false = ground arith in rw (low, small) refl
  | inr high ↦ rw high refl
]

module _ {S : Type 0} (run : HandlerData → S → S) (memap : Memap) (core : ℕ) where
  handled :
      (n : ℕ) (table : DispatchTable) (s : S)
      → n < 1020
      → gicv3_handle_irq run n table s ≡ (call_handler run (table n) s, some n, false)
  unfolding gicv3_handle_irq
  handled n table s h =
      let id : n % 2 ^ 24 ≡ n = omega arith in
      let a : ((n == 1023) || (n == 1022)) ≡ false = ground arith in
      let b : leb 1024 n ≡ false = ground arith in rw (id, a, b) refl

  handled-set_entry :
      (irq n : ℕ) (entry : Option HandlerData) (table : DispatchTable) (s : S)
      → n < 1020
      → gicv3_handle_irq run n (set_entry irq entry table) s ≡ (
          if n == irq
          then (call_handler run entry s, some n, false)
          else gicv3_handle_irq run n table s)
  unfolding set_entry
  handled-set_entry irq n entry table s h =
      rw (handled n (set_entry irq entry table) s h, handled n table s h)
        (elim (Bool-cases (n == irq)) [ inl e ↦ rw e refl | inr e ↦ rw e refl ])

  -- Registering a handler for an interrupt below 1020 succeeds, whatever the table held for it;
  -- then this interrupt, acknowledged, runs the handler and is ended, and every other
  -- interrupt below 1020 is handled as before.
  pub handle_irq-register :
      (irq n : ℕ) (h : HandlerData) (table : DispatchTable) (regs : Mem) (s : S)
      → irq < 1020
      → n < 1020
      → let (ok, (table', regs')) = gicv3_register_irq memap core irq (some h) (table, regs) in
        (ok ≡ true)
        × (gicv3_handle_irq run n table' s
            ≡ (if n == irq then (run h s, some n, false) else gicv3_handle_irq run n table s))
  unfolding gicv3_register_irq call_handler
  handle_irq-register irq n h table regs s hi hn =
      let b : leb 1024 irq ≡ false = ground arith in
      rw (b, configure_irq_succeeds memap core irq regs)
        (refl, handled-set_entry irq n (some h) table s hn)

  -- After an interrupt below 1020 is unregistered, an acknowledged interrupt below 1020 runs nothing
  -- if it is this one, but is ended still; every other one is handled as before.
  pub handle_irq-unregister :
      (irq n : ℕ) (table : DispatchTable) (regs : Mem) (s : S)
      → irq < 1020
      → n < 1020
      → gicv3_handle_irq run n (gicv3_unregister_irq memap core irq (table, regs)).0 s
        ≡ (if n == irq then (s, some n, false) else gicv3_handle_irq run n table s)
  unfolding gicv3_unregister_irq call_handler
  handle_irq-unregister irq n table regs s hi hn =
      let b : leb 1024 irq ≡ false = ground arith in rw b (handled-set_entry irq n none table s hn)

-- A number from 1024 on changes neither the table nor a register, in both operations, and the
-- registration reports the failure.
register_unregister-out_of_range :
    (memap : Memap) (core irq : ℕ) (h : Option HandlerData) (table : DispatchTable) (regs : Mem)
    → 1024 ≤ irq
    → (gicv3_register_irq memap core irq h (table, regs) ≡ (false, (table, regs)))
      × (gicv3_unregister_irq memap core irq (table, regs) ≡ (table, regs))
unfolding gicv3_register_irq gicv3_unregister_irq
register_unregister-out_of_range memap core irq h table regs big =
    let b : leb 1024 irq ≡ true = ground arith in rw b (refl, refl)
