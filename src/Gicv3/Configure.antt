-- ===== src/Gicv3/Configure.antt =====
-- src/kernel/drivers/gicv3.c: the steps that configure one interrupt. The registers are a `Mem`,
-- the last word that was written to each address; the code reads back only registers that hold
-- what is written (groups and priorities). The enable registers are only written.
use kernelite.Base.{ℕ, ◌+◌, ◌-◌, ◌*◌, ◌/◌, ◌%◌, ◌^◌, bit_and, bit_or, Bool, true, false}
use kernelite.Base.{ltb, if◌then◌else◌, u32, Mem, store, ◌<<<◌}
use kernelite.Gicv3.Registers.{
  Memap, get_gicd_igroupr, get_gicd_igrpmodr, get_gicd_ipriorityr, get_gicd_irouter,
  get_gicd_isenabler, get_gicd_icenabler, get_gicr_isenabler0, get_gicr_icenabler0,
  get_gicr_igroupr0, get_gicr_igrpmodr0, get_gicr_ipriorityr,
}

-- A 32-bit register's value, and the three updates that the steps share: `|= 1U << k`,
-- `&= ~(1U << k)` and the write of a priority byte.
unfoldable pub raw : Mem → ℕ → ℕ
raw regs reg = u32 (regs reg)

unfoldable pub set_bit : ℕ → ℕ → Mem → Mem
set_bit reg k regs = store regs reg (bit_or (raw regs reg) (2 ^ k))

unfoldable pub clear_bit : ℕ → ℕ → Mem → Mem
clear_bit reg k regs = store regs reg (bit_and (raw regs reg) (2 ^ 32 - 1 - 2 ^ k))

unfoldable pub write_priority : ℕ → ℕ → ℕ → Mem → Mem
write_priority reg shift priority regs =
    store regs reg
      (bit_or (bit_and (raw regs reg) (2 ^ 32 - 1 - (0xFF <<< shift))) (priority <<< shift))

-- `if (!step()) return false;`, then the rest.
unfoldable pub and_then : Bool × Mem → (Mem → Bool × Mem) → Bool × Mem
and_then (ok, regs) rest = if ok then rest regs else (false, regs)

-- The word of a gicd_irouter_t: aff0, aff1 and aff2 from bit 0, irm (GICD_IRM_AFFINITY, 0)
-- in bit 31, aff3 from bit 32.
unfoldable pub router : ℕ → ℕ → ℕ → ℕ → ℕ
router aff0 aff1 aff2 aff3 =
    bit_and aff0 0xFF
    + (bit_and aff1 0xFF <<< 8)
    + (bit_and aff2 0xFF <<< 16)
    + (bit_and aff3 0xFF <<< 32)

module _ (memap : Memap) where
  unfoldable pub enable_sgi_ppi : ℕ → ℕ → Mem → Bool × Mem
  enable_sgi_ppi cpu intid regs =
      if ltb 31 intid
      then (false, regs)
      else (true, store regs (get_gicr_isenabler0 memap cpu) (2 ^ intid))

  unfoldable pub disable_sgi_ppi : ℕ → ℕ → Mem → Bool × Mem
  disable_sgi_ppi cpu intid regs =
      if ltb 31 intid
      then (false, regs)
      else (true, store regs (get_gicr_icenabler0 memap cpu) (2 ^ intid))

  unfoldable pub set_sgi_ppi_group1_ns : ℕ → ℕ → Mem → Bool × Mem
  set_sgi_ppi_group1_ns cpu intid regs =
      let regs' = set_bit (get_gicr_igroupr0 memap cpu) intid regs in
      if ltb 31 intid
      then (false, regs)
      else (true, clear_bit (get_gicr_igrpmodr0 memap cpu) intid regs')

  unfoldable pub clear_sgi_ppi_group : ℕ → ℕ → Mem → Bool × Mem
  clear_sgi_ppi_group cpu intid regs =
      let regs' = clear_bit (get_gicr_igroupr0 memap cpu) intid regs in
      if ltb 31 intid
      then (false, regs)
      else (true, clear_bit (get_gicr_igrpmodr0 memap cpu) intid regs')

  unfoldable pub set_sgi_ppi_priority : ℕ → ℕ → ℕ → Mem → Bool × Mem
  set_sgi_ppi_priority cpu intid priority regs =
      let reg = get_gicr_ipriorityr memap cpu (intid / 4) in
      if ltb 31 intid
      then (false, regs)
      else (true, write_priority reg (intid % 4 * 8) priority regs)

  unfoldable pub clear_sgi_ppi_priority : ℕ → ℕ → Mem → Bool × Mem
  unfolding set_sgi_ppi_priority
  clear_sgi_ppi_priority cpu intid regs =
      if ltb 31 intid then (false, regs) else set_sgi_ppi_priority cpu intid 0x00 regs

  unfoldable pub configure_sgi_ppi : ℕ → ℕ → ℕ → Mem → Bool × Mem
  unfolding and_then set_sgi_ppi_group1_ns set_sgi_ppi_priority enable_sgi_ppi
  configure_sgi_ppi cpu intid priority regs =
      and_then (set_sgi_ppi_group1_ns cpu intid regs) (λ regs.
        and_then (set_sgi_ppi_priority cpu intid priority regs)
          (λ regs. enable_sgi_ppi cpu intid regs))

  unfoldable pub unconfigure_sgi_ppi : ℕ → ℕ → Mem → Bool × Mem
  unfolding and_then disable_sgi_ppi clear_sgi_ppi_priority clear_sgi_ppi_group
  unconfigure_sgi_ppi cpu intid regs = and_then (disable_sgi_ppi cpu intid regs) (λ regs.
      and_then (clear_sgi_ppi_priority cpu intid regs) (λ regs. clear_sgi_ppi_group cpu intid regs))

  unfoldable pub enable_spi : ℕ → Mem → Bool × Mem
  enable_spi intid regs =
      if ltb intid 32
      then (false, regs)
      else (true, store regs (get_gicd_isenabler memap (intid / 32)) (2 ^ (intid % 32)))

  unfoldable pub disable_spi : ℕ → Mem → Bool × Mem
  disable_spi intid regs =
      if ltb intid 32
      then (false, regs)
      else (true, store regs (get_gicd_icenabler memap (intid / 32)) (2 ^ (intid % 32)))

  unfoldable pub set_spi_group1_ns : ℕ → Mem → Bool × Mem
  set_spi_group1_ns intid regs =
      let regs' = set_bit (get_gicd_igroupr memap (intid / 32)) (intid % 32) regs in
      if ltb intid 32
      then (false, regs)
      else (true, clear_bit (get_gicd_igrpmodr memap (intid / 32)) (intid % 32) regs')

  unfoldable pub clear_spi_group : ℕ → Mem → Bool × Mem
  clear_spi_group intid regs =
      let regs' = clear_bit (get_gicd_igroupr memap (intid / 32)) (intid % 32) regs in
      if ltb intid 32
      then (false, regs)
      else (true, clear_bit (get_gicd_igrpmodr memap (intid / 32)) (intid % 32) regs')

  unfoldable pub set_spi_priority : ℕ → ℕ → Mem → Bool × Mem
  set_spi_priority intid priority regs =
      let reg = get_gicd_ipriorityr memap (intid / 4) in
      if ltb intid 32
      then (false, regs)
      else (true, write_priority reg (intid % 4 * 8) priority regs)

  unfoldable pub clear_spi_priority : ℕ → Mem → Bool × Mem
  unfolding set_spi_priority
  clear_spi_priority intid regs =
      if ltb intid 32 then (false, regs) else set_spi_priority intid 0x00 regs

  unfoldable pub set_spi_route : ℕ → ℕ → ℕ → ℕ → ℕ → Mem → Bool × Mem
  unfolding router
  set_spi_route intid aff0 aff1 aff2 aff3 regs =
      if ltb intid 32
      then (false, regs)
      else (true, store regs (get_gicd_irouter memap intid) (router aff0 aff1 aff2 aff3))

  unfoldable pub clear_spi_route : ℕ → Mem → Bool × Mem
  clear_spi_route intid regs =
      if ltb intid 32 then (false, regs) else (true, store regs (get_gicd_irouter memap intid) 0)

  unfoldable pub configure_spi : ℕ → ℕ → ℕ → ℕ → ℕ → ℕ → Mem → Bool × Mem
  unfolding and_then set_spi_group1_ns set_spi_priority set_spi_route enable_spi
  configure_spi intid priority aff0 aff1 aff2 aff3 regs =
      and_then (set_spi_group1_ns intid regs) (λ regs.
        and_then (set_spi_priority intid priority regs) (λ regs.
          and_then (set_spi_route intid aff0 aff1 aff2 aff3 regs) (λ regs. enable_spi intid regs)))

  unfoldable pub unconfigure_spi : ℕ → Mem → Bool × Mem
  unfolding and_then disable_spi clear_spi_priority clear_spi_route clear_spi_group
  unconfigure_spi intid regs = and_then (disable_spi intid regs) (λ regs.
      and_then (clear_spi_priority intid regs)
        (λ regs. and_then (clear_spi_route intid regs) (λ regs. clear_spi_group intid regs)))
