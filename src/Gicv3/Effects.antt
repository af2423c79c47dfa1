-- ===== src/Gicv3/Effects.antt =====
-- src/kernel/drivers/gicv3.c: what configuring one interrupt does to the settings of all.
use native.Mathlib.Decide.{ℕ_discrete}
use kernelite.Base.{
  ℕ, ◌+◌, ◌-◌, ◌*◌, ◌/◌, ◌%◌, ◌^◌, ◌≤◌, ◌<◌, true, false, Mem, store, store_self, store_ne,
}
use kernelite.Base.{◌≡◌, ◌≢◌, refl, ap, ◌∙◌, sym, arith, ltb, ◌==◌, if◌then◌else◌}
use kernelite.Bits.{bit}
use kernelite.Gicv3.Registers.{
  Memap, get_gicr_sgi_base, get_gicr_isenabler0, get_gicr_igroupr0, get_gicr_igrpmodr0,
  get_gicr_ipriorityr,
}
use kernelite.Gicv3.Configure.{raw, set_bit, clear_bit, write_priority, configure_sgi_ppi}
use kernelite.Gicv3.Lanes.{bit-set_bit, bit-clear_bit, bit-write_priority}

-- A write to one register leaves the others.
raw-store_ne : (regs : Mem) (reg v x : ℕ) → x ≢ reg → raw (store regs reg v) x ≡ raw regs x
unfolding raw
raw-store_ne regs reg v x h = ap (λ (w : ℕ). w % 2 ^ 32) (store_ne regs reg v x h)

-- A priority is written through a family of registers, four interrupts to each.
written_priority :
    (reg_of : ℕ → ℕ) (regs : Mem) (intid j k p : ℕ)
    → k < 8
    → p < 2 ^ 8
    → (j / 4 ≢ intid / 4 → reg_of (j / 4) ≢ reg_of (intid / 4))
    → bit
        (j % 4 * 8 + k)
        (raw (write_priority (reg_of (intid / 4)) (intid % 4 * 8) p regs) (reg_of (j / 4)))
      ≡ (if j == intid then bit k p else bit (j % 4 * 8 + k) (raw regs (reg_of (j / 4))))
unfolding write_priority
written_priority reg_of regs intid j k p hk hp apart = elim (ℕ_discrete (j / 4) (intid / 4)) [
  | yes e ↦ rw e (
      bit-write_priority (reg_of (intid / 4)) regs (j % 4 * 8 + k) (omega arith) (intid % 4 * 8) p
        (omega arith) hp
      ∙ elim (ℕ_discrete j intid) [
        | yes eq ↦
            let at : j % 4 * 8 + k - intid % 4 * 8 ≡ k = omega (arith, eq) in
            let lane : j % 4 ≡ intid % 4 = ap (λ (n : ℕ). n % 4) eq in rw at (ground arith)
        | no ne ↦ ground arith
      ])
  | no ne ↦
      ap (bit (j % 4 * 8 + k)) (raw-store_ne regs _ _ (reg_of (j / 4)) (apart ne)) ∙ ground arith
]

-- The settings of an SGI or PPI on one core: group and modifier bit, and bit `k` of its priority.
module _ (memap : Memap) (cpu : ℕ) where
  unfoldable pub sgi_group : Mem → ℕ → ℕ
  sgi_group regs j = bit j (raw regs (get_gicr_igroupr0 memap cpu))

  unfoldable pub sgi_modifier : Mem → ℕ → ℕ
  sgi_modifier regs j = bit j (raw regs (get_gicr_igrpmodr0 memap cpu))

  unfoldable pub sgi_priority : Mem → ℕ → ℕ → ℕ
  sgi_priority regs j k = bit (j % 4 * 8 + k) (raw regs (get_gicr_ipriorityr memap cpu (j / 4)))

  module _ (fits : get_gicr_sgi_base memap cpu + 0x10000 ≤ 2 ^ 64) where
    group_enable : get_gicr_igroupr0 memap cpu ≢ get_gicr_isenabler0 memap cpu
    unfolding get_gicr_igroupr0 get_gicr_isenabler0
    group_enable e = omega arith

    group_modifier : get_gicr_igroupr0 memap cpu ≢ get_gicr_igrpmodr0 memap cpu
    unfolding get_gicr_igroupr0 get_gicr_igrpmodr0
    group_modifier e = omega arith

    modifier_enable : get_gicr_igrpmodr0 memap cpu ≢ get_gicr_isenabler0 memap cpu
    unfolding get_gicr_igrpmodr0 get_gicr_isenabler0
    modifier_enable e = omega arith

    group_priority : (n : ℕ) → n < 8 → get_gicr_igroupr0 memap cpu ≢ get_gicr_ipriorityr memap cpu n
    unfolding get_gicr_igroupr0 get_gicr_ipriorityr
    group_priority n h e = omega arith

    modifier_priority :
        (n : ℕ) → n < 8 → get_gicr_igrpmodr0 memap cpu ≢ get_gicr_ipriorityr memap cpu n
    unfolding get_gicr_igrpmodr0 get_gicr_ipriorityr
    modifier_priority n h e = omega arith

    enable_priority :
        (n : ℕ) → n < 8 → get_gicr_isenabler0 memap cpu ≢ get_gicr_ipriorityr memap cpu n
    unfolding get_gicr_isenabler0 get_gicr_ipriorityr
    enable_priority n h e = omega arith

    priority_priority :
        (n m : ℕ)
        → n < 8
        → m < 8
        → n ≢ m
        → get_gicr_ipriorityr memap cpu n ≢ get_gicr_ipriorityr memap cpu m
    unfolding get_gicr_ipriorityr
    priority_priority n m h g ne e = omega arith

    configured :
        (intid p : ℕ) (regs : Mem)
        → intid < 32
        → configure_sgi_ppi memap cpu intid p regs ≡ (
          true,
          store
              (write_priority (get_gicr_ipriorityr memap cpu (intid / 4)) (intid % 4 * 8) p (
                clear_bit
                  (get_gicr_igrpmodr0 memap cpu)
                  intid
                  (set_bit (get_gicr_igroupr0 memap cpu) intid regs)))
              (get_gicr_isenabler0 memap cpu)
              (2 ^ intid),
        )
    unfolding configure_sgi_ppi
    configured intid p regs h = let small : ltb 31 intid ≡ false = ground arith in rw small refl

    -- configure_sgi_ppi on an interrupt below 32, when the frame of the core does not wrap: the
    -- call succeeds; of all interrupts exactly this one is put in group 1 non-secure and gets
    -- the priority, bit by bit, and the word that enables it alone is written.
    pub configure_sgi_ppi_lem :
        (intid j k p : ℕ) (regs : Mem)
        → intid < 32
        → j < 32
        → k < 8
        → p < 2 ^ 8
        → let (ok, regs') = configure_sgi_ppi memap cpu intid p regs in
          (ok ≡ true)
          × (sgi_group regs' j ≡ (if j == intid then 1 else sgi_group regs j))
          × (sgi_modifier regs' j ≡ (if j == intid then 0 else sgi_modifier regs j))
          × (sgi_priority regs' j k ≡ (if j == intid then bit k p else sgi_priority regs j k))
          × (regs' (get_gicr_isenabler0 memap cpu) ≡ 2 ^ intid)
    unfolding configure_sgi_ppi set_bit clear_bit write_priority sgi_group sgi_modifier sgi_priority
    configure_sgi_ppi_lem intid j k p regs hi hj hk hp =
        let pr = get_gicr_ipriorityr memap cpu (intid / 4) in
        let m0 = set_bit (get_gicr_igroupr0 memap cpu) intid regs in
        let m1 = clear_bit (get_gicr_igrpmodr0 memap cpu) intid m0 in
        let m2 = write_priority pr (intid % 4 * 8) p m1 in
        rw (configured intid p regs hi) (
          refl,
          ap (bit j) (
                raw-store_ne m2 _ _ _ group_enable
                ∙ raw-store_ne m1 _ _ _ (group_priority (intid / 4) (omega arith))
                ∙ raw-store_ne m0 _ _ _ group_modifier)
              ∙ bit-set_bit (get_gicr_igroupr0 memap cpu) regs j hj intid,
          ap (bit j) (
                raw-store_ne m2 _ _ _ modifier_enable
                ∙ raw-store_ne m1 _ _ _ (modifier_priority (intid / 4) (omega arith)))
              ∙ bit-clear_bit (get_gicr_igrpmodr0 memap cpu) m0 j hj intid hi
              ∙ ap (λ r. if j == intid then 0 else bit j r)
                  (raw-store_ne regs _ _ _ (λ e. group_modifier (sym e))),
          ap (bit (j % 4 * 8 + k))
                (raw-store_ne m2 _ _ _ (λ e. enable_priority (j / 4) (omega arith) (sym e)))
              ∙ written_priority (get_gicr_ipriorityr memap cpu) m1 intid j k p hk hp
                  (priority_priority (j / 4) (intid / 4) (omega arith) (omega arith))
              ∙ ap (λ r. if j == intid then bit k p else bit (j % 4 * 8 + k) r)
                  (raw-store_ne m0 _ _ _ (λ e. modifier_priority (j / 4) (omega arith) (sym e))
                    ∙ raw-store_ne regs _ _ _ (λ e. group_priority (j / 4) (omega arith) (sym e))),
          store_self m2 _ _,
        )
