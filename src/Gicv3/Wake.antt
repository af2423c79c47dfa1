-- ===== src/Gicv3/Wake.antt =====
-- src/kernel/drivers/gicv3.c: the state of the controller after its start-up.
use kernelite.Base.{ℕ, zero, suc, ◌+◌, ◌-◌, ◌^◌, ◌≤◌, ◌<◌, ◌≡◌, ◌≢◌, refl, ap, ◌∙◌}
use kernelite.Base.{arith, Bool, false, Bool-cases, inl, inr, some, ◌!=◌}
use kernelite.Base.{Mem, store, store_self, store_ne, u32}
use mathlib.Core.Path.{subst, sym}
use kernelite.Bits.{bit_and_mask}
use native.Mathlib.Decide.{ℕ_discrete}
use kernelite.Mmu.Place.{bits, get, set}
use kernelite.Gicv3.Registers.{Memap}
use kernelite.Gicv3.Configure.{raw}
use kernelite.Gicv3.Startup.{
  CpuInterface, poll, gicd_ctlr_place, gicr_waker_place, enable_grp1ns, are_s, are_ns, rwp,
  processor_sleep, children_asleep, get_gicd_ctlr, get_gicr_waker, start_controller,
  start_cpu_interface, set_up_gicd_ctrl, set_gicr_waker, mask_all_exceptions,
}

-- The loop ends at or before a read that is not busy.
poll-some :
    (busy : ℕ → Bool) (fuel i n : ℕ)
    → busy n ≡ false
    → i ≤ n
    → n < i + fuel
    → (k : ℕ) × (poll busy fuel i ≡ some k)
unfolding poll
poll-some busy zero i n idle low enough = absurd (omega arith)
poll-some busy (suc fuel) i n idle low enough = elim (Bool-cases (busy i)) [
  | inr done ↦ (i, rw done refl)
  | inl more ↦ elim (ℕ_discrete i n) [
    | yes here ↦ let e : busy i ≡ false = ap busy here ∙ idle in absurd (cc)
    | no later ↦
        let (k, q) = poll-some busy fuel (i + 1) n idle (omega arith) (omega arith) in
        (k, rw more q)
  ]
]

-- GICD_CTLR after the write, from its value before.
pub record Enabled (before after : ℕ) : Type 0 where
  pub group1 : get (gicd_ctlr_place enable_grp1ns) after ≡ 1
  pub routed : get (bits 4 2) after ≡ 3
  pub low : get (bits 0 1) after ≡ get (bits 0 1) before
  pub middle : get (bits 2 2) after ≡ get (bits 2 2) before
  pub high : get (bits 6 26) after ≡ get (bits 6 26) before

-- GICR_WAKER after the write.
pub record Awake (before after : ℕ) : Type 0 where
  pub running : get (gicr_waker_place processor_sleep) after ≡ 0
  pub low : get (bits 0 1) after ≡ get (bits 0 1) before
  pub high : get (bits 2 30) after ≡ get (bits 2 30) before

-- The CPU interface takes interrupts of group 1 and of any priority.
pub record Open (before after : CpuInterface) : Type 0 where
  pub system_registers : get (bits 0 1) after.icc_sre_el1 ≡ 1
  pub threshold : after.icc_pmr_el1 ≡ 0xFF
  pub binary_point : after.icc_bpr1_el1 ≡ 7 - get (bits 8 3) before.icc_ctlr_el1
  pub eoi_mode : get (bits 1 1) after.icc_ctlr_el1 ≡ 0
  pub group1 : get (bits 0 1) after.icc_igrpen1_el1 ≡ 1
  pub unmasked : after.daif ≡ 0

start_cpu_interface-Open : (c : CpuInterface) → Open c (start_cpu_interface (mask_all_exceptions c))
unfolding start_cpu_interface mask_all_exceptions
start_cpu_interface-Open c = record {
  system_registers = omega arith;
  threshold = refl;
  binary_point = omega (arith, bit_and_mask 3 (7 - get (bits 8 3) c.icc_ctlr_el1));
  eoi_mode = omega arith;
  group1 = omega arith;
  unmasked = refl;
}

ctlr-Enabled :
    (v : ℕ)
    → v < 2 ^ 32
    → Enabled v (
        set
          (gicd_ctlr_place are_s)
          1
          (set (gicd_ctlr_place are_ns) 1 (set (gicd_ctlr_place enable_grp1ns) 1 v)))
ctlr-Enabled v small = record {
  group1 = omega arith;
  routed = omega arith;
  low = omega arith;
  middle = omega arith;
  high = omega arith;
}

waker-Awake : (v : ℕ) → v < 2 ^ 32 → Awake v (set (gicr_waker_place processor_sleep) 0 v)
waker-Awake v small = record { running = omega arith; low = omega arith; high = omega arith }

raw_small : (m : Mem) (a : ℕ) → raw m a < 2 ^ 32
unfolding raw
raw_small m a = omega arith

raw-kept : (m : Mem) (a v x : ℕ) → x ≢ a → raw (store m a v) x ≡ raw m x
unfolding raw
raw-kept m a v x apart = ap u32 (store_ne m a v x apart)

pub Started : Memap → ℕ → Mem × CpuInterface → Mem × CpuInterface → Type 0
Started memap core (regs, c) (regs', c') =
    Enabled (raw regs (get_gicd_ctlr memap)) (regs' (get_gicd_ctlr memap))
    × Awake (raw regs (get_gicr_waker memap core)) (regs' (get_gicr_waker memap core))
    × ((x : ℕ) → x ≢ get_gicd_ctlr memap → x ≢ get_gicr_waker memap core → regs' x ≡ regs x)
    × Open c c'

module _ (ctlr_reads waker_reads : ℕ → ℕ) (fuel : ℕ) (memap : Memap) (core : ℕ) where
  -- When GICD_CTLR and GICR_WAKER lie at different addresses and the hardware answers within the fuel (a
  -- read of GICD_CTLR with RWP clear, a read of GICR_WAKER with ChildrenAsleep clear), the start-up ends.
  -- GICD_CTLR then has EnableGrp1NS and both ARE bits set, GICR_WAKER has ProcessorSleep clear, their other
  -- bits and every other register are as they were, and the CPU interface is open: system
  -- registers on, priority mask 0xFF, the least binary point, combined EOI mode, group 1 enabled
  -- and DAIF clear.
  pub start_controller_lem :
      (n k : ℕ)
      → get (gicd_ctlr_place rwp) (ctlr_reads n) ≡ 0
      → n < fuel
      → get (gicr_waker_place children_asleep) (waker_reads k) ≡ 0
      → k < fuel
      → get_gicr_waker memap core ≢ get_gicd_ctlr memap
      → (st : Mem × CpuInterface)
      → (st' : Mem × CpuInterface) × (start_controller ctlr_reads waker_reads fuel memap core st
          ≡ some st')
        × Started memap core st st'
  unfolding Started start_controller set_up_gicd_ctrl set_gicr_waker
  start_controller_lem n k written inside awake within apart (regs, c) =
      let ctlr = get_gicd_ctlr memap in
      let waker = get_gicr_waker memap core in
      let (i, p) =
        poll-some (λ i. get (gicd_ctlr_place rwp) (ctlr_reads i) != 0) fuel 0 n (rw written refl)
          (omega arith) (omega arith) in
      let (j, q) =
        poll-some (λ i. get (gicr_waker_place children_asleep) (waker_reads i) != 0) fuel 0 k
          (rw awake refl) (omega arith) (omega arith) in
      let v =
        set (gicd_ctlr_place are_s) 1 (
          set (gicd_ctlr_place are_ns) 1 (set (gicd_ctlr_place enable_grp1ns) 1 (raw regs ctlr))) in
      let regs' = store regs ctlr v in
      let w = set (gicr_waker_place processor_sleep) 0 (raw regs' waker) in
      let r : raw regs' waker ≡ raw regs waker = raw-kept regs ctlr v waker apart in
      (
        (store regs' waker w, start_cpu_interface (mask_all_exceptions c)),
        rw (start_controller, set_up_gicd_ctrl, p, set_gicr_waker, q) refl,
        (
          subst (Enabled (raw regs ctlr))
              (sym (store_ne regs' waker w ctlr (λ e. apart (sym e)) ∙ store_self regs ctlr v))
              (ctlr-Enabled (raw regs ctlr) (raw_small regs ctlr)),
          subst (λ x. Awake x (store regs' waker w waker)) r
              (subst (Awake (raw regs' waker)) (sym (store_self regs' waker w))
                (waker-Awake (raw regs' waker) (raw_small regs' waker))),
          (λ x far off. store_ne regs' waker w x off ∙ store_ne regs ctlr v x far),
          start_cpu_interface-Open c,
        ),
      )
