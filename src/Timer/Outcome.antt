-- ===== src/Timer/Outcome.antt =====
-- src/kernel/timer/timer.c and src/kernel/drivers/arm_timer.c: the set-up of the timer as a whole, and
-- the interrupt that reaches it afterwards.
use kernelite.Base.{
  ℕ, suc, ◌+◌, ◌-◌, ◌*◌, ◌/◌, ◌^◌, ◌<◌, ◌≡◌, ◌⊎◌, inl, inr, refl, ap, ◌∙◌, sym, arith,
}
use kernelite.Base.{Bool, true, false, leb, u64, some, List, [], ◌∷◌, Bool-cases, Option-cases}
use kernelite.Gicv3.Registers.{Memap}
use kernelite.Gicv3.Dispatch.{HandlerData, set_entry, gicv3_register_irq}
use kernelite.Gicv3.Handlers.{configure_irq_succeeds}
use kernelite.Fdt.Tree.{offset, Libfdt, get_nodes_by_compatible}
use kernelite.Base.{All}
use kernelite.Fdt.Decode.{Advances}
use kernelite.Fdt.Bounds.{Descends, get_nodes_by_compatible-bounded, get_intr_property-Read}
use kernelite.Fdt.Interrupts.{Interrupt, get_intr_property}
use kernelite.Timer.State.{set_period}
use kernelite.Timer.Setup.{
  Machine, timer_intid, private_handler, enabled, setup_isr, setup_with, setup_arm64_sys_timer,
  setup_sys_timer, max_timers, max_timer_interrupts,
}

-- The interrupt that the set-up takes from a list.
abbrev pub Second : List Interrupt → ℕ → Type 0
Second [] id = ⊥
Second (secure ∷ []) id = ⊥
Second (secure ∷ intr ∷ others) id = timer_intid intr ≡ some id

-- The source of the interrupt: the one node of the timer, and the second of the interrupts read there.
abbrev pub IsTimerIntr : ℕ → ℕ → Libfdt → ℕ → Type 0
IsTimerIntr err_internal fuel t id =
    (node : ℕ) × (intrs : List Interrupt) × (get_nodes_by_compatible err_internal fuel (some t)
        "arm,armv8-timer" max_timers
      ≡ some (inr (node ∷ [])))
    × (get_intr_property err_internal fuel (some t) (offset node) max_timer_interrupts
        ≡ some (inr intrs))
    × Second intrs id

Result-cases : {A B : Type 0} (r : A ⊎ B) → ((a : A) × (r ≡ inl a)) ⊎ ((b : B) × (r ≡ inr b))
Result-cases (inl a) = inl (a, refl)
Result-cases (inr b) = inr (b, refl)

module _ {S : Type 0} (memap : Memap) (core isr now freq milliseconds : ℕ)
    (handler : HandlerData) where
  -- What a set-up that failed may have changed: the period and the tick handler, nothing else.
  abbrev pub Refused : Machine S → Machine S → Type 0
  Refused m m' =
      (m'.0.cntp_ctl ≡ m.0.cntp_ctl)
      × (m'.0.cntp_cval ≡ m.0.cntp_cval)
      × (m'.0.system ≡ m.0.system)
      × (m'.1 ≡ m.1)

  -- What a set-up that succeeded has done, for the interrupt `id`.
  abbrev pub Armed : ℕ → Machine S → Machine S → Type 0
  Armed id m m' =
      (m'.0.cntp_ctl ≡ enabled)
      × (m'.0.period_ticks ≡ u64 (freq * milliseconds) / 1000)
      × (m'.0.period_ticks < 2 ^ 32)
      × (m'.0.cntp_cval ≡ u64 (now + m'.0.period_ticks))
      × (m'.0.tick_handler ≡ handler)
      × (m'.0.system ≡ m.0.system)
      × (id < 1024)
      × (m'.1.0 ≡ set_entry id (some (private_handler isr)) m.1.0)

  abbrev pub Outcome : Machine S → (ℕ → Type 0) → Bool × Machine S → Type 0
  Outcome m Source (ok, m') =
      ((ok ≡ false) × Refused m m') ⊎ ((ok ≡ true) × ((id : ℕ) × Source id × Armed id m m'))

  setup_isr-cases :
      (int_id : ℕ) (m : Machine S)
      → m.0.period_ticks ≡ u64 (freq * milliseconds) / 1000
      → m.0.period_ticks < 2 ^ 32
      → Outcome m (λ id. id ≡ int_id) (setup_isr memap core isr now freq int_id handler m)
  unfolding setup_isr gicv3_register_irq
  setup_isr-cases int_id (t, (table, regs)) e l = elim (Bool-cases (leb 1024 int_id)) [
    | inl high ↦ rw high (inl (refl, (refl, refl, refl, refl)))
    | inr low ↦
        rw (low, configure_irq_succeeds memap core int_id regs)
          (inr (refl, (int_id, refl, (refl, e, l, refl, refl, refl, ground arith, refl))))
  ]

  Outcome-map :
      {P Q : ℕ → Type 0} (m : Machine S) (r : Bool × Machine S)
      → ((id : ℕ) → P id → Q id)
      → Outcome m P r
      → Outcome m Q r
  Outcome-map m r f (inl refused) = inl refused
  Outcome-map m r f (inr (ok, (id, source, armed))) = inr (ok, (id, f id source, armed))

  setup_with-cases :
      (intrs : List Interrupt) (m : Machine S)
      → Outcome m (Second intrs) (setup_with memap core isr now freq milliseconds handler intrs m)
  unfolding setup_with set_period
  setup_with-cases [] m = inl (refl, (refl, refl, refl, refl))
  setup_with-cases (secure ∷ []) m = inl (refl, (refl, refl, refl, refl))
  setup_with-cases (secure ∷ intr ∷ others) (t, icu) =
      let t' = record t { period_ticks = u64 (freq * milliseconds) / 1000 } in
      elim (Bool-cases (leb (u64 (freq * milliseconds) / 1000) (2 ^ 32 - 1))) [
        | inr long ↦ rw (long, setup_with) (inl (refl, (refl, refl, refl, refl)))
        | inl fits ↦ elim (Option-cases (timer_intid intr)) [
          | inl negative ↦ rw (fits, negative, setup_with) (inl (refl, (refl, refl, refl, refl)))
          | inr (id, number) ↦
              let short : u64 (freq * milliseconds) / 1000 < 2 ^ 32 = ground arith in
              rw (fits, number, setup_with)
                (Outcome-map (t', icu) (setup_isr memap core isr now freq id handler (t', icu))
                  (λ n e. ap some (sym e)) (setup_isr-cases id (t', icu) refl short))
        ]
      ]

  setup_arm64_sys_timer-cases :
      (t : Libfdt) (fuel err_internal node : ℕ) (m : Machine S)
      → Descends t
      → suc node < fuel
      → get_nodes_by_compatible err_internal fuel (some t) "arm,armv8-timer" max_timers
        ≡ some (inr (node ∷ []))
      → (r : Bool × Machine S) × (setup_arm64_sys_timer memap core isr now freq err_internal fuel
            (some t)
            (offset node)
            milliseconds
            handler
            m
          ≡ some r)
        × Outcome m (IsTimerIntr err_internal fuel t) r
  unfolding setup_arm64_sys_timer
  setup_arm64_sys_timer-cases t fuel err_internal node m down l sole =
      let (r, q, _) = get_intr_property-Read t err_internal fuel node max_timer_interrupts down l in
      elim (Result-cases r) [
        | inl (e, bad) ↦ (
          (false, m),
          rw (q, bad, setup_arm64_sys_timer) refl,
          inl (refl, (refl, refl, refl, refl)),
        )
        | inr (intrs, good) ↦
            let with_intrs = setup_with memap core isr now freq milliseconds handler intrs m in
            (
              with_intrs,
              rw (q, good, setup_arm64_sys_timer) refl,
              Outcome-map m with_intrs (λ id second. (node, intrs, sole, q ∙ ap some good, second))
                  (setup_with-cases intrs m),
            )
      ]

  from_nodes :
      (t : Libfdt) (size fuel err_internal : ℕ) (m : Machine S) (nodes : List ℕ)
      → get_nodes_by_compatible err_internal fuel (some t) "arm,armv8-timer" max_timers
        ≡ some (inr nodes)
      → All (λ n. n < size) nodes
      → Descends t
      → size < fuel
      → (r : Bool × Machine S) × (setup_sys_timer memap core isr now freq err_internal fuel
            (some t)
            milliseconds
            handler
            m
          ≡ some r)
        × Outcome m (IsTimerIntr err_internal fuel t) r
  unfolding setup_sys_timer
  from_nodes t size fuel err_internal m [] q inside down l =
      ((false, m), rw (q, setup_sys_timer) refl, inl (refl, (refl, refl, refl, refl)))
  from_nodes t size fuel err_internal m (node ∷ other ∷ others) q inside down l =
      ((false, m), rw (q, setup_sys_timer) refl, inl (refl, (refl, refl, refl, refl)))
  from_nodes t size fuel err_internal m (node ∷ []) q inside down l =
      let (r, done, outcome) =
        setup_arm64_sys_timer-cases t fuel err_internal node m down
          (let below = inside.0 in omega arith) q in
      (r, rw (q, setup_sys_timer) done, outcome)

  -- In a tree where searches advance and a parent comes before its children, the set-up of the
  -- system timer returns. Either it gives false, and the timer's registers, the dispatch table and the interrupt
  -- controller are as they were; or it gives true, there is exactly one timer node, and the timer is
  -- enabled for one period from now, with its interrupt routine entered for the second interrupt of the node.
  pub setup_sys_timer-Outcome :
      (t : Libfdt) (size fuel err_internal : ℕ) (m : Machine S)
      → Advances size (t.next_compatible "arm,armv8-timer")
      → Descends t
      → size < fuel
      → (r : Bool × Machine S) × (setup_sys_timer memap core isr now freq err_internal fuel
            (some t)
            milliseconds
            handler
            m
          ≡ some r)
        × Outcome m (IsTimerIntr err_internal fuel t) r
  unfolding setup_sys_timer
  setup_sys_timer-Outcome t size fuel err_internal m adv down l =
      let (nodes, q, _, inside) =
        get_nodes_by_compatible-bounded t "arm,armv8-timer" size fuel err_internal max_timers adv
          l in
      from_nodes t size fuel err_internal m nodes q inside down l
