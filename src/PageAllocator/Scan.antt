-- ===== src/PageAllocator/Scan.antt =====
-- The scan of `page_alloc_chunk` finds the first run of free pages that is long enough.
use kernelite.Base.{ℕ, zero, suc, ◌+◌, ◌-◌, ◌≤◌, ◌<◌, true, false, ◌≡◌, ◌≢◌, inl, inr}
use kernelite.Base.{refl, ap, ◌∙◌, arith, Option, none, some, ◌==◌, if◌then◌else◌, Bool-cases, Mem}
use kernelite.PageAllocator.Chunk.{is_used, find_run}
use mathlib.Core.Path.{subst}
use native.Mathlib.Nat.{zero-add}
use native.Mathlib.Decide.{dec_lt}

module _ (bm : ℕ) (m : Mem) where
  -- All of the `n` pages from `s` on are free.
  abbrev pub IsFree : ℕ → ℕ → Type 0
  IsFree s n = (j : ℕ) → s ≤ j → j < s + n → is_used bm m j ≡ false

-- `s` starts the first run of `num` free pages below `total`.
pub record FirstFit (bm : ℕ) (m : Mem) (num total s : ℕ) : Type 0 where
  pub fits : s + num ≤ total
  pub free : IsFree bm m s num
  pub first : (r : ℕ) → r < s → ¬ IsFree bm m r num

-- What the scan reports: the first fit, or that there is no fit.
abbrev pub Scanned : ℕ → Mem → ℕ → ℕ → Option ℕ → Type 0
Scanned bm m num total none = (r : ℕ) → r + num ≤ total → ¬ IsFree bm m r num
Scanned bm m num total (some s) = FirstFit bm m num total s

-- The loop invariant at page `i`: the last `found` pages are free, and no run starts before them.
record Scanning (bm : ℕ) (m : Mem) (num i found start : ℕ) : Type 0 where
  below : found < num
  behind : found ≤ i
  begun : found ≢ 0 → start ≡ i - found
  run : IsFree bm m (i - found) found
  none_before : (r : ℕ) → r < i - found → ¬ IsFree bm m r num

module _ (bm : ℕ) (m : Mem) (num : ℕ) where
  -- A used page ends the run, and no window holds that page.
  Scanning-used :
      (i found start : ℕ)
      → Scanning bm m num i found start
      → is_used bm m i ≡ true
      → Scanning bm m num (i + 1) 0 start
  Scanning-used i found start v used = record {
    below = omega (arith, v.below);
    behind = omega arith;
    begun = λ h. absurd (h refl);
    run = λ j p q. absurd (omega arith);
    none_before = λ r p w. elim (dec_lt r (i - found)) [
      | yes q ↦ v.none_before r q w
      | no q ↦ cc (used, w i (omega arith) (omega (arith, v.below, v.behind)))
    ];
  }

  -- A free page lengthens the run.
  run-suc :
      (i found start : ℕ)
      → Scanning bm m num i found start
      → is_used bm m i ≡ false
      → IsFree bm m (i - found) (found + 1)
  run-suc i found start v free j p q = elim (dec_lt j i) [
    | yes h ↦ v.run j p (omega (arith, v.behind))
    | no h ↦ ap (is_used bm m) (let e : j ≡ i = omega (arith, v.behind) in e) ∙ free
  ]

  -- Where the run starts, when page `i` joins it.
  joined :
      (i found start : ℕ)
      → Scanning bm m num i found start
      → (if found == 0 then i else start) ≡ i - found
  joined i found start v = ground (arith, v.begun)

  Scanning-free :
      (i found start : ℕ)
      → Scanning bm m num i found start
      → is_used bm m i ≡ false
      → found + 1 ≢ num
      → Scanning bm m num (i + 1) (found + 1) (i - found)
  Scanning-free i found start v free more = record {
    below = omega (arith, v.below);
    behind = omega (arith, v.behind);
    begun = λ h. omega arith;
    run = λ j p q. run-suc i found start v free j (omega arith) (omega (arith, v.behind));
    none_before = λ r p. v.none_before r (omega arith);
  }

  find_run-Scanned :
      (left i found start : ℕ)
      → Scanning bm m num i found start
      → Scanned bm m num (i + left) (find_run bm m num left i found start)
  unfolding find_run
  find_run-Scanned zero i found start v = λ r p. v.none_before r (omega (arith, v.below, v.behind))
  find_run-Scanned (suc left) i found start v =
      let shift : i + suc left ≡ i + 1 + left = omega arith in
      elim (Bool-cases (is_used bm m i)) [
        | inl used ↦
            rw (used, shift)
              (find_run-Scanned left (i + 1) 0 start (Scanning-used i found start v used))
        | inr free ↦ elim (Bool-cases (found + 1 == num)) [
          | inl done ↦
              rw (free, done, joined i found start v)
                (let e : found + 1 ≡ num = ground arith in
                  record {
                    fits = omega (arith, v.behind);
                    free = subst (IsFree bm m (i - found)) e (run-suc i found start v free);
                    first = v.none_before;
                  })
          | inr more ↦
              rw (free, more, joined i found start v, shift)
                (find_run-Scanned left (i + 1) (found + 1) (i - found)
                  (Scanning-free i found start v free (ground arith)))
        ]
      ]

  -- The whole scan, from page 0.
  pub find_run-FirstFit :
      (total : ℕ) → num ≢ 0 → Scanned bm m num total (find_run bm m num total 0 0 0)
  find_run-FirstFit total h =
      subst (λ t. Scanned bm m num t (find_run bm m num total 0 0 0)) (zero-add total)
        (find_run-Scanned total 0 0 0 start)
    where
      start : Scanning bm m num 0 0 0
      start = record {
        below = omega arith;
        behind = omega arith;
        begun = λ e. absurd (e refl);
        run = λ j p q. absurd (omega arith);
        none_before = λ r p. absurd (omega arith);
      }
