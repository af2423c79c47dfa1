-- ===== src/Console/Digits.antt =====
-- src/kernel/utils/kprintf.c: itoa writes a number in positional notation.
use kernelite.Base.{ℕ, zero, suc, ◌+◌, ◌-◌, ◌*◌, ◌/◌, ◌%◌, ◌^◌, ◌≤◌, ◌<◌, ◌≡◌, ◌⊎◌, inl, inr}
use kernelite.Base.{refl, sym, ap, ◌∙◌, arith, some, true, false, Bool-cases}
use kernelite.Base.{glyph, glyph_low, glyph_high, leb, ltb, ltb→lt, ◌&&◌, if◌then◌else◌, Mem, store}
use native.Mathlib.Nat.{
  pow-zero, pow-succ', div-one, div-div-eq-div-mul, div-lt_iff_lt-mul, le-div_iff_mul-le,
  pow-le-pow_right, mod-lt,
}
use native.Mathlib.Decide.{dec_lt}
use kernelite.Console.Printf.{digit_char, write_digits, reverse_chars, itoa}

-- One exchange at the ends, with the range between them turned round.
turned :
    (ptr1 ptr2 : ℕ) (m : Mem) (a : ℕ)
    → ptr1 < ptr2
    → let m' = store (store m ptr1 (m ptr2)) ptr2 (m ptr1) in
      (if leb (ptr1 + 1) a && leb a (ptr2 - 1) then m' (ptr1 + 1 + (ptr2 - 1) - a) else m' a)
      ≡ (if leb ptr1 a && leb a ptr2 then m (ptr1 + ptr2 - a) else m a)
unfolding store
turned ptr1 ptr2 m a l = ground arith

single :
    (ptr1 ptr2 : ℕ) (m : Mem) (a : ℕ)
    → ptr2 ≤ ptr1
    → m a ≡ (if leb ptr1 a && leb a ptr2 then m (ptr1 + ptr2 - a) else m a)
single ptr1 ptr2 m a l = ground arith

-- Two stores that exchange what two addresses hold, with the addresses between them turned round, turn round the whole range.
reverse_chars-at :
    (fuel ptr1 ptr2 : ℕ) (m : Mem)
    → ptr2 + 1 < ptr1 + fuel
    → ptr1 ≤ ptr2 + 1
    → 0 < ptr1
    → (r : Mem) × (reverse_chars fuel ptr1 ptr2 m ≡ some r)
      × ((a : ℕ) → r a ≡ (if leb ptr1 a && leb a ptr2 then m (ptr1 + ptr2 - a) else m a))
unfolding reverse_chars
reverse_chars-at zero ptr1 ptr2 m enough order pos = absurd (omega arith)
reverse_chars-at (suc fuel) ptr1 ptr2 m enough order pos = elim (Bool-cases (ltb ptr1 ptr2)) [
  | inr done ↦ (m, rw done refl, λ a. single ptr1 ptr2 m a (ground arith))
  | inl more ↦
      let m' = store (store m ptr1 (m ptr2)) ptr2 (m ptr1) in
      let (r, q, rest) =
        reverse_chars-at fuel (ptr1 + 1) (ptr2 - 1) m' (omega (arith, ltb→lt ptr1 ptr2 more))
          (omega (arith, ltb→lt ptr1 ptr2 more)) (omega arith) in
      (r, rw more q, λ a. rest a ∙ turned ptr1 ptr2 m a (ltb→lt ptr1 ptr2 more))
]

-- The character of the digit of `num` that stands for `base ^ i`: from the table, and as itoa computes it.
abbrev pub digit_at : ℕ → ℕ → ℕ → ℕ
digit_at num base i = glyph (num / base ^ i % base)

abbrev char_at : ℕ → ℕ → ℕ → ℕ
char_at num base i = digit_char (num / base ^ i % base)

digit_char-glyph : (d : ℕ) → d < 16 → digit_char d ≡ glyph d
unfolding digit_char
digit_char-glyph d l = elim (Bool-cases (ltb d 10)) [
  | inl low ↦ rw low (omega (arith, glyph_low d (ltb→lt d 10 low)))
  | inr high ↦ let ten : 10 ≤ d = ground arith in rw high (omega (arith, glyph_high d ten l))
]

char_at-digit_at :
    (num base i : ℕ) → 1 < base → base ≤ 16 → char_at num base i ≡ digit_at num base i
char_at-digit_at num base i b few =
    digit_char-glyph (num / base ^ i % base)
      (let l = mod-lt (num / base ^ i) {m = base} (omega arith) in omega arith)

-- In positional notation, the first digit of `num` stands for `base ^ top`.
abbrev pub Leads : ℕ → ℕ → ℕ → Type 0
Leads num base top = (num < base ^ suc top) × ((top ≡ 0) ⊎ (base ^ top ≤ num))

-- The digits from the last on stand at `ptr`, and nothing else is written.
pub record Written (num base ptr : ℕ) (m : Mem) (end : ℕ) (m' : Mem) : Type 0 where
  pub top : ℕ
  pub leads : Leads num base top
  pub end_at : end ≡ ptr + suc top
  pub at : (i : ℕ) → i ≤ top → m' (ptr + i) ≡ char_at num base i
  pub frame : (a : ℕ) → (a < ptr) ⊎ (ptr + suc top ≤ a) → m' a ≡ m a

one_power : (base : ℕ) → base ^ 1 ≡ base
one_power base = pow-succ' base 0 ∙ ap (λ (x : ℕ). base * x) (pow-zero base) ∙ omega arith

last_digit : (num base : ℕ) → digit_char (num % base) ≡ char_at num base 0
last_digit num base =
    ap (λ q. digit_char (q % base)) (sym (ap (λ b. num / b) (pow-zero base) ∙ div-one num))

next_digit : (num base i : ℕ) → char_at (num / base) base i ≡ char_at num base (suc i)
next_digit num base i =
    ap (λ q. digit_char (q % base))
      (div-div-eq-div-mul num base (base ^ i) ∙ ap (λ b. num / b) (sym (pow-succ' base i)))

Leads-one : (num base : ℕ) → 1 < base → ltb 0 (num / base) ≡ false → Leads num base 0
Leads-one num base b done =
    let small : num / base < 1 = ground arith in
    let l = (div-lt_iff_lt-mul {k = base} {x = num} {y = 1} (omega arith)).0 small in
    (omega (arith, one_power base, l), inl refl)

Leads-suc :
    (num base top : ℕ)
    → 1 < base
    → ltb 0 (num / base) ≡ true
    → Leads (num / base) base top
    → Leads num base (suc top)
Leads-suc num base top b more (upper, lower) =
    let l = (div-lt_iff_lt-mul {k = base} {x = num} {y = base ^ suc top} (omega arith)).0 upper in
    let e = pow-succ' base (suc top) in
    let e' = pow-succ' base top in
    (
      grind (arith, l, e),
      inr (elim lower [
        | inl one' ↦
            let some' : 1 ≤ num / base = ground arith in
            let g = (le-div_iff_mul-le {k = base} {x = 1} {y = num} (omega arith)).0 some' in
            rw one' (omega (arith, one_power base, g))
        | inr high ↦
            let g =
              (le-div_iff_mul-le {k = base} {x = base ^ top} {y = num} (omega arith)).0 high in
            grind (arith, g, e')
      ]),
    )

Written-one :
    (num base ptr : ℕ) (m : Mem)
    → Leads num base 0
    → Written num base ptr m (ptr + 1) (store m ptr (digit_char (num % base)))
unfolding store
Written-one num base ptr m leads = record {
  top = 0;
  leads = leads;
  end_at = refl;
  at = λ i h. let e : i ≡ 0 = omega arith in rw e (ground (arith, last_digit num base));
  frame = λ a o. ground arith;
}

Written-suc :
    (num base ptr : ℕ) (m : Mem) (end : ℕ) (r : Mem)
    → 1 < base
    → ltb 0 (num / base) ≡ true
    → Written (num / base) base (ptr + 1) (store m ptr (digit_char (num % base))) end r
    → Written num base ptr m end r
unfolding store
Written-suc num base ptr m end r b more w = record {
  top = suc w.top;
  leads = Leads-suc num base w.top b more w.leads;
  end_at = omega (arith, w.end_at);
  at = λ i h. digit i h;
  frame = λ a o. w.frame a (ground arith) ∙ ground arith;
}
  where
    digit : (i : ℕ) → i ≤ suc w.top → r (ptr + i) ≡ char_at num base i
    digit zero h =
        let here : ptr + 0 ≡ ptr = omega arith in
        rw here (w.frame ptr (inl (omega arith)) ∙ ground (arith, last_digit num base))
    digit (suc i) h =
        let there : ptr + suc i ≡ ptr + 1 + i = omega arith in
        rw there (w.at i (omega arith) ∙ next_digit num base i)

-- One round of the loop, and what the others do if there are others.
write_digits-step :
    (fuel num base ptr : ℕ) (m : Mem)
    → 1 < base
    → ((ltb 0 (num / base) ≡ true)
        → (r : ℕ × Mem) × (write_digits fuel
              (num / base)
              base
              (ptr + 1)
              (store m ptr (digit_char (num % base)))
            ≡ some r)
          × Written (num / base) base (ptr + 1) (store m ptr (digit_char (num % base))) r.0 r.1)
    → (r : ℕ × Mem) × (write_digits (suc fuel) num base ptr m ≡ some r)
      × Written num base ptr m r.0 r.1
unfolding write_digits
write_digits-step fuel num base ptr m b others = elim (Bool-cases (ltb 0 (num / base))) [
  | inr done ↦ (
    (ptr + 1, store m ptr (digit_char (num % base))),
    rw done refl,
    Written-one num base ptr m (Leads-one num base b done),
  )
  | inl more ↦
      let (r, q, w) = others more in (r, rw more q, Written-suc num base ptr m r.0 r.1 b more w)
]

write_digits-Written :
    (fuel num base ptr : ℕ) (m : Mem)
    → 1 < base
    → num < base ^ suc fuel
    → (r : ℕ × Mem) × (write_digits (suc fuel) num base ptr m ≡ some r)
      × Written num base ptr m r.0 r.1
write_digits-Written zero num base ptr m b l =
    let small =
      (div-lt_iff_lt-mul {k = base} {x = num} {y = 1} (omega arith)).1
        (omega (arith, one_power base)) in
    write_digits-step 0 num base ptr m b (λ more. absurd (ground (arith, small)))
write_digits-Written (suc fuel) num base ptr m b l =
    let bound : num < base ^ suc fuel * base = grind (arith, pow-succ' base (suc fuel)) in
    let small =
      (div-lt_iff_lt-mul {k = base} {x = num} {y = base ^ suc fuel} (omega arith)).1 bound in
    write_digits-step (suc fuel) num base ptr m b (λ more.
      write_digits-Written fuel (num / base) base (ptr + 1) (store m ptr (digit_char (num % base)))
        b small)

-- `r` has the number at `buf`: its digits in positional notation from the first on, without leading zeros, then a 0; and nothing else has changed.
pub record Numeral (num base buf : ℕ) (m r : Mem) : Type 0 where
  pub top : ℕ
  pub leads : Leads num base top
  pub at : (i : ℕ) → i ≤ top → r (buf + i) ≡ digit_at num base (top - i)
  pub end : r (buf + suc top) ≡ 0
  pub frame : (a : ℕ) → (a < buf) ⊎ (buf + suc top < a) → r a ≡ m a

pub Leads-top : (num base top k : ℕ) → 1 < base → Leads num base top → num < base ^ suc k → top ≤ k
Leads-top num base top k b (_, lower) l = elim lower [
  | inl one' ↦ omega arith
  | inr high ↦ elim (dec_lt k top) [
    | yes over ↦
        let g = pow-le-pow_right {n = base} (omega arith) {i = suc k} {j = top} over in
        absurd (omega arith)
    | no under ↦ omega arith
  ]
]

-- itoa, for a base from 2 to 16 and a buffer that is not at address 0, where the number is less
-- than a power of the base whose exponent is one less than the fuel, returns: the buffer holds the
-- digits of the number in positional notation, '0' to '9' and 'a' to 'f', without leading zeros, and a 0 after
-- them; no other byte changes.
pub itoa_lem :
    (fuel num base buf : ℕ) (m : Mem)
    → 1 < base
    → base ≤ 16
    → 0 < buf
    → num < base ^ suc fuel
    → (r : Mem) × (itoa (suc (suc fuel)) num base buf m ≡ some r) × Numeral num base buf m r
unfolding itoa store
itoa_lem fuel num base buf m b few pos l =
    let l' : num < base ^ suc (suc fuel) = omega (
      arith,
      pow-le-pow_right {n = base} (omega arith) {i = suc fuel} {j = suc (suc fuel)} (omega arith),
    ) in
    let (w, q, written) = write_digits-Written (suc fuel) num base buf m b l' in
    let short = Leads-top num base written.top fuel b written.leads l in
    let (r, e, turned') =
      reverse_chars-at (suc (suc fuel)) buf (w.0 - 1) (store w.1 w.0 0)
        (omega (arith, written.end_at)) (omega (arith, written.end_at)) pos in
    (
      r,
      rw (q, itoa) e,
      record {
        top = written.top;
        leads = written.leads;
        at = λ i h.
            turned' (buf + i)
            ∙ ground (arith, written.end_at)
            ∙ written.at (written.top - i) (omega arith)
            ∙ char_at-digit_at num base (written.top - i) b few;
        end = turned' (buf + suc written.top) ∙ ground (arith, written.end_at);
        frame = λ a o. turned' a ∙ ground (arith, written.end_at) ∙ written.frame a (omega arith);
      },
    )
