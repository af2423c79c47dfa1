-- ===== src/Console/Output.antt =====
-- src/kernel/utils/kprintf.c: what vprintf prints.
use kernelite.Base.{ℕ, zero, suc, ◌+◌, ◌-◌, ◌/◌, ◌%◌, ◌^◌, ◌≤◌, ◌<◌, ◌≡◌, inl, inr}
use kernelite.Base.{refl, sym, ap, ◌∙◌, arith, some, true, false, Bool-cases, Option, sub64}
use kernelite.Base.{List, [], ◌∷◌, ◌++◌, length, glyph-ne, leb, ◌==◌, if◌then◌else◌, Mem}
use mathlib.Core.Path.{subst}
use mathlib.Core.List.{append-nil, append_assoc}
use native.Mathlib.Nat.{pow-le-pow_left, pow-le-pow_right}
use kernelite.Strings.Texts.{IsText}
use kernelite.Console.Printf.{Output, putc, put_text, put_number, va_arg, specifier}
use kernelite.Console.Digits.{digit_at, Leads, Numeral, itoa_lem, Leads-top}

-- The output with a text after it.
abbrev pub after : List ℕ → Output → Output
after text o = record { text = o.text ++ text; printed = o.printed + length text }

pub Output-eq : (o o' : Output) → o.text ≡ o'.text → o.printed ≡ o'.printed → o ≡ o'
Output-eq o o' e e' = λ i. record { text = e i; printed = e' i }

pub after-nil : (o : Output) → o ≡ after [] o
after-nil o = Output-eq o (after [] o) (sym (append-nil o.text)) (omega arith)

putc-after :
    (c' c : ℕ) (text : List ℕ) (o : Output) → c' ≡ c → after text (putc c' o) ≡ after (c ∷ text) o
putc-after c' c text o e =
    Output-eq (after text (putc c' o)) (after (c ∷ text) o)
      (append_assoc o.text (c' ∷ []) text ∙ ap (λ x. o.text ++ x ∷ text) e) (omega arith)

pub after-after : (s t : List ℕ) (o : Output) → after t (after s o) ≡ after (s ++ t) o
after-after [] t o = ap (after t) (sym (after-nil o))
after-after (c ∷ s) t o =
    ap (after t) (sym (putc-after c c s o refl))
    ∙ after-after s t (putc c o)
    ∙ putc-after c c (s ++ t) o refl

put_text-after :
    (text : List ℕ) (fuel str : ℕ) (m : Mem) (o : Output)
    → IsText str text m
    → length text < fuel
    → put_text fuel str m o ≡ some (after text o)
unfolding put_text
put_text-after text zero str m o t l = absurd (omega arith)
put_text-after [] (suc fuel) str m o t l =
    let stop : (m str == 0) ≡ true = ground arith in rw stop (ap some (after-nil o))
put_text-after (c ∷ text) (suc fuel) str m o (e, ne, t) l =
    let more : (m str == 0) ≡ false = ground arith in
    rw more (
      put_text-after text fuel (str + 1) m (putc (m str) o) t (omega arith)
      ∙ ap some (putc-after (m str) c text o e))

-- The digits from the first, which stands for `base ^ top`, to the last.
abbrev pub digits : ℕ → ℕ → ℕ → List ℕ
digits num base zero = digit_at num base 0 ∷ []
digits num base (suc top) = digit_at num base (suc top) ∷ digits num base top

length-digits : (num base top : ℕ) → length (digits num base top) ≡ suc top
length-digits num base zero = refl
length-digits num base (suc top) = ap suc (length-digits num base top)

-- The buffer holds the digits as a text.
Numeral-IsText :
    (num base buf : ℕ) (m r : Mem) (n : Numeral num base buf m r) (k : ℕ)
    → k ≤ n.top
    → IsText (buf + (n.top - k)) (digits num base k) r
Numeral-IsText num base buf m r n zero h =
    let here : n.top - (n.top - 0) ≡ 0 = omega arith in
    let end : buf + (n.top - 0) + 1 ≡ buf + suc n.top = omega arith in
    (
      n.at (n.top - 0) (omega arith) ∙ ap (digit_at num base) here,
      glyph-ne (num / base ^ 0 % base),
      ap r end ∙ n.end,
    )
Numeral-IsText num base buf m r n (suc k) h =
    let here : n.top - (n.top - suc k) ≡ suc k = omega arith in
    let next : buf + (n.top - k) ≡ buf + (n.top - suc k) + 1 = omega arith in
    (
      n.at (n.top - suc k) (omega arith) ∙ ap (digit_at num base) here,
      glyph-ne (num / base ^ suc k % base),
      subst (λ a. IsText a (digits num base k) r) next
          (Numeral-IsText num base buf m r n k (omega arith)),
    )

-- What is printed for a number: its digits in positional notation, without leading zeros.
abbrev pub Prints : ℕ → ℕ → Output → Option Output → Type 0
Prints num base o r = (top : ℕ) × Leads num base top × (r ≡ some (after (digits num base top) o))

-- Twenty digits are enough for 64 bits.
twenty : (num base : ℕ) → 9 < base → num < 2 ^ 64 → num < base ^ 20
twenty num base b small = let g = pow-le-pow_left {n = 10} {m = base} b 20 in omega (arith, g)

put_number-Prints :
    (fuel num base buf : ℕ) (m : Mem) (o : Output)
    → 9 < base
    → base ≤ 16
    → 0 < buf
    → num < 2 ^ 64
    → 22 ≤ fuel
    → Prints num base o (put_number buf m fuel num base o)
unfolding put_number
put_number-Prints zero num base buf m o b few pos small enough = absurd (omega arith)
put_number-Prints (suc zero) num base buf m o b few pos small enough = absurd (omega arith)
put_number-Prints (suc (suc f)) num base buf m o b few pos small enough =
    let bound = twenty num base b small in
    let up = pow-le-pow_right {n = base} (omega arith) {i = 20} {j = suc f} (omega arith) in
    let (r, q, n) = itoa_lem f num base buf m (omega arith) few pos (omega arith) in
    let short = Leads-top num base n.top 19 (omega arith) n.leads bound in
    let start : buf + (n.top - n.top) ≡ buf = omega arith in
    let t =
      subst (λ a. IsText a (digits num base n.top) r) start
        (Numeral-IsText num base buf m r n n.top (omega arith)) in
    (
      n.top,
      n.leads,
      rw (q, put_number)
          (put_text-after (digits num base n.top) (suc (suc f)) buf r o t
            (omega (arith, length-digits num base n.top))),
    )

-- A conversion of a number: its digits in positional notation, without leading zeros, go after the output `o`, and `args` are left.
abbrev pub Converts : ℕ → ℕ → List ℕ → Output → Option (List ℕ × Output) → Type 0
Converts num base args o r =
    (top : ℕ) × Leads num base top × (r ≡ some (args, after (digits num base top) o))

pub putc_one : (c : ℕ) (o : Output) → putc c o ≡ after (c ∷ []) o
putc_one c o = after-nil (putc c o) ∙ putc-after c c [] o refl

pub putc_two : (c d : ℕ) (o : Output) → putc d (putc c o) ≡ after (c ∷ d ∷ []) o
putc_two c d o = putc_one d (putc c o) ∙ putc-after c c (d ∷ []) o refl

module _ (fuel buf : ℕ) (m : Mem) (arg : ℕ) (args : List ℕ) (o : Output) (pos : 0 < buf)
    (small : arg < 2 ^ 64) (enough : 22 ≤ fuel) where
  converts :
      (num base : ℕ) (o' : Output) (r : Option (List ℕ × Output))
      → 9 < base
      → base ≤ 16
      → num < 2 ^ 64
      → ((e : Output) → put_number buf m fuel num base o' ≡ some e → r ≡ some (args, e))
      → Converts num base args o' r
  converts num base o' r b few l f =
      let (top, leads, e) = put_number-Prints fuel num base buf m o' b few pos l enough in
      (top, leads, f (after (digits num base top) o') e)

  signed :
      Converts
        (if leb (2 ^ 63) arg then 2 ^ 64 - arg else arg)
        10
        args
        (if leb (2 ^ 63) arg then after (45 ∷ []) o else o)
        (specifier buf m fuel 100 (arg ∷ args) o)
  unfolding specifier va_arg
  signed = elim (Bool-cases (leb (2 ^ 63) arg)) [
    | inl minus ↦
        let negated : sub64 0 arg ≡ 2 ^ 64 - arg = ground arith in
        rw minus (
          converts (2 ^ 64 - arg) 10 (after (45 ∷ []) o) _ (omega arith) (omega arith)
            (ground arith)
            (λ e q.
              let q' = ap (put_number buf m fuel (2 ^ 64 - arg) 10) (putc_one 45 o) ∙ q in
              rw (negated, q') refl))
    | inr plus ↦
        rw plus (converts arg 10 o _ (omega arith) (omega arith) small (λ e q. rw (q) refl))
  ]

  -- The specifiers of numbers, on a 64-bit argument, a buffer that is not at address 0 and with
  -- fuel for 22 rounds: x and u print it in base 16 and 10, p after 0x, and d as a signed number,
  -- in base 10 with a minus sign if it is negative. Digits are '0' to '9' and 'a' to 'f'. One argument is used.
  pub specifier-Converts :
      Converts arg 16 args o (specifier buf m fuel 120 (arg ∷ args) o)
      × Converts arg 16 args (after (48 ∷ 120 ∷ []) o) (specifier buf m fuel 112 (arg ∷ args) o)
      × Converts arg 10 args o (specifier buf m fuel 117 (arg ∷ args) o)
      × Converts
          (if leb (2 ^ 63) arg then 2 ^ 64 - arg else arg)
          10
          args
          (if leb (2 ^ 63) arg then after (45 ∷ []) o else o)
          (specifier buf m fuel 100 (arg ∷ args) o)
  unfolding specifier va_arg
  specifier-Converts = (
    converts arg 16 o _ (omega arith) (omega arith) small (λ e q. rw (q) refl),
    converts arg 16 (after (48 ∷ 120 ∷ []) o) _ (omega arith) (omega arith) small
        (λ e q. let q' = ap (put_number buf m fuel arg 16) (putc_two 48 120 o) ∙ q in rw q' refl),
    converts arg 10 o _ (omega arith) (omega arith) small (λ e q. rw (q) refl),
    signed,
  )
