-- ===== src/Console/Plain.antt =====
-- src/kernel/utils/kprintf.c: formats without conversions, and what follows a percent sign at the end.
use kernelite.Base.{ℕ, zero, suc, ◌+◌, ◌≡◌, ◌≢◌, refl, ap, ◌∙◌, arith, some}
use kernelite.Base.{true, false, Bool-cases, inl, inr, List, [], ◌∷◌, ◌++◌, length}
use kernelite.Base.{◌==◌, ◌!=◌, ==_ne, if◌then◌else◌, Mem}
use mathlib.Core.List.{append_assoc}
use kernelite.Console.Printf.{Output, putc, specifier, print_from, vprintf}
use kernelite.Console.Output.{Output-eq, after, after-nil, after-after, putc_one, putc_two}

-- The characters stand at the address; none of them is 0 or a percent sign.
abbrev pub IsPlain : ℕ → List ℕ → Mem → Type 0
IsPlain ptr [] m = Unit
IsPlain ptr (c ∷ text) m = (m ptr ≡ c) × (c ≢ 0) × (c ≢ 37) × IsPlain (ptr + 1) text m

-- A text with a carriage return before each line feed.
unfoldable pub crlf : List ℕ → List ℕ
crlf [] = []
crlf (c ∷ text) = (if c == 10 then 13 ∷ c ∷ [] else c ∷ []) ++ crlf text

crlf_one :
    (c : ℕ) (o : Output)
    → putc c (if c == 10 then putc 13 o else o) ≡ after (if c == 10 then 13 ∷ c ∷ [] else c ∷ []) o
crlf_one c o = elim (Bool-cases (c == 10)) [
  | inl line ↦ rw line (putc_two 13 c o)
  | inr other ↦ rw other (putc_one c o)
]

module _ (buf : ℕ) (m : Mem) where
  print_from-plain :
      (text : List ℕ) (n fuel ptr : ℕ) (args : List ℕ) (o : Output)
      → IsPlain ptr text m
      → n ≡ length text + fuel
      → print_from buf m n ptr args o
        ≡ print_from buf m fuel (ptr + length text) args (after (crlf text) o)
  unfolding print_from crlf
  print_from-plain [] n fuel ptr args o t e =
      let e' : n ≡ fuel = omega arith in
      let here : ptr ≡ ptr + 0 = omega arith in
      ap (λ k. print_from buf m k ptr args o) e'
      ∙ ap (λ a. print_from buf m fuel a args o) here
      ∙ ap (print_from buf m fuel (ptr + 0) args) (after-nil o)
  print_from-plain (c ∷ text) zero fuel ptr args o t e = absurd (omega arith)
  print_from-plain (c ∷ text) (suc n) fuel ptr args o (at, ne, plain, t) e =
      let there : ptr + 1 + length text ≡ ptr + suc (length text) = omega arith in
      let o' = after (if c == 10 then 13 ∷ c ∷ [] else c ∷ []) o in
      let more : (c == 0) ≡ false = ==_ne ne in
      let not_percent : (c != 37) ≡ true = ground arith in
      rw (at, more, not_percent)
        (ap (print_from buf m n (ptr + 1) args) (crlf_one c o)
          ∙ print_from-plain text n fuel (ptr + 1) args o' t (omega arith)
          ∙ ap (λ a. print_from buf m fuel a args (after (crlf text) o')) there
          ∙ ap (print_from buf m fuel (ptr + suc (length text)) args)
              (after-after (if c == 10 then 13 ∷ c ∷ [] else c ∷ []) (crlf text) o))

  abbrev start : Output
  start = record { text = []; printed = 0 }

  -- vprintf with a console, on a format without percent signs and with more fuel than it is long,
  -- returns: it has printed the format with a carriage return before each line feed, and the
  -- number of these characters is what it returns.
  pub vprintf-plain :
      (text : List ℕ) (fuel format : ℕ) (args : List ℕ)
      → IsPlain format text m
      → m (format + length text) ≡ 0
      → vprintf buf m (length text + suc fuel) true format args
        ≡ some (record { text = crlf text; printed = length (crlf text) })
  unfolding vprintf print_from
  vprintf-plain text fuel format args t end =
      let stop : (m (format + length text) == 0) ≡ true = ground arith in
      print_from-plain text (length text + suc fuel) (suc fuel) format args _ t refl
      ∙ rw stop (ap some (Output-eq _ _ refl (omega arith)))

  -- A percent sign at the end of a format that is plain before it: vprintf with a console prints
  -- it, and the 0 after it as a character, and then goes on with the byte behind the 0, past the
  -- end of the format.
  pub vprintf-past_end :
      (text : List ℕ) (fuel format : ℕ) (args : List ℕ)
      → IsPlain format text m
      → m (format + length text) ≡ 37
      → m (format + length text + 1) ≡ 0
      → vprintf buf m (length text + suc fuel) true format args
        ≡ print_from buf m fuel
            (format + length text + 2)
            args
            (record { text = crlf text ++ 37 ∷ 0 ∷ []; printed = length (crlf text) + 2 })
  unfolding vprintf print_from specifier
  vprintf-past_end text fuel format args t percent end =
      print_from-plain text (length text + suc fuel) (suc fuel) format args _ t refl
      ∙ rw (percent, end, end, end)
          (ap (λ a. print_from buf m fuel a args (putc 0 (putc 37 (after (crlf text) start)))) there
            ∙ ap (print_from buf m fuel (format + length text + 2) args)
                (Output-eq _ _ (append_assoc (crlf text) (37 ∷ []) (0 ∷ [])) (omega arith)))
    where
      there : format + length text + 1 + 1 ≡ format + length text + 2
      there = omega arith
