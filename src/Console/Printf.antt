-- ===== src/Console/Printf.antt =====
-- src/kernel/utils/kprintf.c. Memory holds the format, the texts that arguments point to and the local array `buf`. Loops take fuel and give `none`
-- when it runs out.
use kernelite.Base.{u8, ℕ, zero, suc, ◌+◌, ◌-◌, ◌/◌, ◌%◌, ◌^◌, Bool, ◌||◌}
use kernelite.Base.{Option, none, some, List, [], ◌∷◌, ◌++◌, leb, ltb, ◌==◌, ◌!=◌, if◌then◌else◌}
use kernelite.Base.{u8, sub64, Mem, store}

-- `(digit < 10UL) ? (digit + '0') : (digit - 10 + 'a')`
unfoldable pub digit_char : ℕ → ℕ
digit_char digit = u8 (if ltb digit 10 then digit + 48 else digit - 10 + 97)

-- The do-while loop of itoa, which writes the digits from the last to the first: where it ends, and the memory.
unfoldable pub write_digits : ℕ → ℕ → ℕ → ℕ → Mem → Option (ℕ × Mem)
write_digits zero num base ptr m = none
write_digits (suc fuel) num base ptr m =
    let m' = store m ptr (digit_char (num % base)) in
    let rest = write_digits fuel (num / base) base (ptr + 1) m' in
    if ltb 0 (num / base) then rest else some (ptr + 1, m')

-- The loop that reverses the characters from `ptr1` to `ptr2`.
unfoldable pub reverse_chars : ℕ → ℕ → ℕ → Mem → Option Mem
reverse_chars zero ptr1 ptr2 m = none
reverse_chars (suc fuel) ptr1 ptr2 m =
    let m' = store (store m ptr1 (m ptr2)) ptr2 (m ptr1) in
    let rest = reverse_chars fuel (ptr1 + 1) (ptr2 - 1) m' in if ltb ptr1 ptr2 then rest else some m

unfoldable pub itoa : ℕ → ℕ → ℕ → ℕ → Mem → Option Mem
unfolding write_digits reverse_chars
itoa fuel num base buf m = elim (write_digits fuel num base buf m) [
  | none ↦ none
  | some (ptr, m') ↦ reverse_chars fuel buf (ptr - 1) (store m' ptr 0)
]

-- What has gone to the console, and the counter `printed`.
pub record Output : Type 0 where
  pub text : List ℕ
  pub printed : ℕ

abbrev pub putc : ℕ → Output → Output
putc chr o = record { text = o.text ++ chr ∷ []; printed = o.printed + 1 }

-- The loop that prints the characters of a text.
unfoldable pub put_text : ℕ → ℕ → Mem → Output → Option Output
put_text zero str m o = none
put_text (suc fuel) str m o =
    let rest = put_text fuel (str + 1) m (putc (m str) o) in if m str == 0 then some o else rest

-- `va_arg`; reading more arguments than there are is undefined.
unfoldable pub va_arg : List ℕ → ℕ × List ℕ
va_arg [] = (0, [])
va_arg (arg ∷ args) = (arg, args)

-- `(null)`
abbrev pub null_text : Output → Output
null_text o = putc 41 (putc 108 (putc 108 (putc 117 (putc 110 (putc 40 o)))))

module _ (buf : ℕ) (m : Mem) where
  unfoldable pub put_number : ℕ → ℕ → ℕ → Output → Option Output
  put_number fuel num base o = elim (itoa fuel num base buf m) [
    | none ↦ none
    | some m' ↦ put_text fuel buf m' o
  ]

  -- The switch of vprintf on a character, with the arguments that are left. Characters are 'x' 120, 'p' 112, 'c' 99, 's' 115, 'd' 100, 'u' 117
  -- and '%' 37.
  unfoldable pub specifier : ℕ → ℕ → List ℕ → Output → Option (List ℕ × Output)
  unfolding put_number va_arg
  specifier fuel chr args o =
      let (arg, args') = va_arg args in
      let with : Option Output → Option (List ℕ × Output) =
        λ r. elim r [ none ↦ none | some o' ↦ some (args', o') ] in
      if (chr == 120) || (chr == 112)
      then with (put_number fuel arg 16 (if chr == 112 then putc 120 (putc 48 o) else o))
      else if chr == 99
      then some (args', putc (u8 arg) o)
      else if chr == 115
      then with (if arg == 0 then some (null_text o) else put_text fuel arg m o)
      else if chr == 100
      then with (
          if leb (2 ^ 63) arg
          then put_number fuel (sub64 0 arg) 10 (putc 45 o)
          else put_number fuel arg 10 o)
      else if chr == 117
      then with (put_number fuel arg 10 o)
      else if chr == 37
      then some (args, putc 37 o)
      else some (args, putc chr (putc 37 o))

  -- The loop of vprintf; 'l' is 108.
  unfoldable pub print_from : ℕ → ℕ → List ℕ → Output → Option Output
  unfolding specifier
  print_from zero ptr args o = none
  print_from (suc fuel) ptr args o =
      let plain =
        print_from fuel (ptr + 1) args (putc (m ptr) (if m ptr == 10 then putc 13 o else o)) in
      let at = if m (ptr + 1) == 108 then ptr + 2 else ptr + 1 in
      let converted : Option Output = elim (specifier fuel (m at) args o) [
        | none ↦ none
        | some (args', o') ↦ print_from fuel (at + 1) args' o'
      ] in
      if m ptr == 0 then some o else if m ptr != 37 then plain else converted

  -- What vprintf has printed, whose counter it returns; `console` says whether a console is set.
  unfoldable pub vprintf : ℕ → Bool → ℕ → List ℕ → Option Output
  unfolding print_from
  vprintf fuel console format args =
      let start : Output = record { text = []; printed = 0 } in
      if console then print_from fuel format args start else some start
