-- ===== src/Tests/Console.antt =====
-- Formatted output: a line, a number, and a percent sign at the end.
use kernelite.Base.{◌+◌, ◌-◌, ◌^◌, ◌≡◌, refl, arith, true, some, [], ◌∷◌}
use kernelite.Base.{◌==◌, leb, if◌then◌else◌, Mem, store}
use kernelite.Console.Printf.{Output, itoa, put_text, specifier, print_from, vprintf, digit_char}
use kernelite.Console.Digits.{Numeral, itoa_lem}
use kernelite.Console.Output.{Converts, after, specifier-Converts}
use kernelite.Console.Plain.{crlf, vprintf-plain, vprintf-past_end}

-- "a\n" at 100 and "a%" at 200.
abbrev formats : Mem
formats a =
    if a == 100
    then 97
    else if a == 101
    then 10
    else if a == 200
    then 97
    else if a == 201
    then 37
    else 0

abbrev nothing : Output
nothing = record { text = []; printed = 0 }

minus_twelve :
    specifier 1000 formats 30 100 ((2 ^ 64 - 12) ∷ []) nothing
    ≡ some ([], record { text = 45 ∷ 49 ∷ 50 ∷ []; printed = 3 })
unfolding specifier itoa put_text store digit_char
minus_twelve = refl

itoa_lem_example :
    (r : Mem) × (itoa 4 0x1F 16 1000 formats ≡ some r) × Numeral 0x1F 16 1000 formats r
itoa_lem_example =
    itoa_lem 2 0x1F 16 1000 formats (omega arith) (omega arith) (omega arith) (omega arith)

specifier-Converts_example :
    Converts 31 16 [] nothing (specifier 1000 formats 30 120 (31 ∷ []) nothing)
    × Converts 31 16 []
        (after (48 ∷ 120 ∷ []) nothing)
        (specifier 1000 formats 30 112 (31 ∷ []) nothing)
    × Converts 31 10 [] nothing (specifier 1000 formats 30 117 (31 ∷ []) nothing)
    × Converts
        (if leb (2 ^ 63) 31 then 2 ^ 64 - 31 else 31)
        10
        []
        (if leb (2 ^ 63) 31 then after (45 ∷ []) nothing else nothing)
        (specifier 1000 formats 30 100 (31 ∷ []) nothing)
specifier-Converts_example =
    specifier-Converts 30 1000 formats 31 [] nothing (omega arith) (omega arith) (omega arith)

vprintf-plain_example :
    vprintf 1000 formats (2 + 1) true 100 []
    ≡ some (record { text = 97 ∷ 13 ∷ 10 ∷ []; printed = 3 })
unfolding crlf
vprintf-plain_example =
    vprintf-plain 1000 formats (97 ∷ 10 ∷ []) 0 100 []
      (refl, omega arith, omega arith, (refl, omega arith, omega arith, tt)) refl

vprintf-past_end_example :
    vprintf 1000 formats (1 + 6) true 200 []
    ≡ print_from 1000 formats 5 203 [] (record { text = 97 ∷ 37 ∷ 0 ∷ []; printed = 3 })
unfolding crlf
vprintf-past_end_example =
    vprintf-past_end 1000 formats (97 ∷ []) 5 200 [] (refl, omega arith, omega arith, tt) refl refl
