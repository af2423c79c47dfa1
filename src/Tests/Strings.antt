-- ===== src/Tests/Strings.antt =====
-- A copy between overlapping ranges, and a fill.
use kernelite.Base.{◌+◌, ◌-◌, ◌≡◌, ◌==◌, ◌&&◌, ◌||◌, ltb, leb, if◌then◌else◌, Mem}
use kernelite.Strings.Memory.{memmove}
use kernelite.Strings.Moves.{memmove_lem}
use kernelite.Base.{ℕ, ◌%◌, ◌^◌, ◌≢◌, ◌⊎◌, inl, inr, refl, arith, some, List, [], ◌∷◌}
use kernelite.Strings.Read.{pos, strcmp, strtoul}
use kernelite.Strings.Texts.{IsText, IsDigits, order, number, strcmp_lem, strtoul_lem}

abbrev ramp : Mem
ramp a = a

memmove_lem_example :
    memmove 102 100 4 ramp 104
    ≡ (if leb 102 104 && ltb 104 (102 + 4) then ramp (100 + (104 - 102)) else ramp 104)
memmove_lem_example = memmove_lem 102 100 4 104 ramp

-- "0x1F" at 100 and "0x10" at 200.
abbrev texts : Mem
texts a =
    if a == 100 || a == 200
    then 0x30
    else if a == 101 || a == 201
    then 0x78
    else if a == 102 || a == 202
    then 0x31
    else if a == 103
    then 0x46
    else if a == 203
    then 0x30
    else 0

read_hex : strtoul 10 100 0 texts ≡ some (0x1F, 104)
unfolding strtoul
read_hex = refl

IsText-at_100 : IsText 100 (0x30 ∷ 0x78 ∷ 0x31 ∷ 0x46 ∷ []) texts
IsText-at_100 =
    (refl, omega arith, (refl, omega arith, (refl, omega arith, (refl, omega arith, refl))))

IsText-at_200 : IsText 200 (0x30 ∷ 0x78 ∷ 0x31 ∷ 0x30 ∷ []) texts
IsText-at_200 =
    (refl, omega arith, (refl, omega arith, (refl, omega arith, (refl, omega arith, refl))))

IsDigits-at_102 : IsDigits 16 102 (1 ∷ 15 ∷ []) texts
IsDigits-at_102 = (inl refl, omega arith, (inr refl, omega arith, λ d l s. ground (arith, s)))

strcmp_lem_example :
    let (left, right) : List ℕ × List ℕ =
      (0x30 ∷ 0x78 ∷ 0x31 ∷ 0x46 ∷ [], 0x30 ∷ 0x78 ∷ 0x31 ∷ 0x30 ∷ []) in
    (strcmp 10 100 200 texts ≡ some (order left right))
    × (((left ≡ right) × (order left right ≡ pos 0))
        ⊎ ((left ≢ right) × (order left right ≢ pos 0)))
strcmp_lem_example =
    strcmp_lem (0x30 ∷ 0x78 ∷ 0x31 ∷ 0x46 ∷ []) (0x30 ∷ 0x78 ∷ 0x31 ∷ 0x30 ∷ []) 10 100 200 texts
      IsText-at_100 IsText-at_200 (omega arith)

strtoul_lem_example : strtoul 10 100 0 texts ≡ some (number 16 0 (1 ∷ 15 ∷ []) % 2 ^ 64, 102 + 2)
strtoul_lem_example =
    strtoul_lem 0 16 100 102 10 (1 ∷ 15 ∷ []) texts (inl (inl refl, (refl, inl refl), refl, refl))
      IsDigits-at_102 (omega arith)
