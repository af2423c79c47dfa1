-- ===== src/Strings/Texts.antt =====
-- src/kernel/utils/string.c: the lengths and the comparisons of strings in memory, and the numbers read from them.
use mathlib.Core.Path.{subst}
use kernelite.Base.{
  ◌≤◌, Bool, ltb, ltb→lt, glyph, capital, glyph_low, glyph_high, capital_low, capital_high, ℕ, zero,
  suc, ◌+◌, ◌-◌, ◌*◌, ◌%◌, ◌^◌, ◌<◌, ◌≡◌, ◌≢◌, ◌⊎◌, inl, inr, refl, ap, sym, ◌∙◌, arith, min,
}
use kernelite.Base.{
  true, false, Bool-cases, none, some, List, [], ◌∷◌, length, leb, ◌==◌, ◌!=◌, ◌&&◌, ◌||◌,
  if◌then◌else◌, u64, Mem,
}
use kernelite.Base.{==_iff}
use kernelite.Strings.Read.{
  ℤ, pos, negsuc, byte_diff, strlen_from, strlen, strnlen_from, strnlen, strcmp, digit, read_digits,
  strtoul,
}

-- A list of bytes at an address, none of them 0, and then the 0.
abbrev pub IsText : ℕ → List ℕ → Mem → Type 0
IsText str [] m = m str ≡ 0
IsText str (c ∷ text) m = (m str ≡ c) × (c ≢ 0) × IsText (str + 1) text m

strlen_from-length :
    (text : List ℕ) (fuel str len : ℕ) (m : Mem)
    → IsText (str + len) text m
    → length text < fuel
    → strlen_from fuel str len m ≡ some (len + length text)
unfolding strlen_from
strlen_from-length text zero str len m t l = absurd (omega arith)
strlen_from-length [] (suc fuel) str len m t l =
    let zero' : (m (str + len) == 0) ≡ true = ground arith in rw zero' (ap some (omega arith))
strlen_from-length (c ∷ text) (suc fuel) str len m (e, ne, t) l =
    let more : (m (str + len) == 0) ≡ false = ground arith in
    let there : str + len + 1 ≡ str + (len + 1) = omega arith in
    let rest =
      strlen_from-length text fuel str (len + 1) m (subst (λ a. IsText a text m) there t)
        (omega arith) in
    rw more (rest ∙ ap some (omega arith))

strnlen_from-min :
    (text : List ℕ) (left str len : ℕ) (m : Mem)
    → IsText (str + len) text m
    → strnlen_from left str len m ≡ len + min left (length text)
unfolding strnlen_from
strnlen_from-min text zero str len m t = omega arith
strnlen_from-min [] (suc left) str len m t =
    let zero' : (m (str + len) == 0) ≡ true = ground arith in rw zero' (omega arith)
strnlen_from-min (c ∷ text) (suc left) str len m (e, ne, t) =
    let more : (m (str + len) == 0) ≡ false = ground arith in
    let there : str + len + 1 ≡ str + (len + 1) = omega arith in
    let rest = strnlen_from-min text left str (len + 1) m (subst (λ a. IsText a text m) there t) in
    rw more (rest ∙ omega arith)

-- Of a text in memory, strlen with more fuel than its length gives the length, and strnlen the smaller of
-- the length and the limit.
lengths_lem :
    (text : List ℕ) (fuel str maxlen : ℕ) (m : Mem)
    → IsText str text m
    → length text < fuel
    → (strlen fuel str m ≡ some (length text)) × (strnlen str maxlen m ≡ min maxlen (length text))
unfolding strlen strnlen
lengths_lem text fuel str maxlen m t l =
    let start : str ≡ str + 0 = omega arith in
    let t' = subst (λ a. IsText a text m) start t in
    (
      strlen_from-length text fuel str 0 m t' l ∙ ap some (omega arith),
      strnlen_from-min text maxlen str 0 m t' ∙ omega arith,
    )

byte_diff_self : (a : ℕ) → byte_diff a a ≡ pos 0
unfolding byte_diff
byte_diff_self a = let le : leb a a ≡ true = ground arith in rw le (ap pos (omega arith))

magnitude : ℤ → ℕ
magnitude (pos n) = n
magnitude (negsuc n) = suc n

magnitude-byte_diff : (a b : ℕ) → magnitude (byte_diff a b) ≡ (a - b) + (b - a)
unfolding byte_diff magnitude
magnitude-byte_diff a b = elim (Bool-cases (leb b a)) [
  | inl le ↦ rw le (ground arith)
  | inr gt ↦ rw gt (ground arith)
]

byte_diff-ne : (a b : ℕ) → a ≢ b → byte_diff a b ≢ pos 0
unfolding magnitude
byte_diff-ne a b ne e =
    let zero' : 0 ≡ (a - b) + (b - a) = sym (ap magnitude e) ∙ magnitude-byte_diff a b in
    ne (omega arith)

-- The order of two texts: the difference of the first bytes that differ, with 0 after the end.
unfoldable pub order : List ℕ → List ℕ → ℤ
order [] [] = pos 0
order [] (b ∷ right) = byte_diff 0 b
order (a ∷ left) [] = byte_diff a 0
order (a ∷ left) (b ∷ right) = let rest = order left right in if a == b then rest else byte_diff a b

strcmp-order :
    (left right : List ℕ) (fuel lhs rhs : ℕ) (m : Mem)
    → IsText lhs left m
    → IsText rhs right m
    → length left < fuel
    → strcmp fuel lhs rhs m ≡ some (order left right)
unfolding strcmp order
strcmp-order left right zero lhs rhs m s t l = absurd (omega arith)
strcmp-order [] [] (suc fuel) lhs rhs m s t l = rw (s, t) (ap some (byte_diff_self 0))
strcmp-order [] (b ∷ right) (suc fuel) lhs rhs m s (e, ne, t) l = rw (s, e) refl
strcmp-order (a ∷ left) [] (suc fuel) lhs rhs m (e, ne, s) t l =
    let stop : ((a != 0) && (a == 0)) ≡ false = ground arith in rw (e, t, stop) refl
strcmp-order (a ∷ left) (b ∷ right) (suc fuel) lhs rhs m (e, ne, s) (e', ne', t) l =
    let some' : (a != 0) ≡ true = ground arith in
    rw (e, e', some')
      (elim (Bool-cases (a == b)) [
        | inl same ↦ rw same (strcmp-order left right fuel (lhs + 1) (rhs + 1) m s t (omega arith))
        | inr other ↦ rw other refl
      ])

order_self : (text : List ℕ) → order text text ≡ pos 0
unfolding order
order_self [] = refl
order_self (a ∷ text) = let same : (a == a) ≡ true = ground arith in rw same (order_self text)

order-same :
    (a b : ℕ) (left right : List ℕ)
    → (a == b) ≡ true
    → order (a ∷ left) (b ∷ right) ≡ order left right
unfolding order
order-same a b left right same = rw same refl

order-other :
    (a b : ℕ) (left right : List ℕ)
    → (a == b) ≡ false
    → order (a ∷ left) (b ∷ right) ≡ byte_diff a b
unfolding order
order-other a b left right other = rw other refl

order-equal :
    (lhs rhs : ℕ) (left right : List ℕ) (m : Mem)
    → IsText lhs left m
    → IsText rhs right m
    → order left right ≡ pos 0
    → left ≡ right
unfolding order
order-equal lhs rhs [] [] m s t e = refl
order-equal lhs rhs [] (b ∷ right) m s (_, ne, t) e = absurd (byte_diff-ne 0 b (λ h. ne (sym h)) e)
order-equal lhs rhs (a ∷ left) [] m (_, ne, s) t e = absurd (byte_diff-ne a 0 ne e)
order-equal lhs rhs (a ∷ left) (b ∷ right) m (_, _, s) (_, _, t) e = elim (Bool-cases (a == b)) [
  | inl same ↦
      ap (λ c. c ∷ left) ((==_iff a b).0 same)
      ∙ ap (λ l. b ∷ l)
          (order-equal (lhs + 1) (rhs + 1) left right m s t
            (sym (order-same a b left right same) ∙ e))
  | inr other ↦ absurd (
      byte_diff-ne a b (λ h. let yes' : (a == b) ≡ true = (==_iff a b).1 h in cc (yes', other))
        (sym (order-other a b left right other) ∙ e))
]

zero-cases : (z : ℤ) → (z ≡ pos 0) ⊎ (z ≢ pos 0)
unfolding magnitude
zero-cases (pos zero) = inl refl
zero-cases (pos (suc n)) = inr (λ e. let h : suc n ≡ 0 = ap magnitude e in omega arith)
zero-cases (negsuc n) = inr (λ e. let h : suc n ≡ 0 = ap magnitude e in omega arith)

-- strcmp on two texts in memory, with more fuel than the first is long, returns the difference of the first bytes that
-- differ, where 0 follows the end of a text; this is 0 if the texts are equal, and not 0 if they are not.
pub strcmp_lem :
    (left right : List ℕ) (fuel lhs rhs : ℕ) (m : Mem)
    → IsText lhs left m
    → IsText rhs right m
    → length left < fuel
    → (strcmp fuel lhs rhs m ≡ some (order left right))
      × (((left ≡ right) × (order left right ≡ pos 0))
          ⊎ ((left ≢ right) × (order left right ≢ pos 0)))
strcmp_lem left right fuel lhs rhs m s t l = (
  strcmp-order left right fuel lhs rhs m s t l,
  elim (zero-cases (order left right)) [
    | inl e ↦ inl (order-equal lhs rhs left right m s t e, e)
    | inr ne ↦ inr (λ e. ne (ap (order left) (sym e) ∙ order_self left), ne)
  ],
)

-- The character stands for the digit `d`, a small or a capital letter from ten on.
abbrev pub Stands : ℕ → ℕ → Type 0
Stands chr d = (chr ≡ glyph d) ⊎ (chr ≡ capital d)

-- The digits of a number at an address, and then a character that is no digit of the base.
abbrev pub IsDigits : ℕ → ℕ → List ℕ → Mem → Type 0
IsDigits base nptr [] m = (d : ℕ) → d < base → ¬ Stands (m nptr) d
IsDigits base nptr (value ∷ values) m =
    Stands (m nptr) value × (value < base) × IsDigits base (nptr + 1) values m

-- The characters of a digit, by their distance from '0', 'a' and 'A'.
Stands-code :
    (chr d : ℕ)
    → d < 16
    → Stands chr d
    → ((d < 10) × (chr ≡ d + 48)) ⊎ ((10 ≤ d) × ((chr ≡ d + 87) ⊎ (chr ≡ d + 55)))
Stands-code chr d l s = elim (Bool-cases (ltb d 10)) [
  | inl low ↦
      let low' = ltb→lt d 10 low in
      inl (low', elim s [ inl e ↦ e ∙ glyph_low d low' | inr e ↦ e ∙ capital_low d low' ])
  | inr high ↦
      let ten : 10 ≤ d = ground arith in
      inr (
        ten,
        elim s [ inl e ↦ inl (e ∙ glyph_high d ten l) | inr e ↦ inr (e ∙ capital_high d ten l) ],
      )
]

digit_of-Stands : (chr d : ℕ) → d < 16 → Stands chr d → digit chr ≡ some d
unfolding digit
digit_of-Stands chr d l s = elim (Stands-code chr d l s) [
  | inl (low, e) ↦ rw e (ground arith)
  | inr (ten, inl e) ↦ rw e (ground arith)
  | inr (ten, inr e) ↦ rw e (ground arith)
]

digit-cases :
    (chr : ℕ) → (digit chr ≡ none) ⊎ ((d : ℕ) × (digit chr ≡ some d) × (d < 16) × Stands chr d)
unfolding digit
digit-cases chr = elim (Bool-cases (leb 48 chr && leb chr 57)) [
  | inl ten ↦
      let low : 48 ≤ chr = ground arith in
      let high : chr ≤ 57 = ground arith in
      inr (
        chr - 48,
        rw ten refl,
        omega arith,
        inl (omega arith ∙ sym (glyph_low (chr - 48) (omega arith))),
      )
  | inr other ↦ elim (Bool-cases (leb 97 chr && leb chr 102)) [
    | inl small ↦
        let low : 97 ≤ chr = ground arith in
        let high : chr ≤ 102 = ground arith in
        inr (
          chr - 97 + 10,
          rw (other, small) refl,
          omega arith,
          inl (omega arith ∙ sym (glyph_high (chr - 97 + 10) (omega arith) (omega arith))),
        )
    | inr big ↦ elim (Bool-cases (leb 65 chr && leb chr 70)) [
      | inl large ↦
          let low : 65 ≤ chr = ground arith in
          let high : chr ≤ 70 = ground arith in
          inr (
            chr - 65 + 10,
            rw (other, big, large) refl,
            omega arith,
            inr (omega arith ∙ sym (capital_high (chr - 65 + 10) (omega arith) (omega arith))),
          )
      | inr none' ↦ inl (rw (other, big, none') refl)
    ]
  ]
]

unfoldable pub number : ℕ → ℕ → List ℕ → ℕ
number base res [] = res
number base res (value ∷ values) = number base (res * base + value) values

read_digits-number :
    (base : ℕ) (values : List ℕ) (fuel nptr res : ℕ) (m : Mem)
    → (base ≡ 10) ⊎ (base ≡ 16)
    → IsDigits base nptr values m
    → length values < fuel
    → read_digits fuel base nptr (res % 2 ^ 64) m
      ≡ some (number base res values % 2 ^ 64, nptr + length values)
unfolding read_digits number
read_digits-number base values zero nptr res m b d l = absurd (omega arith)
read_digits-number base [] (suc fuel) nptr res m b d l = elim (digit-cases (m nptr)) [
  | inl end ↦ rw (end, read_digits) (ap (λ p. some (res % 2 ^ 64, p)) (omega arith))
  | inr (value, e, _, stands) ↦
      let over : leb base value ≡ true = elim (Bool-cases (leb base value)) [
        | inl big ↦ big
        | inr small ↦ absurd (d value (ground arith) stands)
      ] in
      rw (e, read_digits, over) (ap (λ p. some (res % 2 ^ 64, p)) (omega arith))
]
read_digits-number base (value ∷ values) (suc fuel) nptr res m b (s, small, ds) l =
    let few : value < 16 = elim b [ inl ten ↦ omega arith | inr sixteen ↦ omega arith ] in
    let d : digit (m nptr) ≡ some value = digit_of-Stands (m nptr) value few s in
    let go : leb base value ≡ false = ground arith in
    let carry : u64 (u64 (res % 2 ^ 64 * base) + value) ≡ (res * base + value) % 2 ^ 64 = elim b [
      | inl ten ↦ rw ten (omega arith)
      | inr sixteen ↦ rw sixteen (omega arith)
    ] in
    rw (d, read_digits, go, carry)
      (read_digits-number base values fuel (nptr + 1) (res * base + value) m b ds (omega arith)
        ∙ ap (λ p. some (number base (res * base + value) values % 2 ^ 64, p)) (omega arith))

-- The prefix 0x or 0X.
abbrev pub Prefixed : ℕ → Mem → Type 0
Prefixed nptr m = (m nptr ≡ 0x30) × ((m (nptr + 1) ≡ 0x78) ⊎ (m (nptr + 1) ≡ 0x58))

-- Where the digits of a number start that strtoul reads with base 0, 10 or 16, and their radix: after the prefix in base 0 or
-- 16; with no prefix in radix 16 in base 16, and in radix 10 in base 0; and always in radix 10 in base 10.
abbrev pub StartsAt : ℕ → ℕ → Mem → ℕ → ℕ → Type 0
StartsAt base nptr m radix start =
    (((base ≡ 0) ⊎ (base ≡ 16)) × Prefixed nptr m × (radix ≡ 16) × (start ≡ nptr + 2))
    ⊎ (((base ≡ 10) ⊎ ¬ Prefixed nptr m)
        × (((base ≡ 0) × (radix ≡ 10))
            ⊎ ((base ≡ 10) × (radix ≡ 10))
            ⊎ ((base ≡ 16) × (radix ≡ 16)))
        × (start ≡ nptr))

prefix_test : ℕ → ℕ → Mem → Bool
prefix_test base nptr m =
    (base == 0 || base == 16)
    && ((m nptr == 0x30) && (m (nptr + 1) == 0x78 || m (nptr + 1) == 0x58))

prefix_test-Prefixed :
    (base nptr : ℕ) (m : Mem) → (base ≡ 10) ⊎ ¬ Prefixed nptr m → prefix_test base nptr m ≡ false
unfolding prefix_test
prefix_test-Prefixed base nptr m (inl ten) = rw ten refl
prefix_test-Prefixed base nptr m (inr plain) = ground (arith, plain)

-- strtoul in base 0, 10 or 16, on digits and then a character that is no digit of the radix, with more fuel than there are
-- digits: it returns the number that the digits stand for in the radix, cut to 64 bits, and the address of what follows the
-- last digit. Digits are '0' to '9', 'a' to 'f' and 'A' to 'F'; there may be none.
pub strtoul_lem :
    (base radix nptr start fuel : ℕ) (values : List ℕ) (m : Mem)
    → StartsAt base nptr m radix start
    → IsDigits radix start values m
    → length values < fuel
    → strtoul fuel nptr base m ≡ some (number radix 0 values % 2 ^ 64, start + length values)
unfolding strtoul prefix_test
strtoul_lem base radix nptr start fuel values m (inl (b, prefix, r, at)) d l =
    let hex : prefix_test base nptr m ≡ true = ground (arith, b, prefix) in
    rw (hex, ← r, ← at) (read_digits-number radix values fuel start 0 m (inr r) d l)
strtoul_lem base radix nptr start fuel values m (inr (plain, b, at)) d l =
    let none' : prefix_test base nptr m ≡ false = prefix_test-Prefixed base nptr m plain in
    let ten : (if base == 0 then 10 else base) ≡ radix = ground (arith, b) in
    let r : (radix ≡ 10) ⊎ (radix ≡ 16) = elim b [
      | inl zero' ↦ inl zero'.1
      | inr (inl ten') ↦ inl ten'.1
      | inr (inr hex) ↦ inr hex.1
    ] in
    rw (none', ten, ← at) (read_digits-number radix values fuel start 0 m r d l)
