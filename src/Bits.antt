-- ===== src/Bits.antt =====
-- The bits of a number, and what `|`, `&` and `~` do to them, at every width.
use Prim.Native.Nat.{digits, bitwise, bit_and-bitwise, bit_or-bitwise}
use native.Mathlib.Numerals.{unary_clauses}
use native.Mathlib.Nat.{le_refl, pow-suc, one-le-pow}
use mathlib.Core.Path.{ap₂, sym}
use native.Mathlib.Nat.{
  div-div-eq-div-mul, mod-lt, mod-eq_of_lt, div-add-mod, mul-add-mod_self_left,
}
use kernelite.Base.{ℕ, zero, suc, ◌+◌, ◌-◌, ◌*◌, ◌/◌, ◌%◌, ◌^◌, ◌≤◌, ◌<◌, min, max}
use kernelite.Base.{bit_and, bit_or, ◌≡◌, refl, ap, ◌∙◌, arith, ◌==◌, if◌then◌else◌}

-- A recursion on binary digits that is given more rounds than its first argument needs.
module _ (z : ℕ → ℕ) (op : ℕ → ℕ → ℕ) where
  spare_rounds : (k n x y : ℕ) → x ≤ n → digits z op (n + k) x y ≡ digits z op n x y
  spare_rounds zero n x y h = ap (λ r. digits z op r x y) (omega arith)
  spare_rounds (suc k) zero zero y h = simp unary_clauses refl
  spare_rounds (suc k) zero (suc x) y h = absurd (omega arith)
  spare_rounds (suc k) (suc n) zero y h = simp unary_clauses refl
  spare_rounds (suc k) (suc n) (suc x) y h =
      ap (λ r. digits z op r (suc x) y) more
      ∙ ap (λ (r : ℕ). r * 2 + op (suc x % 2) (y % 2))
          (spare_rounds (suc k) n (suc x / 2) (y / 2) (omega arith))
    where
      more : suc n + suc k ≡ suc (n + suc k)
      more = omega arith

  lowest_digit :
      ((y : ℕ) → z y ≡ z (y / 2) * 2 + op 0 (y % 2))
      → (x y : ℕ) → bitwise z op x y ≡ bitwise z op (x / 2) (y / 2) * 2 + op (x % 2) (y % 2)
  lowest_digit base zero y = base y
  lowest_digit base (suc x) y =
      ap (λ (r : ℕ). r * 2 + op (suc x % 2) (y % 2))
        (ap (λ r. digits z op r (suc x / 2) (y / 2)) (omega arith)
          ∙ spare_rounds (x - suc x / 2) (suc x / 2) (suc x / 2) (y / 2) (omega arith))

pub bit_or_step : (a b : ℕ) → bit_or a b ≡ bit_or (a / 2) (b / 2) * 2 + max (a % 2) (b % 2)
bit_or_step a b = simp bit_or-bitwise (lowest_digit (λ y. y) max (λ y. omega arith) a b)

pub bit_and_step : (a b : ℕ) → bit_and a b ≡ bit_and (a / 2) (b / 2) * 2 + min (a % 2) (b % 2)
bit_and_step a b = simp bit_and-bitwise (lowest_digit (λ y. 0) min (λ y. omega arith) a b)

-- Both go from `a / 2` to `a`, hence the bound on `a`.
bit_or-zero_below : (n a : ℕ) → a ≤ n → bit_or a 0 ≡ a
bit_or-zero_below n zero h = refl
bit_or-zero_below zero (suc a) h = absurd (omega arith)
bit_or-zero_below (suc n) (suc a) h =
    omega (arith, bit_or_step (suc a) 0, bit_or-zero_below n (suc a / 2) (omega arith))

bit_and-zero_below : (n a : ℕ) → a ≤ n → bit_and a 0 ≡ 0
bit_and-zero_below n zero h = refl
bit_and-zero_below zero (suc a) h = absurd (omega arith)
bit_and-zero_below (suc n) (suc a) h =
    omega (arith, bit_and_step (suc a) 0, bit_and-zero_below n (suc a / 2) (omega arith))

pub bit_or-zero : (a : ℕ) → bit_or a 0 ≡ a
bit_or-zero a = bit_or-zero_below a a (le_refl a)

bit_and-zero : (a : ℕ) → bit_and a 0 ≡ 0
bit_and-zero a = bit_and-zero_below a a (le_refl a)

-- Bit `k` of a number.
unfoldable pub bit : ℕ → ℕ → ℕ
bit zero a = a % 2
bit (suc k) a = bit k (a / 2)

pub bit-lt : (k a : ℕ) → bit k a < 2
unfolding bit
bit-lt zero a = omega arith
bit-lt (suc k) a = bit-lt k (a / 2)

pub bit-bit_or : (k a b : ℕ) → bit k (bit_or a b) ≡ max (bit k a) (bit k b)
unfolding bit
bit-bit_or zero a b = omega (arith, bit_or_step a b)
bit-bit_or (suc k) a b = ap (bit k) (omega (arith, bit_or_step a b)) ∙ bit-bit_or k (a / 2) (b / 2)

pub bit-bit_and : (k a b : ℕ) → bit k (bit_and a b) ≡ min (bit k a) (bit k b)
unfolding bit
bit-bit_and zero a b = omega (arith, bit_and_step a b)
bit-bit_and (suc k) a b =
    ap (bit k) (omega (arith, bit_and_step a b)) ∙ bit-bit_and k (a / 2) (b / 2)

pub bit-zero : (k : ℕ) → bit k 0 ≡ 0
unfolding bit
bit-zero zero = refl
bit-zero (suc k) = bit-zero k

pub bit-pow : (k j : ℕ) → bit k (2 ^ j) ≡ (if k == j then 1 else 0)
unfolding bit
bit-pow zero zero = refl
bit-pow zero (suc j) = ground (arith, pow-suc 2 j)
bit-pow (suc k) zero = ground (arith, bit-zero k)
bit-pow (suc k) (suc j) = ap (bit k) (omega (arith, pow-suc 2 j)) ∙ bit-pow k j ∙ ground arith

-- `~a` at width `w`.
pub bit-complement : (k w a : ℕ) → k < w → a < 2 ^ w → bit k (2 ^ w - 1 - a) ≡ 1 - bit k a
unfolding bit
bit-complement k zero a h l = absurd (omega arith)
bit-complement zero (suc w) a h l = omega (arith, pow-suc 2 w)
bit-complement (suc k) (suc w) a h l =
    ap (bit k) (omega (arith, pow-suc 2 w))
    ∙ bit-complement k w (a / 2) (omega arith) (omega (arith, pow-suc 2 w))

-- The remainder by a power of two, one binary digit at a time.
mod-pow_suc : (w a : ℕ) → a % 2 ^ suc w ≡ a / 2 % 2 ^ w * 2 + a % 2
mod-pow_suc w a =
    ap (λ (t : ℕ). t % 2 ^ suc w) split
    ∙ mul-add-mod_self_left (2 ^ suc w) (a / 2 / 2 ^ w) (a / 2 % 2 ^ w * 2 + a % 2)
    ∙ mod-eq_of_lt (omega (arith, pow-suc 2 w, mod-lt (a / 2) (one-le-pow w 2 (omega arith))))
  where
    split : a ≡ 2 ^ suc w * (a / 2 / 2 ^ w) + (a / 2 % 2 ^ w * 2 + a % 2)
    split =
        omega
          (arith, ap (λ (t : ℕ). t * (a / 2 / 2 ^ w)) (pow-suc 2 w), div-add-mod (a / 2) (2 ^ w))

-- A cast to `w` bits keeps the bits below `w`.
pub bit-mod : (k w a : ℕ) → k < w → bit k (a % 2 ^ w) ≡ bit k a
unfolding bit
bit-mod k zero a h = absurd (omega arith)
bit-mod zero (suc w) a h = omega (arith, mod-pow_suc w a)
bit-mod (suc k) (suc w) a h =
    ap (bit k) (omega (arith, mod-pow_suc w a)) ∙ bit-mod k w (a / 2) (omega arith)

-- `x & (1 << k)` is bit `k` in place.
pub bit_and-pow : (k a : ℕ) → bit_and a (2 ^ k) ≡ bit k a * 2 ^ k
unfolding bit
bit_and-pow zero a = omega (arith, bit_and_step a 1, bit_and-zero (a / 2))
bit_and-pow (suc k) a = omega (
  arith,
  bit_and_step a (2 ^ suc k),
  pow-suc 2 k,
  ap (bit_and (a / 2)) half,
  bit_and-pow k (a / 2),
  ap (λ (t : ℕ). bit k (a / 2) * t) (pow-suc 2 k),
)
  where
    half : 2 ^ suc k / 2 ≡ 2 ^ k
    half = omega (arith, pow-suc 2 k)

-- A mask of `k` low ones is the remainder by `2 ^ k`.
pub bit_and_mask : (k a : ℕ) → bit_and a (2 ^ k - 1) ≡ a % 2 ^ k
bit_and_mask zero a = omega (arith, bit_and-zero a)
bit_and_mask (suc k) a = omega (
  arith,
  bit_and_step a (2 ^ suc k - 1),
  pow-suc 2 k,
  one-le-pow k 2,
  ap (bit_and (a / 2)) half,
  bit_and_mask k (a / 2),
  mod-pow_suc k a,
)
  where
    half : (2 ^ suc k - 1) / 2 ≡ 2 ^ k - 1
    half = omega (arith, pow-suc 2 k, one-le-pow k 2)

-- `(q << k) | r` is a sum when `r` fits `k` bits.
pub bit_or_fields : (k q r : ℕ) → r < 2 ^ k → bit_or (q * 2 ^ k) r ≡ q * 2 ^ k + r
bit_or_fields zero q r fits = ground (arith, bit_or-zero q)
bit_or_fields (suc k) q r fits = omega (
  arith,
  bit_or_step (q * 2 ^ suc k) r,
  double,
  ap (λ (t : ℕ). bit_or t (r / 2)) half,
  bit_or_fields k q (r / 2) (omega (arith, pow-suc 2 k)),
)
  where
    double : q * 2 ^ suc k ≡ 2 * (q * 2 ^ k)
    double = omega (arith, ap (λ (t : ℕ). q * t) (pow-suc 2 k))

    half : q * 2 ^ suc k / 2 ≡ q * 2 ^ k
    half = omega (arith, double)

-- A mask shifted left selects from the bits above `k`.
pub bit_and_shifted : (k a mask : ℕ) → bit_and a (mask * 2 ^ k) ≡ bit_and (a / 2 ^ k) mask * 2 ^ k
bit_and_shifted zero a mask =
    ap₂ (λ (s t : ℕ). bit_and s t) (let e : a ≡ a / 2 ^ 0 = omega arith in e)
      (let e : mask * 2 ^ 0 ≡ mask = omega arith in e)
    ∙ omega arith
bit_and_shifted (suc k) a mask =
    bit_and_step a (mask * 2 ^ suc k)
    ∙ omega (
      arith,
      double,
      ap (bit_and (a / 2)) half,
      bit_and_shifted k (a / 2) mask,
      ap (λ (t : ℕ). bit_and t mask * 2 ^ k)
          (div-div-eq-div-mul a 2 (2 ^ k) ∙ ap (λ (t : ℕ). a / t) twice),
      ap (λ (t : ℕ). bit_and (a / 2 ^ suc k) mask * t) (pow-suc 2 k),
    )
  where
    twice : 2 * 2 ^ k ≡ 2 ^ suc k
    twice = omega (arith, pow-suc 2 k)

    double : mask * 2 ^ suc k ≡ 2 * (mask * 2 ^ k)
    double = omega (arith, ap (λ (t : ℕ). mask * t) (pow-suc 2 k))

    half : mask * 2 ^ suc k / 2 ≡ mask * 2 ^ k
    half = omega (arith, double)

-- `a & (ones << k)` with `w` ones keeps `w` bits from bit `k` on.
pub bit_and_high : (k w a : ℕ) → bit_and a ((2 ^ w - 1) * 2 ^ k) ≡ a / 2 ^ k % 2 ^ w * 2 ^ k
bit_and_high k w a =
    bit_and_shifted k a (2 ^ w - 1) ∙ ap (λ (t : ℕ). t * 2 ^ k) (bit_and_mask w (a / 2 ^ k))

bit_or_comm_below : (n a b : ℕ) → a ≤ n → b ≤ n → bit_or a b ≡ bit_or b a
bit_or_comm_below zero a b h k =
    ap₂ bit_or zeros refl ∙ ap (bit_or 0) others ∙ sym (ap₂ bit_or others zeros)
  where
    zeros : a ≡ 0
    zeros = omega arith

    others : b ≡ 0
    others = omega arith
bit_or_comm_below (suc n) a b h k = omega (
  arith,
  bit_or_step a b,
  bit_or_step b a,
  bit_or_comm_below n (a / 2) (b / 2) (omega arith) (omega arith),
)

pub bit_or_comm : (a b : ℕ) → bit_or a b ≡ bit_or b a
bit_or_comm a b = bit_or_comm_below (a + b) a b (omega arith) (omega arith)
