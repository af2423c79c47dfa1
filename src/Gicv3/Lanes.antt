-- ===== src/Gicv3/Lanes.antt =====
-- The bits of a register after a bit is set or cleared, or a priority byte is written.
use native.Mathlib.Nat.{pow-suc, pow-le-pow_right}
use kernelite.Base.{ℕ, zero, suc, ◌+◌, ◌-◌, ◌*◌, ◌/◌, ◌%◌, ◌^◌, ◌≤◌, ◌<◌, max}
use kernelite.Base.{◌≡◌, ap, ◌∙◌, arith, ltb, leb, ◌==◌, ◌&&◌, if◌then◌else◌}
use kernelite.Base.{Bool-cases, inl, inr, ◌<<<◌, Mem, store_self}
use kernelite.Bits.{
  bit, bit-lt, bit-bit_or, bit-bit_and, bit-pow, bit-complement, bit-mod, bit-zero,
}
use kernelite.Gicv3.Configure.{raw, set_bit, clear_bit, write_priority}

bit-shifted : (s k a : ℕ) → bit (s + k) (a * 2 ^ s) ≡ bit k a
unfolding bit
bit-shifted zero k a = ap (λ i. bit i (a * 2 ^ 0)) same ∙ ap (bit k) one
  where
    same : 0 + k ≡ k
    same = omega arith

    one : a * 2 ^ 0 ≡ a
    one = omega arith
bit-shifted (suc s) k a =
    ap (λ i. bit i (a * 2 ^ suc s)) next ∙ ap (bit (s + k)) half ∙ bit-shifted s k a
  where
    next : suc s + k ≡ suc (s + k)
    next = omega arith

    half : a * 2 ^ suc s / 2 ≡ a * 2 ^ s
    half = omega (arith, ap (λ (t : ℕ). a * t) (pow-suc 2 s))

bit-below_shift : (s k a : ℕ) → k < s → bit k (a * 2 ^ s) ≡ 0
unfolding bit
bit-below_shift zero k a h = absurd (omega arith)
bit-below_shift (suc s) zero a h = omega (arith, ap (λ (t : ℕ). a * t) (pow-suc 2 s))
bit-below_shift (suc s) (suc k) a h =
    ap (bit k) (omega (arith, ap (λ (t : ℕ). a * t) (pow-suc 2 s)))
    ∙ bit-below_shift s k a (omega arith)

bit-small : (w k a : ℕ) → a < 2 ^ w → w ≤ k → bit k a ≡ 0
unfolding bit
bit-small zero k a l h = ap (bit k) (omega arith) ∙ bit-zero k
bit-small (suc w) zero a l h = absurd (omega arith)
bit-small (suc w) (suc k) a l h = bit-small w k (a / 2) (omega (arith, pow-suc 2 w)) (omega arith)

-- Bit `k` of a byte shifted left by `s`.
pub bit-byte_inside : (s k a : ℕ) → s ≤ k → bit k (a <<< s) ≡ bit (k - s) a
bit-byte_inside s k a h = ap (λ i. bit i (a * 2 ^ s)) back ∙ bit-shifted s (k - s) a
  where
    back : k ≡ s + (k - s)
    back = omega arith

pub bit-byte :
    (s k a : ℕ)
    → a < 2 ^ 8
    → bit k (a <<< s) ≡ (if leb s k && ltb k (s + 8) then bit (k - s) a else 0)
bit-byte s k a l = elim (Bool-cases (ltb k s)) [
  | inl h ↦ bit-below_shift s k a (ground arith) ∙ ground arith
  | inr h ↦ elim (Bool-cases (ltb k (s + 8))) [
    | inl g ↦ bit-byte_inside s k a (ground arith) ∙ ground arith
    | inr g ↦
        bit-byte_inside s k a (ground arith) ∙ bit-small 8 (k - s) a l (ground arith) ∙ ground arith
  ]
]

bit_of_ones : (k : ℕ) → k < 8 → bit k 0xFF ≡ 1
bit_of_ones k h = bit-complement k 8 0 h (omega arith) ∙ ap (λ b. 1 - b) (bit-zero k)

module _ (reg : ℕ) (regs : Mem) (i : ℕ) (small : i < 32) where
  raw_small : raw regs reg < 2 ^ 32
  unfolding raw
  raw_small = ground arith

  pub bit-set_bit :
      (k : ℕ) → bit i (raw (set_bit reg k regs) reg) ≡ (if i == k then 1 else bit i (raw regs reg))
  unfolding raw set_bit
  bit-set_bit k =
      ap (λ (w : ℕ). bit i (w % 2 ^ 32)) (store_self regs reg _)
      ∙ bit-mod i 32 _ small
      ∙ bit-bit_or i (raw regs reg) (2 ^ k)
      ∙ ground (arith, bit-pow i k, bit-lt i (raw regs reg))

  pub bit-clear_bit :
      (k : ℕ)
      → k < 32
      → bit i (raw (clear_bit reg k regs) reg) ≡ (if i == k then 0 else bit i (raw regs reg))
  unfolding raw clear_bit
  bit-clear_bit k h =
      ap (λ (w : ℕ). bit i (w % 2 ^ 32)) (store_self regs reg _)
      ∙ bit-mod i 32 _ small
      ∙ bit-bit_and i (raw regs reg) (2 ^ 32 - 1 - 2 ^ k)
      ∙ ground (
        arith,
        bit-complement i 32 (2 ^ k) small
            (omega (arith, pow-le-pow_right {n = 2} (omega arith) {i = k} {j = 31} (omega arith))),
        bit-pow i k,
        bit-lt i (raw regs reg),
      )

  -- The byte at `s` becomes the priority, and the other bits stay.
  pub bit-write_priority :
      (s p : ℕ)
      → s + 8 ≤ 32
      → p < 2 ^ 8
      → bit i (raw (write_priority reg s p regs) reg)
        ≡ (if leb s i && ltb i (s + 8) then bit (i - s) p else bit i (raw regs reg))
  unfolding raw write_priority
  bit-write_priority s p fits byte =
      ap (λ (w : ℕ). bit i (w % 2 ^ 32)) (store_self regs reg _)
      ∙ bit-mod i 32 _ small
      ∙ bit-bit_or i _ _
      ∙ ap (λ r. max r (bit i (p <<< s))) (bit-bit_and i (raw regs reg) (2 ^ 32 - 1 - (0xFF <<< s)))
      ∙ elim (Bool-cases (leb s i && ltb i (s + 8))) [
        | inl h ↦
            let ones = bit_of_ones (i - s) (ground arith) in
            ground (arith, outside, bit-byte s i 0xFF (omega arith), bit-byte s i p byte)
        | inr h ↦
            let old = bit-lt i (raw regs reg) in
            ground (arith, outside, bit-byte s i 0xFF (omega arith), bit-byte s i p byte)
      ]
    where
      outside : bit i (2 ^ 32 - 1 - (0xFF <<< s)) ≡ 1 - bit i (0xFF <<< s)
      outside =
          bit-complement i 32 (0xFF <<< s) small
            (omega (arith, pow-le-pow_right {n = 2} (omega arith) {i = s} {j = 24} (omega arith)))
