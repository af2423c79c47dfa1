-- ===== src/Mmu/Place.antt =====
-- Bit fields of a 64-bit register: where they lie, and what reading and assigning them does to the word.
use kernelite.Base.{ℕ, ◌+◌, ◌-◌, ◌*◌, ◌/◌, ◌%◌, ◌^◌}

pub record Place : Type 0 where
  pub low : ℕ
  pub width : ℕ

abbrev pub bits : ℕ → ℕ → Place
bits low width = record { low = low; width = width }

abbrev pub get : Place → ℕ → ℕ
get p v = v / 2 ^ p.low % 2 ^ p.width

-- The word after `field = x`.
abbrev pub set : Place → ℕ → ℕ → ℕ
set p x v = v - get p v * 2 ^ p.low + x % 2 ^ p.width * 2 ^ p.low
