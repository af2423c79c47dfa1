-- ===== src/Base/Words.antt =====
-- Casts to the fixed widths of C, shifts, and memory as a function from addresses.
use Prim.Native.Nat.{ℕ, ◌+◌, ◌-◌, ◌*◌, ◌/◌, ◌%◌, ◌^◌}
use mathlib.Core.Path.{◌≡◌}
use mathlib.Core.Logic.{◌≢◌}
use native.Mathlib.Omega.{arith}
use kernelite.Base.Tests.{◌==◌, if◌then◌else◌}

abbrev pub u8 : ℕ → ℕ
u8 n = n % 2 ^ 8

abbrev pub u32 : ℕ → ℕ
u32 n = n % 2 ^ 32

abbrev pub u64 : ℕ → ℕ
u64 n = n % 2 ^ 64

-- `a - b` on uint64_t wraps.
abbrev pub sub64 : ℕ → ℕ → ℕ
sub64 a b = (a + 2 ^ 64 - b) % 2 ^ 64

infixl 75 ◌<<<◌ ◌>>>◌
abbrev pub ◌<<<◌ : ℕ → ℕ → ℕ
x <<< k = x * 2 ^ k

abbrev pub ◌>>>◌ : ℕ → ℕ → ℕ
x >>> k = x / 2 ^ k

-- What each address holds.
abbrev pub Mem : Type 0
Mem = ℕ → ℕ

unfoldable pub store : Mem → ℕ → ℕ → Mem
store m a v x = if x == a then v else m x

pub store_self : (m : Mem) (a v : ℕ) → store m a v a ≡ v
unfolding store
store_self m a v = ground arith

pub store_ne : (m : Mem) (a v x : ℕ) → x ≢ a → store m a v x ≡ m x
unfolding store
store_ne m a v x h = ground arith
