-- ===== src/PageAllocator/Bitmap.antt =====
-- The bitmap of page_allocator.c as a set of pages: what the marking loops do to it.
use kernelite.Base.{ℕ, zero, suc, ◌+◌, ◌-◌, ◌*◌, ◌/◌, ◌%◌, ◌^◌, ◌≤◌, ◌<◌, bit_and, bit_or, min, max}
use kernelite.Base.{Bool, true, false, ◌&&◌, ◌≡◌, ◌⊎◌, inl, inr, refl, ap, ◌∙◌, arith}
use kernelite.Base.{ltb, leb, ◌==◌, ◌!=◌, if◌then◌else◌, u8, Mem, store, store_ne}
use kernelite.Bits.{
  bit, bit-zero, bit-lt, bit-bit_or, bit-bit_and, bit-pow, bit-complement, bit-mod, bit_and-pow,
}
use kernelite.PageAllocator.Chunk.{
  set_page, clear_page, is_used, set_range, clear_range, zero_bytes,
}
use native.Mathlib.Nat.{one-le-pow, mod-eq_of_lt, pow-le-pow_right}

pow_byte : (k : ℕ) → k < 8 → (1 ≤ 2 ^ k) × (2 ^ k < 256)
pow_byte k h =
    omega
      (arith, one-le-pow k 2, pow-le-pow_right {n = 2} (omega arith) {i = k} {j = 7} (omega arith))

bit-cases : (k x : ℕ) → (bit k x ≡ 0) ⊎ (bit k x ≡ 1)
bit-cases k x = omega (arith, bit-lt k x)

-- `x & (1 << k)`, cut to a byte, is nonzero exactly when bit `k` is set.
test_bit : (k x : ℕ) → k < 8 → (u8 (bit_and x (2 ^ k)) != 0) ≡ (bit k x == 1)
test_bit k x h = elim (bit-cases k x) [
  | inl e ↦ rw (bit_and-pow k x, e) (ground arith)
  | inr e ↦ rw (bit_and-pow k x, e) (ground (arith, pow_byte k h))
]

is_used-bit : (bm : ℕ) (m : Mem) (i : ℕ) → is_used bm m i ≡ (bit (i % 8) (m (bm + i / 8)) == 1)
unfolding is_used
is_used-bit bm m i = test_bit (i % 8) (m (bm + i / 8)) (omega arith)

-- What the byte that `set_page` stores holds.
bit-set :
    (k j x : ℕ) → j < 8 → bit j (u8 (bit_or x (2 ^ k))) ≡ max (bit j x) (if j == k then 1 else 0)
bit-set k j x h =
    bit-mod j 8 (bit_or x (2 ^ k)) h ∙ bit-bit_or j x (2 ^ k) ∙ ap (max (bit j x)) (bit-pow j k)

bit-clear :
    (k j x : ℕ)
    → j < 8
    → k < 8
    → bit j (u8 (bit_and x (2 ^ 32 - 1 - 2 ^ k))) ≡ min (bit j x) (1 - (if j == k then 1 else 0))
bit-clear k j x h hk =
    bit-mod j 8 (bit_and x (2 ^ 32 - 1 - 2 ^ k)) h
    ∙ bit-bit_and j x (2 ^ 32 - 1 - 2 ^ k)
    ∙ ap (min (bit j x)) (
        bit-complement j 32 (2 ^ k) (omega arith) (omega (arith, pow_byte k hk))
        ∙ ap (λ (t : ℕ). 1 - t) (bit-pow j k))

-- Setting page `i` sets its bit and no other.
pub is_used-set_page :
    (bm i : ℕ) (m : Mem) (j : ℕ)
    → is_used bm (set_page bm i m) j ≡ (if i == j then true else is_used bm m j)
unfolding set_page store
is_used-set_page bm i m j = ground (
  arith,
  is_used-bit bm (set_page bm i m) j,
  is_used-bit bm m j,
  bit-set (i % 8) (j % 8) (m (bm + i / 8)),
  bit-lt (j % 8) (m (bm + j / 8)),
)

-- Setting a page of any bitmap clears no bit of this one.
pub set_page-kept :
    (bm bm' i : ℕ) (m : Mem) (j : ℕ)
    → is_used bm m j ≡ true
    → is_used bm (set_page bm' i m) j ≡ true
unfolding set_page store
set_page-kept bm bm' i m j e = ground (
  arith,
  is_used-bit bm (set_page bm' i m) j,
  is_used-bit bm m j,
  bit-set (i % 8) (j % 8) (m (bm' + i / 8)),
  bit-lt (j % 8) (m (bm + j / 8)),
)

-- Clearing page `i` clears its bit and no other.
pub is_used-clear_page :
    (bm i : ℕ) (m : Mem) (j : ℕ)
    → is_used bm (clear_page bm i m) j ≡ (if i == j then false else is_used bm m j)
unfolding clear_page store
is_used-clear_page bm i m j = ground (
  arith,
  is_used-bit bm (clear_page bm i m) j,
  is_used-bit bm m j,
  bit-clear (i % 8) (j % 8) (m (bm + i / 8)),
  bit-lt (j % 8) (m (bm + j / 8)),
)

-- Whether `j` is one of the `n` pages from `i` on.
abbrev pub within : ℕ → ℕ → ℕ → Bool
within i n j = leb i j && ltb j (i + n)

pub is_used-set_range :
    (bm left i : ℕ) (m : Mem) (j : ℕ)
    → i + left ≤ 2 ^ 64
    → is_used bm (set_range bm left i m) j ≡ (if within i left j then true else is_used bm m j)
unfolding set_range
is_used-set_range bm zero i m j h = ground arith
is_used-set_range bm (suc zero) i m j h = ground (arith, is_used-set_page bm i m j)
is_used-set_range bm (suc (suc left)) i m j h =
    rw (mod-eq_of_lt {n = i + 1} {m = 2 ^ 64} (omega arith)) (
      ground (
        arith,
        is_used-set_page bm i m j,
        is_used-set_range bm (suc left) (i + 1) (set_page bm i m) j,
      ))

pub is_used-clear_range :
    (bm left i : ℕ) (m : Mem) (j : ℕ)
    → i + left ≤ 2 ^ 64
    → is_used bm (clear_range bm left i m) j ≡ (if within i left j then false else is_used bm m j)
unfolding clear_range
is_used-clear_range bm zero i m j h = ground arith
is_used-clear_range bm (suc zero) i m j h = ground (arith, is_used-clear_page bm i m j)
is_used-clear_range bm (suc (suc left)) i m j h =
    rw (mod-eq_of_lt {n = i + 1} {m = 2 ^ 64} (omega arith)) (
      ground (
        arith,
        is_used-clear_page bm i m j,
        is_used-clear_range bm (suc left) (i + 1) (clear_page bm i m) j,
      ))

-- Address `a` is outside the bytes that hold pages `i` to `i + n - 1`.
abbrev pub Outside : ℕ → ℕ → ℕ → ℕ → Type 0
Outside bm i n a = (a < bm + i / 8) ⊎ (bm + (i + n + 7) / 8 ≤ a)

pub set_range-Outside :
    (bm left i : ℕ) (m : Mem) (a : ℕ)
    → i + left ≤ 2 ^ 64
    → Outside bm i left a
    → set_range bm left i m a ≡ m a
unfolding set_range set_page
set_range-Outside bm zero i m a h o = refl
set_range-Outside bm (suc zero) i m a h o =
    store_ne m (bm + i / 8) (u8 (bit_or (m (bm + i / 8)) (2 ^ (i % 8)))) a (omega arith)
set_range-Outside bm (suc (suc left)) i m a h o =
    rw (mod-eq_of_lt {n = i + 1} {m = 2 ^ 64} (omega arith)) (
      set_range-Outside bm (suc left) (i + 1) (set_page bm i m) a (omega arith) (omega arith)
      ∙ store_ne m (bm + i / 8) (u8 (bit_or (m (bm + i / 8)) (2 ^ (i % 8)))) a (omega arith))

pub clear_range-Outside :
    (bm left i : ℕ) (m : Mem) (a : ℕ)
    → i + left ≤ 2 ^ 64
    → Outside bm i left a
    → clear_range bm left i m a ≡ m a
unfolding clear_range clear_page
clear_range-Outside bm zero i m a h o = refl
clear_range-Outside bm (suc zero) i m a h o =
    store_ne m (bm + i / 8) (u8 (bit_and (m (bm + i / 8)) (2 ^ 32 - 1 - 2 ^ (i % 8)))) a
      (omega arith)
clear_range-Outside bm (suc (suc left)) i m a h o =
    rw (mod-eq_of_lt {n = i + 1} {m = 2 ^ 64} (omega arith)) (
      clear_range-Outside bm (suc left) (i + 1) (clear_page bm i m) a (omega arith) (omega arith)
      ∙ store_ne m (bm + i / 8) (u8 (bit_and (m (bm + i / 8)) (2 ^ 32 - 1 - 2 ^ (i % 8)))) a
          (omega arith))

pub zero_bytes-at :
    (bm left i : ℕ) (m : Mem) (a : ℕ)
    → zero_bytes bm left i m a ≡ (if leb (bm + i) a && ltb a (bm + i + left) then 0 else m a)
unfolding zero_bytes store
zero_bytes-at bm zero i m a = ground arith
zero_bytes-at bm (suc left) i m a =
    ground (arith, zero_bytes-at bm left (i + 1) (store m (bm + i) 0) a)

-- A zeroed bitmap has every page free.
pub is_used-zero_bytes :
    (bm left : ℕ) (m : Mem) (j : ℕ) → j < 8 * left → is_used bm (zero_bytes bm left 0 m) j ≡ false
is_used-zero_bytes bm left m j h = ground (
  arith,
  is_used-bit bm (zero_bytes bm left 0 m) j,
  zero_bytes-at bm left 0 m (bm + j / 8),
  bit-zero (j % 8),
)
