-- ===== src/MemLayout/RoundTrip.antt =====
-- The two address translations of mem_layout.c undo one another.
use kernelite.Base.{ℕ, ◌+◌, ◌^◌, ◌<◌, ◌≡◌, arith}
use kernelite.MemLayout.{kernel_base, va_to_pa, pa_to_va, update_kernel_base_va}

-- On 64-bit addresses and with any 64-bit kernel base, `va_to_pa` and `pa_to_va` are inverse to one
-- another, across the wrap-around.
pub translations_inverse :
    (base a : ℕ)
    → base < 2 ^ 64
    → a < 2 ^ 64
    → (va_to_pa base (pa_to_va base a) ≡ a) × (pa_to_va base (va_to_pa base a) ≡ a)
unfolding va_to_pa pa_to_va
translations_inverse base a hb ha = (omega arith, omega arith)

-- After the base is updated, a physical address below 2^48 is seen at the address `kernel_base`
-- above it, with no wrap-around, and no two such addresses are seen at one place.
pub pa_to_va-kernel_base :
    (b p q : ℕ)
    → p < 2 ^ 48
    → q < 2 ^ 48
    → (pa_to_va (update_kernel_base_va b) p ≡ kernel_base + p)
      × (pa_to_va (update_kernel_base_va b) p ≡ pa_to_va (update_kernel_base_va b) q → p ≡ q)
unfolding pa_to_va update_kernel_base_va
pa_to_va-kernel_base b p q hp hq = omega arith
