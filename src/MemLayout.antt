-- ===== src/MemLayout.antt =====
-- src/kernel/mem_layout/mem_layout.c: the kernel's base address and the two translations.
-- `kernel_base_va` is the variable of the source, passed as an argument.
pub mod RoundTrip
use kernelite.Base.{ℕ, ◌+◌, ◌^◌, u64, sub64}

abbrev pub kernel_base : ℕ
kernel_base = 0xFFFF_0000_0000_0000

-- The new value of `kernel_base_va`, whatever it was.
unfoldable pub update_kernel_base_va : ℕ → ℕ
update_kernel_base_va kernel_base_va = kernel_base

unfoldable pub va_to_pa : ℕ → ℕ → ℕ
va_to_pa kernel_base_va v_addr = sub64 v_addr kernel_base_va

unfoldable pub pa_to_va : ℕ → ℕ → ℕ
pa_to_va kernel_base_va p_addr = u64 (kernel_base_va + p_addr)
