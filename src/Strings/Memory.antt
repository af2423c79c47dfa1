-- ===== src/Strings/Memory.antt =====
-- src/kernel/utils/string.c over a memory of bytes. A loop `while (size--)` is recursion on
-- `size`. The functions return their first argument in the source; here they return the memory.
use kernelite.Base.{ℕ, zero, suc, ◌+◌, Bool, true, false, ◌||◌}
use kernelite.Base.{ltb, ◌==◌, if◌then◌else◌, u8, Mem, store}

-- `*d_ptr++ = *s_ptr++`
unfoldable pub memcpy : ℕ → ℕ → ℕ → Mem → Mem
memcpy dest src zero m = m
memcpy dest src (suc size) m = memcpy (dest + 1) (src + 1) size (store m dest (m src))

-- `*--d_ptr = *--s_ptr`, from the ends.
unfoldable pub copy_backward : ℕ → ℕ → ℕ → Mem → Mem
copy_backward dest src zero m = m
copy_backward dest src (suc size) m =
    copy_backward dest src size (store m (dest + size) (m (src + size)))

unfoldable pub memmove : ℕ → ℕ → ℕ → Mem → Mem
unfolding memcpy copy_backward
memmove dest src size m =
    if ltb dest src
    then memcpy dest src size m
    else if ltb src dest
    then copy_backward dest src size m
    else m

unfoldable pub memset : ℕ → ℕ → ℕ → Mem → Mem
memset s val zero m = m
memset s val (suc size) m = memset (s + 1) val size (store m s (u8 val))

-- `false` is the return value -1, `true` is 0.
unfoldable pub memset_s : ℕ → ℕ → ℕ → ℕ → Mem → Bool × Mem
unfolding memset
memset_s dest destsz byte count m =
    if dest == 0 || (destsz == 0 || ltb destsz count)
    then (false, m)
    else (true, memset dest byte count m)
