-- ===== src/Strings/Moves.antt =====
-- src/kernel/utils/string.c: what the copies and fills leave in memory.
use native.Mathlib.Decide.{ℕ_discrete}
use kernelite.Base.{ℕ, zero, suc, ◌+◌, ◌-◌, ◌≤◌, true, false, ◌||◌, ◌&&◌, Bool-cases, inl, inr}
use kernelite.Base.{
  not, ◌≡◌, refl, ap, ◌∙◌, arith, ltb, leb, ◌==◌, if◌then◌else◌, u8, Mem, store, store_self,
  store_ne,
}
use kernelite.Strings.Memory.{memcpy, copy_backward, memmove, memset, memset_s}

-- The contents of memory after a copy that behaves as if through a second buffer.
unfoldable pub moved : ℕ → ℕ → ℕ → Mem → Mem
moved dest src size m x = if leb dest x && ltb x (dest + size) then m (src + (x - dest)) else m x

memcpy-moved :
    (size dest src x : ℕ) (m : Mem)
    → dest ≤ src
    → memcpy dest src size m x ≡ moved dest src size m x
unfolding memcpy moved
memcpy-moved zero dest src x m h =
    let out : (leb dest x && ltb x (dest + 0)) ≡ false = ground arith in rw out refl
memcpy-moved (suc size) dest src x m h =
    memcpy-moved size (dest + 1) (src + 1) x (store m dest (m src)) (omega arith)
    ∙ elim (Bool-cases (leb (dest + 1) x && ltb x (dest + 1 + size))) [
      | inl tail ↦
          let whole : (leb dest x && ltb x (dest + suc size)) ≡ true = ground arith in
          let at : src + 1 + (x - (dest + 1)) ≡ src + (x - dest) = ground arith in
          rw (tail, whole, at) (store_ne m dest (m src) (src + (x - dest)) (λ e. ground arith))
      | inr outside ↦ elim (ℕ_discrete x dest) [
        | yes first ↦
            let whole : (leb dest x && ltb x (dest + suc size)) ≡ true = ground arith in
            let at : src + (x - dest) ≡ src = omega (arith, first) in
            rw (outside, whole, at, first) (store_self m dest (m src))
        | no other ↦
            let whole : (leb dest x && ltb x (dest + suc size)) ≡ false = ground arith in
            rw (outside, whole) (store_ne m dest (m src) x other)
      ]
    ]

copy_backward-moved :
    (size dest src x : ℕ) (m : Mem)
    → src ≤ dest
    → copy_backward dest src size m x ≡ moved dest src size m x
unfolding copy_backward moved
copy_backward-moved zero dest src x m h =
    let out : (leb dest x && ltb x (dest + 0)) ≡ false = ground arith in rw out refl
copy_backward-moved (suc size) dest src x m h =
    copy_backward-moved size dest src x (store m (dest + size) (m (src + size))) h
    ∙ elim (Bool-cases (leb dest x && ltb x (dest + size))) [
      | inl inside ↦
          let whole : (leb dest x && ltb x (dest + suc size)) ≡ true = ground arith in
          rw (inside, whole) (store_ne m _ _ (src + (x - dest)) (λ e. ground arith))
      | inr outside ↦ elim (ℕ_discrete x (dest + size)) [
        | yes last ↦
            let whole : (leb dest x && ltb x (dest + suc size)) ≡ true = ground arith in
            let at : src + (x - dest) ≡ src + size = omega (arith, last) in
            rw (outside, whole, at, last) (store_self m (dest + size) _)
        | no other ↦
            let whole : (leb dest x && ltb x (dest + suc size)) ≡ false = ground arith in
            rw (outside, whole) (store_ne m _ _ x other)
      ]
    ]

-- memmove, however the two ranges overlap: every byte of the destination gets the byte that the
-- source held before the call, and no other byte changes.
pub memmove_lem :
    (dest src size x : ℕ) (m : Mem)
    → memmove dest src size m x
      ≡ (if leb dest x && ltb x (dest + size) then m (src + (x - dest)) else m x)
unfolding memmove moved
memmove_lem dest src size x m = elim (Bool-cases (ltb dest src)) [
  | inl below ↦ rw below (memcpy-moved size dest src x m (ground arith))
  | inr above ↦ elim (Bool-cases (ltb src dest)) [
    | inl h ↦ rw (above, h) (copy_backward-moved size dest src x m (ground arith))
    | inr h ↦
        let same : src ≡ dest = ground arith in
        rw (above, h, same)
          (elim (Bool-cases (leb dest x && ltb x (dest + size))) [
            | inl i ↦ rw i (ap m (ground arith))
            | inr i ↦ rw i refl
          ])
  ]
]

memset-filled :
    (size s v x : ℕ) (m : Mem)
    → memset s v size m x ≡ (if leb s x && ltb x (s + size) then u8 v else m x)
unfolding memset
memset-filled zero s v x m =
    let out : (leb s x && ltb x (s + 0)) ≡ false = ground arith in rw out refl
memset-filled (suc size) s v x m =
    memset-filled size (s + 1) v x (store m s (u8 v)) ∙ elim (ℕ_discrete x s) [
      | yes first ↦
          let out : (leb (s + 1) x && ltb x (s + 1 + size)) ≡ false = ground arith in
          let whole : (leb s x && ltb x (s + suc size)) ≡ true = ground arith in
          rw (out, whole, first) (store_self m s _)
      | no other ↦
          let same : (leb (s + 1) x && ltb x (s + 1 + size)) ≡ (leb s x && ltb x (s + suc size)) =
            ground arith in
          rw (same, store_ne m s (u8 v) x other) refl
    ]

-- memset_s fails, with memory unchanged, exactly on a null destination, a destination of no bytes
-- or a count that is larger than it; otherwise exactly `count` bytes hold the value, cut to a byte.
memset_s_lem :
    (dest destsz byte count x : ℕ) (m : Mem)
    → let bad = dest == 0 || (destsz == 0 || ltb destsz count) in
      ((memset_s dest destsz byte count m).0 ≡ not bad)
      × ((memset_s dest destsz byte count m).1 x
          ≡ (if not bad && (leb dest x && ltb x (dest + count)) then u8 byte else m x))
unfolding memset_s
memset_s_lem dest destsz byte count x m =
    elim (Bool-cases (dest == 0 || (destsz == 0 || ltb destsz count))) [
      | inl bad ↦ rw bad (refl, refl)
      | inr good ↦ rw good (refl, memset-filled count dest byte x m)
    ]
