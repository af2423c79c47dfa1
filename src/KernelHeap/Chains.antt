-- ===== src/KernelHeap/Chains.antt =====
-- Linked lists in memory: the addresses that a chain of `next` pointers visits, and its updates.
use native.Mathlib.Decide.{ℕ_discrete}
use mathlib.Core.Path.{subst}
use kernelite.Base.{ℕ, ◌≡◌, ◌≢◌, inl, inr, refl, ap, ◌∙◌, sym, arith}
use kernelite.Base.{All, All-map, List, [], ◌∷◌, ◌++◌, ◌==◌, if◌then◌else◌}
use kernelite.KernelHeap.State.{put}
use kernelite.KernelHeap.Members.{
  In-tail, All-In, All-of_In, Distinct, In, NotIn, remove, remove_here, remove_later,
}

pub put_self {ℓ} : {A : Type ℓ} (f : ℕ → A) (a : ℕ) (v : A) → put f a v a ≡ v
unfolding put
put_self f a v = ground arith

pub put_ne {ℓ} : {A : Type ℓ} (f : ℕ → A) (a : ℕ) (v : A) (x : ℕ) → x ≢ a → put f a v x ≡ f x
unfolding put
put_ne f a v x h = ground arith

-- From `head`, `next` leads through exactly the addresses of the list and ends with 0.
abbrev pub Chain : (ℕ → ℕ) → ℕ → List ℕ → Type 0
Chain next head [] = head ≡ 0
Chain next head (x ∷ xs) = (head ≡ x) × (x ≢ 0) × Chain next (next x) xs

-- Only the successors of the members matter.
pub Chain-congr :
    (next next' : ℕ → ℕ) (head : ℕ) (xs : List ℕ)
    → All (λ x. next' x ≡ next x) xs
    → Chain next head xs
    → Chain next' head xs
Chain-congr next next' head [] h c = c
Chain-congr next next' head (x ∷ xs) h c =
    (c.0, c.1, rw h.0 (Chain-congr next next' (next x) xs h.1 c.2))

pub Chain-put :
    (next : ℕ → ℕ) (b v head : ℕ) (xs : List ℕ)
    → NotIn b xs
    → Chain next head xs
    → Chain (put next b v) head xs
Chain-put next b v head xs n c =
    Chain-congr next (put next b v) head xs (All-map xs (λ x ne. put_ne next b v x ne) n) c

-- The last address of a nonempty list.
abbrev pub last : ℕ → List ℕ → ℕ
last x [] = x
last x (y ∷ ys) = last y ys

pub last-In : (x : ℕ) (xs : List ℕ) → In (last x xs) (x ∷ xs)
last-In x [] = inl refl
last-In x (y ∷ ys) = inr (last-In y ys)

-- Linking `b` behind the last address.
pub Chain-append :
    (next : ℕ → ℕ) (head x : ℕ) (xs : List ℕ) (b : ℕ)
    → Chain next head (x ∷ xs)
    → Distinct (x ∷ xs)
    → NotIn b (x ∷ xs)
    → b ≢ 0
    → next b ≡ 0
    → Chain (put next (last x xs) b) head (x ∷ xs ++ b ∷ [])
Chain-append next head x [] b c d n nz z =
    (c.0, c.1, (put_self next x b, nz, put_ne next x b b (λ e. n.0 (sym e)) ∙ z))
Chain-append next head x (y ∷ ys) b c d n nz z = (
  c.0,
  c.1,
  rw (put_ne next (last y ys) b x apart) (Chain-append next (next x) y ys b c.2 d.1 n.1 nz z),
)
  where
    apart : x ≢ last y ys
    apart e = All-In (λ (w : ℕ). w ≢ x) (last y ys) (y ∷ ys) d.0 (last-In y ys) (sym e)

-- Skipping the address behind `p`.
pub Chain-skip :
    (next : ℕ → ℕ) (head p b : ℕ) (xs : List ℕ)
    → Chain next head (p ∷ b ∷ xs)
    → Distinct (p ∷ b ∷ xs)
    → Chain (put next p (next b)) head (p ∷ xs)
Chain-skip next head p b xs c d =
    (c.0, c.1, rw (put_self next p (next b)) (Chain-put next p (next b) (next b) xs d.0.1 c.2.2))

-- The address before the first `b`, or `prev` if that is the first of the list.
unfoldable pub before : ℕ → ℕ → List ℕ → ℕ
before b prev [] = prev
before b prev (x ∷ xs) = if x == b then prev else before b x xs

pub before_here : (b prev x : ℕ) (xs : List ℕ) → x ≡ b → before b prev (x ∷ xs) ≡ prev
unfolding before
before_here b prev x xs e = ground arith

pub before_later : (b prev x : ℕ) (xs : List ℕ) → x ≢ b → before b prev (x ∷ xs) ≡ before b x xs
unfolding before
before_later b prev x xs ne = ground arith

pub before-In : (b prev : ℕ) (xs : List ℕ) → In b xs → In (before b prev xs) (prev ∷ xs)
before-In b prev [] i = absurd i
before-In b prev (x ∷ xs) i = elim (ℕ_discrete x b) [
  | yes e ↦ inl (before_here b prev x xs e)
  | no ne ↦
      subst (λ w. In w (prev ∷ x ∷ xs)) (sym (before_later b prev x xs ne))
        (inr (before-In b x xs (In-tail b x xs i ne)))
]

Chain-along :
    (next : ℕ → ℕ) (head x v : ℕ) {w w' : ℕ} {xs xs' : List ℕ}
    → w ≡ w'
    → xs ≡ xs'
    → Chain (put next w v) head (x ∷ xs)
    → Chain (put next w' v) head (x ∷ xs')
Chain-along next head x v {w} {w'} {xs} {xs'} e q c =
    subst (λ a. Chain (put next a v) head (x ∷ xs')) e
      (subst (λ l. Chain (put next w v) head (x ∷ l)) q c)

-- Unlinking a member that is not the first.
pub Chain-remove :
    (next : ℕ → ℕ) (head x : ℕ) (xs : List ℕ) (b : ℕ)
    → Chain next head (x ∷ xs)
    → Distinct (x ∷ xs)
    → In b xs
    → Chain (put next (before b x xs) (next b)) head (x ∷ remove b xs)
Chain-remove next head x [] b c d i = absurd i
Chain-remove next head x (y ∷ ys) b c d i = elim (ℕ_discrete y b) [
  | yes e ↦
      Chain-along next head x (next b) (sym (before_here b x y ys e)) (sym (remove_here b y ys e))
        (subst (λ w. Chain (put next x (next w)) head (x ∷ ys)) e (Chain-skip next head x y ys c d))
  | no ne ↦
      let k : In b ys = In-tail b y ys i ne in
      Chain-along next head x (next b) (sym (before_later b x y ys ne))
        (sym (remove_later b y ys ne))
        (
          c.0,
          c.1,
          rw (put_ne next (before b y ys) (next b) x (apart k))
              (Chain-remove next (next x) y ys b c.2 d.1 k),
        )
]
  where
    apart : In b ys → x ≢ before b y ys
    apart k e = All-In (λ (w : ℕ). w ≢ x) (before b y ys) (y ∷ ys) d.0 (before-In b y ys k) (sym e)

-- Linking `b` behind the last address, after and before its own pointer is cleared.
pub Chain-grow :
    (next : ℕ → ℕ) (head x : ℕ) (xs : List ℕ) (b : ℕ)
    → Chain next head (x ∷ xs)
    → Distinct (x ∷ xs)
    → NotIn b (x ∷ xs)
    → b ≢ 0
    → Chain (put (put (put next b 0) (last x xs) b) b 0) head (x ∷ xs ++ b ∷ [])
Chain-grow next head x xs b c d n nz =
    Chain-congr linked (put linked b 0) head (x ∷ xs ++ b ∷ [])
      (All-of_In (λ y. put linked b 0 y ≡ linked y) (x ∷ xs ++ b ∷ []) same)
      (Chain-append (put next b 0) head x xs b (Chain-put next b 0 head (x ∷ xs) n c) d n nz
        (put_self next b 0))
  where
    linked : ℕ → ℕ
    linked = put (put next b 0) (last x xs) b

    apart : b ≢ last x xs
    apart e = All-In (λ (w : ℕ). w ≢ b) (last x xs) (x ∷ xs) n (last-In x xs) (sym e)

    same : (y : ℕ) → In y (x ∷ xs ++ b ∷ []) → put linked b 0 y ≡ linked y
    same y i = elim (ℕ_discrete y b) [
      | yes e ↦
          ap (put linked b 0) e
          ∙ put_self linked b 0
          ∙ sym (put_ne (put next b 0) (last x xs) b b apart ∙ put_self next b 0)
          ∙ ap linked (sym e)
      | no ne ↦ put_ne linked b 0 y ne
    ]

pub Chain-nonzero :
    (next : ℕ → ℕ) (head : ℕ) (xs : List ℕ) → Chain next head xs → All (λ x. x ≢ 0) xs
Chain-nonzero next head [] c = tt
Chain-nonzero next head (x ∷ xs) c = (c.1, Chain-nonzero next (next x) xs c.2)

pub before_ne : (b x : ℕ) (xs : List ℕ) → Distinct (x ∷ xs) → In b xs → before b x xs ≢ b
before_ne b x [] d i = absurd i
before_ne b x (y ∷ ys) d i = elim (ℕ_discrete y b) [
  | yes e ↦ λ q. d.0.0 (e ∙ sym (sym (before_here b x y ys e) ∙ q))
  | no ne ↦ λ q. before_ne b y ys d.1 (In-tail b y ys i ne) (sym (before_later b x y ys ne) ∙ q)
]
