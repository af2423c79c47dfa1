-- ===== src/KernelHeap/Members.antt =====
-- The members of a list of addresses, without one of them, and without repetition.
use native.Mathlib.Decide.{ℕ_discrete}
use mathlib.Core.Path.{subst}
use kernelite.Base.{ℕ, ◌≡◌, ◌≢◌, ◌⊎◌, inl, inr, refl, ◌∙◌, sym, arith}
use kernelite.Base.{All, All-snoc, List, [], ◌∷◌, ◌++◌, ◌==◌, if◌then◌else◌}

abbrev pub In : ℕ → List ℕ → Type 0
In a [] = ⊥
In a (x ∷ xs) = (a ≡ x) ⊎ In a xs

abbrev pub NotIn : ℕ → List ℕ → Type 0
NotIn a xs = All (λ x. x ≢ a) xs

pub All-In {κ} : (P : ℕ → Type κ) (a : ℕ) (xs : List ℕ) → All P xs → In a xs → P a
All-In P a [] h i = absurd i
All-In P a (x ∷ xs) h (inl e) = rw e h.0
All-In P a (x ∷ xs) h (inr i) = All-In P a xs h.1 i

-- A fact about `x` that holds of each member.
pub All-of_In {κ} : (P : ℕ → Type κ) (xs : List ℕ) → ((a : ℕ) → In a xs → P a) → All P xs
All-of_In P [] f = tt
All-of_In P (x ∷ xs) f = (f x (inl refl), All-of_In P xs (λ a i. f a (inr i)))

pub NotIn-of_ne : (a : ℕ) (xs : List ℕ) → ((x : ℕ) → In x xs → x ≢ a) → NotIn a xs
NotIn-of_ne a xs f = All-of_In (λ x. x ≢ a) xs f

pub In-snoc : (a : ℕ) (xs : List ℕ) (b : ℕ) → In a xs → In a (xs ++ b ∷ [])
In-snoc a [] b i = absurd i
In-snoc a (x ∷ xs) b (inl e) = inl e
In-snoc a (x ∷ xs) b (inr i) = inr (In-snoc a xs b i)

pub In-snoc_last : (xs : List ℕ) (b : ℕ) → In b (xs ++ b ∷ [])
In-snoc_last [] b = inl refl
In-snoc_last (x ∷ xs) b = inr (In-snoc_last xs b)

pub In-tail : (b x : ℕ) (xs : List ℕ) → In b (x ∷ xs) → x ≢ b → In b xs
In-tail b x xs (inl e) ne = absurd (ne (sym e))
In-tail b x xs (inr i) ne = i

abbrev pub Distinct : List ℕ → Type 0
Distinct [] = Unit
Distinct (x ∷ xs) = NotIn x xs × Distinct xs

pub Distinct-snoc : (xs : List ℕ) (b : ℕ) → Distinct xs → NotIn b xs → Distinct (xs ++ b ∷ [])
Distinct-snoc [] b d n = (tt, tt)
Distinct-snoc (x ∷ xs) b d n =
    (All-snoc (λ y. y ≢ x) xs b d.0 (λ e. n.0 (sym e)), Distinct-snoc xs b d.1 n.1)

-- The list without its first `b`.
unfoldable pub remove : ℕ → List ℕ → List ℕ
remove b [] = []
remove b (x ∷ xs) = if x == b then xs else x ∷ remove b xs

pub remove_here : (b x : ℕ) (xs : List ℕ) → x ≡ b → remove b (x ∷ xs) ≡ xs
unfolding remove
remove_here b x xs e = ground arith

pub remove_later : (b x : ℕ) (xs : List ℕ) → x ≢ b → remove b (x ∷ xs) ≡ x ∷ remove b xs
unfolding remove
remove_later b x xs ne = ground arith

pub All-remove {κ} : (P : ℕ → Type κ) (b : ℕ) (xs : List ℕ) → All P xs → All P (remove b xs)
unfolding remove
All-remove P b [] h = tt
All-remove P b (x ∷ xs) h = elim (ℕ_discrete x b) [
  | yes e ↦ subst (All P) (sym (remove_here b x xs e)) h.1
  | no ne ↦ subst (All P) (sym (remove_later b x xs ne)) (h.0, All-remove P b xs h.1)
]

pub Distinct-remove : (b : ℕ) (xs : List ℕ) → Distinct xs → Distinct (remove b xs)
unfolding remove
Distinct-remove b [] d = tt
Distinct-remove b (x ∷ xs) d = elim (ℕ_discrete x b) [
  | yes e ↦ subst Distinct (sym (remove_here b x xs e)) d.1
  | no ne ↦
      subst Distinct (sym (remove_later b x xs ne))
        (All-remove (λ y. y ≢ x) b xs d.0, Distinct-remove b xs d.1)
]

pub NotIn-remove : (b : ℕ) (xs : List ℕ) → Distinct xs → NotIn b (remove b xs)
unfolding remove
NotIn-remove b [] d = tt
NotIn-remove b (x ∷ xs) d = elim (ℕ_discrete x b) [
  | yes e ↦ subst (NotIn b) (sym (remove_here b x xs e)) (subst (λ w. NotIn w xs) e d.0)
  | no ne ↦ subst (NotIn b) (sym (remove_later b x xs ne)) (ne, NotIn-remove b xs d.1)
]

-- No two members have the same value of `f`.
abbrev pub DistinctBy : (ℕ → ℕ) → List ℕ → Type 0
DistinctBy f [] = Unit
DistinctBy f (x ∷ xs) = All (λ y. f y ≢ f x) xs × DistinctBy f xs

pub DistinctBy-congr :
    (f g : ℕ → ℕ) (xs : List ℕ) → All (λ x. g x ≡ f x) xs → DistinctBy f xs → DistinctBy g xs
DistinctBy-congr f g [] h d = tt
DistinctBy-congr f g (x ∷ xs) h d = (
  All-of_In (λ y. g y ≢ g x) xs
      (λ a i e.
        All-In (λ y. f y ≢ f x) a xs d.0 i (sym (All-In (λ y. g y ≡ f y) a xs h.1 i) ∙ e ∙ h.0)),
  DistinctBy-congr f g xs h.1 d.1,
)

pub DistinctBy-remove :
    (f : ℕ → ℕ) (b : ℕ) (xs : List ℕ) → DistinctBy f xs → DistinctBy f (remove b xs)
unfolding remove
DistinctBy-remove f b [] d = tt
DistinctBy-remove f b (x ∷ xs) d = elim (ℕ_discrete x b) [
  | yes e ↦ subst (DistinctBy f) (sym (remove_here b x xs e)) d.1
  | no ne ↦
      subst (DistinctBy f) (sym (remove_later b x xs ne))
        (All-remove (λ y. f y ≢ f x) b xs d.0, DistinctBy-remove f b xs d.1)
]

pub DistinctBy-snoc :
    (f : ℕ → ℕ) (xs : List ℕ) (b : ℕ)
    → DistinctBy f xs
    → All (λ x. f x ≢ f b) xs
    → DistinctBy f (xs ++ b ∷ [])
DistinctBy-snoc f [] b d n = (tt, tt)
DistinctBy-snoc f (x ∷ xs) b d n =
    (All-snoc (λ y. f y ≢ f x) xs b d.0 (λ e. n.0 (sym e)), DistinctBy-snoc f xs b d.1 n.1)

-- The others have another value than a member that is taken out.
pub DistinctBy-apart :
    (f : ℕ → ℕ) (b : ℕ) (xs : List ℕ)
    → DistinctBy f xs
    → In b xs
    → All (λ y. f y ≢ f b) (remove b xs)
unfolding remove
DistinctBy-apart f b [] d i = absurd i
DistinctBy-apart f b (x ∷ xs) d i = elim (ℕ_discrete x b) [
  | yes e ↦
      subst (All (λ y. f y ≢ f b)) (sym (remove_here b x xs e))
        (subst (λ w. All (λ y. f y ≢ f w) xs) e d.0)
  | no ne ↦
      let k : In b xs = In-tail b x xs i ne in
      subst (All (λ y. f y ≢ f b)) (sym (remove_later b x xs ne))
        ((λ e. All-In (λ y. f y ≢ f x) b xs d.0 k (sym e)), DistinctBy-apart f b xs d.1 k)
]

In-under : (a x : ℕ) (xs ys : List ℕ) → (In a xs → In a ys) → In a (x ∷ xs) → In a (x ∷ ys)
In-under a x xs ys f (inl e) = inl e
In-under a x xs ys f (inr i) = inr (f i)

pub In-of_remove : (a b : ℕ) (xs : List ℕ) → In a (remove b xs) → In a xs
unfolding remove
In-of_remove a b [] i = i
In-of_remove a b (x ∷ xs) i = elim (ℕ_discrete x b) [
  | yes e ↦ inr (subst (In a) (remove_here b x xs e) i)
  | no ne ↦
      In-under a x (remove b xs) xs (In-of_remove a b xs) (subst (In a) (remove_later b x xs ne) i)
]

-- A member stays when another one is removed.
pub In-remove : (a b : ℕ) (xs : List ℕ) → a ≢ b → In a xs → In a (remove b xs)
unfolding remove
In-remove a b [] ne i = i
In-remove a b (x ∷ xs) ne i = elim (ℕ_discrete x b) [
  | yes e ↦ subst (In a) (sym (remove_here b x xs e)) (In-tail a x xs i (λ q. ne (sym q ∙ e)))
  | no ne' ↦
      subst (In a) (sym (remove_later b x xs ne'))
        (In-under a x xs (remove b xs) (In-remove a b xs ne) i)
]
