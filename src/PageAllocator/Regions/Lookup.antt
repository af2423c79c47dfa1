-- ===== src/PageAllocator/Regions/Lookup.antt =====
-- The two searches through the array of chunks.
use kernelite.Base.{ℕ, zero, suc, ◌+◌, ◌*◌, ◌≤◌, ◌<◌, Bool, true, false, ◌≡◌, ◌≢◌, ◌⊎◌, inl, inr}
use kernelite.Base.{
  refl, ap, ◌∙◌, arith, Option, none, some, List, [], ◌∷◌, ◌==◌, if◌then◌else◌, ◌&&◌,
}
use kernelite.Base.{Bool-cases, Mem}
use mathlib.Core.Path.{subst, sym}
use kernelite.PageAllocator.Chunk.{Chunk, page_size, is_used, find_run}
use kernelite.PageAllocator.Scan.{IsFree, Scanned, find_run-FirstFit}
use kernelite.PageAllocator.Alloc.{IsValid}
use kernelite.PageAllocator.Regions.{
  owns, find_chunk_for_address, has_run, find_chunk_with_free_pages,
}

-- `c` stands in the array and manages memory.
abbrev pub Live : Chunk → List Chunk → Type 0
Live c [] = ⊥
Live c (d ∷ cs) = ((c ≡ d) × (c.initialized ≡ true)) ⊎ Live c cs

-- The memory that a chunk manages contains address `a`.
abbrev pub Manages : Chunk → ℕ → Type 0
Manages c a = (c.mem_base ≤ a) × (a < c.mem_base + c.total_pages * page_size)

-- The look-ahead of `find_chunk_with_free_pages` finds a run exactly where the scan of
-- `page_alloc_chunk` does.
abbrev HasSome : Option ℕ → Bool → Type 0
HasSome none b = b ≡ false
HasSome (some s) b = b ≡ true

has_run-find_run :
    (bm : ℕ) (m : Mem) (num left i found start : ℕ)
    → HasSome (find_run bm m num left i found start) (has_run bm m num left i found)
unfolding find_run has_run
has_run-find_run bm m num zero i found start = refl
has_run-find_run bm m num (suc left) i found start = elim (Bool-cases (is_used bm m i)) [
  | inl used ↦ rw used (has_run-find_run bm m num left (i + 1) 0 start)
  | inr free ↦ elim (Bool-cases (found + 1 == num)) [
    | inl done ↦ rw (free, done) refl
    | inr more ↦ rw (free, more) (has_run-find_run bm m num left (i + 1) (found + 1) _)
  ]
]

-- `c` has a run of `num` free pages.
abbrev pub HasRun : Mem → ℕ → Chunk → Type 0
HasRun m num c = (s : ℕ) × (s + num ≤ c.total_pages) × IsFree c.bitmap m s num

abbrev pub Decided : Bool → Mem → ℕ → Chunk → Type 0
Decided true m num c = HasRun m num c
Decided false m num c = (s : ℕ) → s + num ≤ c.total_pages → ¬ IsFree c.bitmap m s num

pub has_run-Decided :
    (m : Mem) (num : ℕ) (c : Chunk)
    → num ≢ 0
    → Decided (has_run c.bitmap m num c.total_pages 0 0) m num c
has_run-Decided m num c h =
    decide _ _ (has_run-find_run c.bitmap m num c.total_pages 0 0 0)
      (find_run-FirstFit c.bitmap m num c.total_pages h)
  where
    decide :
        (o : Option ℕ) (b : Bool)
        → HasSome o b
        → Scanned c.bitmap m num c.total_pages o
        → Decided b m num c
    decide none b e none_fits = rw e none_fits
    decide (some s) b e fit = rw e (s, fit.fits, fit.free)

-- What the search for free pages reports.
abbrev pub Found : ℕ → Mem → List Chunk → Option Chunk → Type 0
Found num m cs none =
    (c : Chunk) → Live c cs → (s : ℕ) → s + num ≤ c.total_pages → ¬ IsFree c.bitmap m s num
Found num m cs (some c) = Live c cs × HasRun m num c

Found-cons :
    (num : ℕ) (m : Mem) (d : Chunk) (cs : List Chunk) (o : Option Chunk)
    → ((c : Chunk)
        → c ≡ d
        → c.initialized ≡ true
        → (s : ℕ) → s + num ≤ c.total_pages
        → ¬ IsFree c.bitmap m s num)
    → Found num m cs o
    → Found num m (d ∷ cs) o
Found-cons num m d cs none here rest = λ c l. elim l [ inl e ↦ here c e.0 e.1 | inr l' ↦ rest c l' ]
Found-cons num m d cs (some c) here rest = (inr rest.0, rest.1)

-- `find_chunk_with_free_pages` returns a live chunk with a long enough run, and `none` only if no
-- live chunk has one.
pub find_chunk_with_free_pages-Found :
    (num : ℕ) (cs : List Chunk) (m : Mem)
    → num ≢ 0
    → Found num m cs (find_chunk_with_free_pages num cs m)
unfolding find_chunk_with_free_pages
find_chunk_with_free_pages-Found num [] m h = λ c l. absurd l
find_chunk_with_free_pages-Found num (d ∷ cs) m h =
    choose d.initialized (has_run d.bitmap m num d.total_pages 0 0) refl (has_run-Decided m num d h)
      (find_chunk_with_free_pages-Found num cs m h)
  where
    choose :
        (live run : Bool)
        → d.initialized ≡ live
        → Decided run m num d
        → Found num m cs (find_chunk_with_free_pages num cs m)
        → Found num m (d ∷ cs) (if live && run then some d else find_chunk_with_free_pages num cs m)
    choose true true e run rest = (inl (refl, e), run)
    choose true false e no_run rest =
        Found-cons num m d cs _ (λ c same on. subst (λ x. Decided false m num x) (sym same) no_run)
          rest
    choose false run e decided rest =
        Found-cons num m d cs _ (λ c same on. cc (ap (λ (x : Chunk). x.initialized) same)) rest

-- Any two live chunks are one chunk, or manage disjoint memory; and every live chunk is valid.
pub record WellFormed (cs : List Chunk) : Type 0 where
  pub valid : (c : Chunk) → Live c cs → IsValid c
  pub separate :
      (c d : Chunk) → Live c cs → Live d cs → (c ≡ d) ⊎ ((a : ℕ) → Manages c a → ¬ Manages d a)

-- What the search by address reports.
abbrev pub Owner : ℕ → List Chunk → Option Chunk → Type 0
Owner a cs none = (c : Chunk) → Live c cs → IsValid c → ¬ Manages c a
Owner a cs (some c) = Live c cs × (IsValid c → Manages c a)

owns-true :
    (a : ℕ) (d : Chunk) → owns a d ≡ true → (d.initialized ≡ true) × (IsValid d → Manages d a)
unfolding owns
owns-true a d e = (ground arith, λ v. ground (arith, v.ends))

owns-false :
    (a : ℕ) (d : Chunk) → owns a d ≡ false → d.initialized ≡ true → IsValid d → ¬ Manages d a
unfolding owns
owns-false a d e on v g = ground (arith, v.ends)

-- `find_chunk_for_address` returns a live chunk that manages the address, and `none` only if no live
-- valid chunk does.
pub find_chunk_for_address-Owner :
    (a : ℕ) (cs : List Chunk) → Owner a cs (find_chunk_for_address a cs)
unfolding find_chunk_for_address
find_chunk_for_address-Owner a [] = λ c l. absurd l
find_chunk_for_address-Owner a (d ∷ cs) =
    choose (find_chunk_for_address a cs) (find_chunk_for_address-Owner a cs) (owns a d) refl
  where
    choose :
        (o : Option Chunk)
        → Owner a cs o
        → (b : Bool) → owns a d ≡ b
        → Owner a (d ∷ cs) (if b then some d else o)
    choose o rest true e = (inl (refl, (owns-true a d e).0), (owns-true a d e).1)
    choose none rest false e = λ c l v g. elim l [
      | inl same ↦
          owns-false a d e (ap (λ (x : Chunk). x.initialized) (sym same.0) ∙ same.1)
            (subst IsValid same.0 v) (subst (λ x. Manages x a) same.0 g)
      | inr l' ↦ rest c l' v g
    ]
    choose (some c) rest false e = (inr rest.0, rest.1)
