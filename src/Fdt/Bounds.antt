-- ===== src/Fdt/Bounds.antt =====
-- src/kernel/fdt/fdt.c: the searches end, and what they write stays inside the caller's array.
use Prim.Native.String.{String}
use kernelite.Base.{
  ℕ, zero, suc, ◌+◌, ◌/◌, ◌%◌, ◌≤◌, ◌<◌, ◌≡◌, ◌≢◌, ◌⊎◌, inl, inr, refl, ap, arith, ◌∙◌,
}
use kernelite.Base.{
  Option, none, some, List, [], ◌∷◌, length, Bool-cases, Option-cases, ltb, ◌==◌, ◌!=◌,
  if◌then◌else◌,
}
use kernelite.Fdt.Tree.{
  FdtInt, offset, error, Property, Libfdt, nodes_after, get_nodes_by_compatible,
}
use kernelite.Bits.{bit, bit_and-pow}
use kernelite.Fdt.Interrupts.{
  Interrupt, edge, level_high, intr_entry, find_intr_parent, or_controller, check_cells,
  intr_entries, get_intr_property,
}
use kernelite.Base.{All, get_elem?, bit_and, min, ◌*◌}
use kernelite.Fdt.Decode.{FdtInt-cases, Advances, Covers, Covers-next, Covers-empty}

nodes_after-bounded :
    (t : Libfdt) (compatible : String) (size fuel : ℕ) (start : Option ℕ) (room : ℕ)
    → Advances size (t.next_compatible compatible)
    → Covers size fuel start
    → (l : List ℕ) × (nodes_after t compatible fuel start room ≡ some l)
      × (length l ≤ room)
      × All (λ n. n < size) l
unfolding nodes_after
nodes_after-bounded t c size zero start room adv cov = absurd (Covers-empty size start cov)
nodes_after-bounded t c size (suc fuel) start zero adv cov =
    elim (FdtInt-cases (t.next_compatible c start)) [
      | inr (e, q) ↦ ([], rw (q, nodes_after) refl, omega arith, tt)
      | inl (n, q) ↦ ([], rw (q, nodes_after) refl, omega arith, tt)
    ]
nodes_after-bounded t c size (suc fuel) start (suc left) adv cov =
    elim (FdtInt-cases (t.next_compatible c start)) [
      | inr (e, q) ↦ ([], rw (q, nodes_after) refl, omega arith, tt)
      | inl (n, q) ↦
          let inside = adv start n q in
          let rest =
            nodes_after-bounded t c size fuel (some n) left adv
              (Covers-next size fuel start n cov inside.0 inside.1) in
          (n ∷ rest.0, rw (q, nodes_after, rest.1) refl, omega (arith, rest.2), (inside.0, rest.3))
    ]

-- With fuel for every offset below `size`, get_nodes_by_compatible on a tree returns, and writes at most
-- `len` offsets, each below `size`.
pub get_nodes_by_compatible-bounded :
    (t : Libfdt) (compatible : String) (size fuel err_internal len : ℕ)
    → Advances size (t.next_compatible compatible)
    → size < fuel
    → (l : List ℕ) × (get_nodes_by_compatible err_internal fuel (some t) compatible len
        ≡ some (inr l))
      × (length l ≤ len)
      × All (λ n. n < size) l
unfolding get_nodes_by_compatible
get_nodes_by_compatible-bounded t c size fuel err_internal len adv l =
    let walk = nodes_after-bounded t c size fuel none len adv l in
    (walk.0, rw (walk.1, get_nodes_by_compatible) refl, walk.2, walk.3)

-- A parent comes before its children, as in a flattened tree.
abbrev pub Descends : Libfdt → Type 0
Descends t = (n m : ℕ) → t.parent n ≡ offset m → m < n

abbrev pub Below : FdtInt → ℕ → Type 0
Below (offset n) fuel = suc n < fuel
Below (error e) fuel = 0 < fuel

Below-parent : (t : Libfdt) (fuel n : ℕ) → Descends t → suc n < suc fuel → Below (t.parent n) fuel
Below-parent t fuel n down l = elim (FdtInt-cases (t.parent n)) [
  | inl (m, q) ↦ rw q (let lower = down n m q in omega arith)
  | inr (e, q) ↦ rw q (omega arith)
]

find_intr_parent-total :
    (t : Libfdt) (fuel : ℕ) (ancestor : FdtInt)
    → Descends t
    → Below ancestor fuel
    → (r : FdtInt) × (find_intr_parent t fuel ancestor ≡ some r)
unfolding find_intr_parent
find_intr_parent-total t zero (offset n) down l = absurd (omega arith)
find_intr_parent-total t zero (error e) down l = absurd (omega arith)
find_intr_parent-total t (suc fuel) (error e) down l = (error 1, refl)
find_intr_parent-total t (suc fuel) (offset n) down l =
    let onwards = find_intr_parent-total t fuel (t.parent n) down (Below-parent t fuel n down l) in
    elim (Option-cases (t.getprop n "interrupt-parent")) [
      | inl missing ↦ (onwards.0, rw (missing, find_intr_parent, onwards.1) refl)
      | inr (p, e) ↦ elim (Bool-cases (p.len == 4)) [
        | inl word ↦ (t.by_phandle (p.cell 0), rw (e, find_intr_parent, word) refl)
        | inr other ↦ (onwards.0, rw (e, find_intr_parent, other, onwards.1) refl)
      ]
    ]

length-intr_entries : (cell : ℕ → ℕ) (n i : ℕ) → length (intr_entries cell n i) ≡ n
unfolding intr_entries
length-intr_entries cell zero i = refl
length-intr_entries cell (suc n) i = ap suc (length-intr_entries cell n (i + 1))

-- An interrupt as the cells of a property give it: three cells each, the type, the number and the flags, where bit 2
-- of the flags is set for a level-triggered interrupt.
abbrev pub decoded : (ℕ → ℕ) → ℕ → Interrupt
decoded cell i = record {
  type = cell (3 * i);
  id = cell (3 * i + 1);
  trigger = if cell (3 * i + 2) / 4 % 2 == 1 then level_high else edge;
}

level : (flags : ℕ) → (bit_and flags 4 != 0) ≡ (flags / 4 % 2 == 1)
unfolding bit
level flags = ground (arith, bit_and-pow 2 flags)

intr_entry-decoded : (cell : ℕ → ℕ) (i : ℕ) → intr_entry cell i ≡ decoded cell i
unfolding intr_entry
intr_entry-decoded cell i =
    let first : i * 3 ≡ 3 * i = omega arith in rw (first, level (cell (3 * i + 2))) refl

get_elem?-intr_entries :
    (cell : ℕ → ℕ) (n i j : ℕ)
    → j < n
    → get_elem? (intr_entries cell n i) j ≡ some (decoded cell (i + j))
unfolding intr_entries
get_elem?-intr_entries cell zero i j l = absurd (omega arith)
get_elem?-intr_entries cell (suc n) i zero l =
    ap some (intr_entry-decoded cell i ∙ ap (decoded cell) (omega arith))
get_elem?-intr_entries cell (suc n) i (suc j) l =
    get_elem?-intr_entries cell n (i + 1) j (omega arith)
    ∙ ap (λ k. some (decoded cell k)) (omega arith)

-- Why get_intr_property may fail: there is no property or an empty one, its length is no multiple of 12 bytes,
-- or the node that says how many cells an interrupt takes does not say 3.
abbrev pub Refused : Libfdt → ℕ → ℕ → Type 0
Refused t fuel node =
    (t.getprop node "interrupts" ≡ none)
    ⊎ ((intr : Property) × (t.getprop node "interrupts" ≡ some intr)
        × ((intr.len % 12 ≢ 0)
            ⊎ (intr.len ≡ 0)
            ⊎ ((parent : FdtInt) × (e : ℕ) × (find_intr_parent t fuel (offset node) ≡ some parent)
                × (check_cells t (or_controller t parent) ≡ some e))))

-- What a call of get_intr_property may give: an error for a reason, or the entries of the `interrupts` property
-- of the node, cut off after `len`.
pub data Read (t : Libfdt) (fuel node len : ℕ) : ℕ ⊎ List Interrupt → Type 0 where
  failed : (e : ℕ) → Refused t fuel node → Read t fuel node len (inl e)
  entries :
      (intr : Property)
      → t.getprop node "interrupts" ≡ some intr
      → intr.len ≢ 0
      → intr.len % 12 ≡ 0
      → (l : List Interrupt) → length l ≡ min (intr.len / 12) len
      → ((j : ℕ) → j < length l → get_elem? l j ≡ some (decoded intr.cell j))
      → Read t fuel node len (inr l)

pub get_intr_property-Read :
    (t : Libfdt) (err_internal fuel node len : ℕ)
    → Descends t
    → suc node < fuel
    → (r : ℕ ⊎ List Interrupt) × (get_intr_property err_internal fuel (some t) (offset node) len
        ≡ some r)
      × Read t fuel node len r
unfolding get_intr_property
get_intr_property-Read t err_internal fuel node len down l =
    let (parent, q) = find_intr_parent-total t fuel (offset node) down l in
    elim (Option-cases (t.getprop node "interrupts")) [
      | inl missing ↦ (
        inl t.err_notfound,
        rw (missing, get_intr_property) refl,
        failed t.err_notfound (inl missing),
      )
      | inr (intr, e) ↦ elim (Bool-cases (intr.len == 0)) [
        | inl empty ↦ (
          inl t.err_notfound,
          rw (e, get_intr_property, empty) refl,
          failed t.err_notfound (inr (intr, e, inr (inl (ground arith)))),
        )
        | inr full ↦ elim (Option-cases (check_cells t (or_controller t parent))) [
          | inr (bad, c) ↦ (
            inl bad,
            rw (e, get_intr_property, full, q, c) refl,
            failed bad (inr (intr, e, inr (inr (parent, bad, q, c)))),
          )
          | inl fine ↦ elim (Bool-cases (intr.len % 12 != 0)) [
            | inl ragged ↦ (
              inl t.err_badstate,
              rw (e, get_intr_property, full, q, fine, ragged) refl,
              failed t.err_badstate (inr (intr, e, inl (ground arith))),
            )
            | inr whole ↦
                let count = if ltb (intr.len / 12) len then intr.len / 12 else len in
                let size = length-intr_entries intr.cell count 0 in
                (
                  inr (intr_entries intr.cell count 0),
                  rw (e, get_intr_property, full, q, fine, whole) refl,
                  entries intr e (ground arith) (ground arith) (intr_entries intr.cell count 0)
                      (size ∙ ground arith)
                      (λ j low.
                        get_elem?-intr_entries intr.cell count 0 j (omega (arith, size))
                        ∙ ap (λ k. some (decoded intr.cell k)) (omega arith)),
                )
          ]
        ]
      ]
    ]
