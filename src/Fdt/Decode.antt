-- ===== src/Fdt/Decode.antt =====
-- src/kernel/fdt/fdt.c: the memory maps against a description of the properties as lists of
-- entries.
use mathlib.Core.List.{append_assoc, append-nil}
use kernelite.Base.{
  ℕ, zero, suc, ◌+◌, ◌*◌, ◌/◌, ◌%◌, ◌^◌, ◌≤◌, ◌<◌, ◌≡◌, ◌≢◌, ◌⊎◌, inl, inr, refl, ap, ◌∙◌, sym,
  arith, bit_or,
}
use kernelite.Base.{
  true, false, ◌||◌, Option, none, some, List, [], ◌∷◌, ◌++◌, length, take, take-append, take_all,
  length-append, Bool-cases, Option-cases,
}
use kernelite.Base.{ltb, ltb→lt, leb, ◌==◌, ◌!=◌, if◌then◌else◌, u64}
use native.Mathlib.Nat.{mod-eq_of_lt}
use kernelite.Bits.{bit_or_fields}
use kernelite.Base.{All, All-snoc}
use kernelite.Fdt.Tree.{FdtInt, offset, error, Property, Libfdt}
use kernelite.Fdt.Memory.{
  MemoryRegion, MemoryMap, region, entry, read_cells, add_entries, add_node, add_nodes, cell_count,
  get_mem, reg_entries, get_reg_property, max_mem_regions,
}

-- Values of one and of two cells.
pub read_cells_one : (cell : ℕ → ℕ) (i : ℕ) → cell i < 2 ^ 32 → read_cells cell 1 i 0 ≡ cell i
unfolding read_cells
read_cells_one cell i h = omega (arith, bit_or_fields 32 0 (cell i) h)

pub read_cells_two :
    (cell : ℕ → ℕ) (i : ℕ)
    → cell i < 2 ^ 32
    → cell (i + 1) < 2 ^ 32
    → read_cells cell 2 i 0 ≡ cell i * 2 ^ 32 + cell (i + 1)
unfolding read_cells
read_cells_two cell i h k = rw (low, fits, bit_or_fields 32 (cell i) (cell (i + 1)) k) (omega arith)
  where
    low : u64 (bit_or 0 (cell i)) ≡ cell i
    low = omega (arith, bit_or_fields 32 0 (cell i) h)

    fits : u64 (cell i * 2 ^ 32) ≡ cell i * 2 ^ 32
    fits = omega arith

-- The entries of a property of `a` cells for the base and then `s` cells for the size, and those of them that are not empty.
pub entries : (ℕ → ℕ) → ℕ → ℕ → ℕ → ℕ → List MemoryRegion
entries cell a s zero i = []
entries cell a s (suc n) i =
    region (read_cells cell a (i * (a + s)) 0) (read_cells cell s (i * (a + s) + a) 0)
    ∷ entries cell a s n (i + 1)

pub nonempty : List MemoryRegion → List MemoryRegion
nonempty [] = []
nonempty (r ∷ l) = if ltb 0 r.size then r ∷ nonempty l else nonempty l

add_entries-take :
    (cell : ℕ → ℕ) (a s n i : ℕ) (mmap : MemoryMap)
    → length mmap ≤ max_mem_regions
    → add_entries cell a s n i mmap ≡ take max_mem_regions (mmap ++ nonempty (entries cell a s n i))
unfolding add_entries entries nonempty entry
add_entries-take cell a s zero i mmap h =
    sym (ap (take max_mem_regions) (append-nil mmap) ∙ take_all max_mem_regions mmap h)
add_entries-take cell a s (suc n) i mmap h = elim (Bool-cases (leb max_mem_regions (length mmap))) [
  | inl full ↦
      rw full
        (sym (take-append max_mem_regions mmap _ (ground arith) ∙ take_all max_mem_regions mmap h))
  | inr room ↦ elim (Bool-cases (ltb 0 (entry cell a s i).size)) [
    | inl real ↦
        rw (room, real)
          (add_entries-take cell a s n (i + 1) (mmap ++ entry cell a s i ∷ [])
              (ground (arith, length-append mmap (entry cell a s i ∷ [])))
            ∙ ap (take max_mem_regions) (append_assoc mmap (entry cell a s i ∷ []) _))
    | inr empty ↦ rw (room, empty) (add_entries-take cell a s n (i + 1) mmap h)
  ]
]

-- The values of the cells: a 32-bit word each.
abbrev pub IsCells : (ℕ → ℕ) → Type 0
IsCells cell = (i : ℕ) → cell i < 2 ^ 32

multiple_long : (n d : ℕ) → n ≢ 0 → n % d ≡ 0 → ltb n d ≡ false
multiple_long n d ne e = elim (Bool-cases (ltb n d)) [
  | inl less ↦ absurd (ne (sym (mod-eq_of_lt (ltb→lt n d less)) ∙ e))
  | inr more ↦ more
]

-- One memory node with a property that is not empty, where an entry has at least one cell and at most 16
-- regions are known: if its length is a multiple of the size of an entry, the entries that are not empty are appended, as far as there
-- is room for 16; if not, it is refused. An entry is a base, of `a` cells, and then a size, of `s` cells.
pub add_node-take :
    (t : Libfdt) (a s node : ℕ) (reg : Property) (mmap : MemoryMap)
    → t.getprop node "reg" ≡ some reg
    → length mmap ≤ max_mem_regions
    → reg.len ≢ 0
    → 0 < a + s
    → (reg.len % ((a + s) * 4) ≡ 0
        → add_node t a s node mmap
          ≡ inr (
              take max_mem_regions
                (mmap ++ nonempty (entries reg.cell a s (reg.len / ((a + s) * 4)) 0))))
      × (reg.len % ((a + s) * 4) ≢ 0 → add_node t a s node mmap ≡ inl t.err_badstate)
unfolding add_node
add_node-take t a s node reg mmap e h ne some' =
    let nz : (reg.len == 0) ≡ false = ground arith in
    (
      (λ whole.
          let d = (a + s) * 4 in
          let long : ltb reg.len d ≡ false = multiple_long reg.len d ne whole in
          let exact : (reg.len % d != 0) ≡ false = ground arith in
          rw (e, add_node, nz, long, exact, add_entries-take reg.cell a s (reg.len / d) 0 mmap h)
            refl),
      (λ ragged.
          let bad : (ltb reg.len ((a + s) * 4) || (reg.len % ((a + s) * 4) != 0)) ≡ true =
            ground arith in
          rw (e, add_node, nz, bad) refl),
    )

-- At most 16 regions, and none of them empty.
abbrev pub IsMap : MemoryMap → Type 0
IsMap mmap = (length mmap ≤ max_mem_regions) × All (λ r. 0 < r.size) mmap

add_entries-IsMap :
    (cell : ℕ → ℕ) (a s n i : ℕ) (mmap : MemoryMap)
    → IsMap mmap
    → IsMap (add_entries cell a s n i mmap)
unfolding add_entries
add_entries-IsMap cell a s zero i mmap h = h
add_entries-IsMap cell a s (suc n) i mmap h =
    elim (Bool-cases (leb max_mem_regions (length mmap))) [
      | inl full ↦ rw full h
      | inr room ↦ elim (Bool-cases (ltb 0 (entry cell a s i).size)) [
        | inl real ↦
            rw (room, real)
              (add_entries-IsMap cell a s n (i + 1) (mmap ++ entry cell a s i ∷ []) (
                ground (arith, length-append mmap (entry cell a s i ∷ [])),
                All-snoc (λ r. 0 < r.size) mmap (entry cell a s i) h.1 (ground arith),
              ))
        | inr empty ↦ rw (room, empty) (add_entries-IsMap cell a s n (i + 1) mmap h)
      ]
    ]

add_node-IsMap :
    (t : Libfdt) (a s node : ℕ) (mmap : MemoryMap)
    → IsMap mmap
    → ((e : ℕ) × (add_node t a s node mmap ≡ inl e))
      ⊎ ((m : MemoryMap) × (add_node t a s node mmap ≡ inr m) × IsMap m)
unfolding add_node
add_node-IsMap t a s node mmap h = elim (Option-cases (t.getprop node "reg")) [
  | inl missing ↦ inr (mmap, rw (missing, add_node) refl, h)
  | inr (reg, e) ↦ elim (Bool-cases (reg.len == 0)) [
    | inl empty ↦ inr (mmap, rw (e, add_node, empty) refl, h)
    | inr long ↦ elim (Bool-cases (ltb reg.len ((a + s) * 4) || (reg.len % ((a + s) * 4) != 0))) [
      | inl bad ↦ inl (t.err_badstate, rw (e, add_node, long, bad) refl)
      | inr good ↦ inr (
        add_entries reg.cell a s (reg.len / ((a + s) * 4)) 0 mmap,
        rw (e, add_node, long, good) refl,
        add_entries-IsMap reg.cell a s (reg.len / ((a + s) * 4)) 0 mmap h,
      )
    ]
  ]
]

pub FdtInt-cases : (x : FdtInt) → ((n : ℕ) × (x ≡ offset n)) ⊎ ((e : ℕ) × (x ≡ error e))
FdtInt-cases (offset n) = inl (n, refl)
FdtInt-cases (error e) = inr (e, refl)

-- The nodes of a walk come at growing offsets below `size`, as libfdt documents.
abbrev pub Above : Option ℕ → ℕ → Type 0
Above none n = Unit
Above (some p) n = p < n

abbrev pub Advances : ℕ → (Option ℕ → FdtInt) → Type 0
Advances size next = (start : Option ℕ) (n : ℕ) → next start ≡ offset n → (n < size) × Above start n

-- The rounds that are left cover the offsets that are left.
abbrev pub Covers : ℕ → ℕ → Option ℕ → Type 0
Covers size fuel none = size < fuel
Covers size fuel (some p) = (p < size) × (size < fuel + suc p)

pub Covers-next :
    (size fuel : ℕ) (start : Option ℕ) (n : ℕ)
    → Covers size (suc fuel) start
    → n < size
    → Above start n
    → Covers size fuel (some n)
Covers-next size fuel none n c l a = (l, omega arith)
Covers-next size fuel (some p) n c l a = (l, omega arith)

pub Covers-empty : (size : ℕ) (start : Option ℕ) → Covers size 0 start → ⊥
Covers-empty size none c = omega arith
Covers-empty size (some p) c = omega arith

add_nodes-IsMap :
    (t : Libfdt) (size a s fuel : ℕ) (start : Option ℕ) (mmap : MemoryMap)
    → Advances size t.next_memory
    → Covers size fuel start
    → IsMap mmap
    → (r : FdtInt) × (m : MemoryMap) × (add_nodes t a s fuel start mmap ≡ some (r, m)) × IsMap m
unfolding add_nodes
add_nodes-IsMap t size a s zero start mmap adv c h = absurd (Covers-empty size start c)
add_nodes-IsMap t size a s (suc fuel) start mmap adv c h =
    elim (FdtInt-cases (t.next_memory start)) [
      | inr (e, q) ↦ (offset 0, mmap, rw (q, add_nodes) refl, h)
      | inl (n, q) ↦ elim (add_node-IsMap t a s n mmap h) [
        | inl (e, bad) ↦ (error e, mmap, rw (q, add_nodes, bad) refl, h)
        | inr (m, good, ok) ↦
            let rest =
              add_nodes-IsMap t size a s fuel (some n) m adv
                (Covers-next size fuel start n c (adv start n q).0 (adv start n q).1) ok in
            (rest.0, rest.1, rw (q, add_nodes, good) rest.2, rest.3)
      ]
    ]

cell_count-cases : (x : FdtInt) → (cell_count x ≡ none) ⊎ ((n : ℕ) × (cell_count x ≡ some n))
cell_count-cases x = Option-cases (cell_count x)

get_mem-walk :
    (t : Libfdt) (err_internal fuel : ℕ) (mmap : MemoryMap) (n a s : ℕ)
    → t.root ≡ offset n
    → cell_count (t.address_cells n) ≡ some a
    → cell_count (t.size_cells n) ≡ some s
    → get_mem err_internal fuel (some t) mmap ≡ add_nodes t a s fuel none []
unfolding get_mem
get_mem-walk t err_internal fuel mmap n a s q ha hs = rw (q, get_mem, ha, hs) refl

-- With fuel for every offset below `size`, get_mem on a tree returns, and what it leaves in the
-- map, also when it fails half way, are at most 16 regions, none of them empty.
pub get_mem-IsMap :
    (t : Libfdt) (size fuel err_internal : ℕ) (mmap : MemoryMap)
    → Advances size t.next_memory
    → size < fuel
    → (r : FdtInt) × (m : MemoryMap) × (get_mem err_internal fuel (some t) mmap ≡ some (r, m))
      × IsMap m
unfolding get_mem
get_mem-IsMap t size fuel err_internal mmap adv l = elim (FdtInt-cases t.root) [
  | inr (e, q) ↦ (error e, [], rw (q, get_mem) refl, (omega arith, tt))
  | inl (n, q) ↦ elim (cell_count-cases (t.address_cells n)) [
    | inl bad ↦ (error t.err_badstate, [], rw (q, get_mem, bad) refl, (omega arith, tt))
    | inr (a, ha) ↦ elim (cell_count-cases (t.size_cells n)) [
      | inl bad ↦ (error t.err_badstate, [], rw (q, get_mem, ha, bad) refl, (omega arith, tt))
      | inr (s, hs) ↦
          let walk = add_nodes-IsMap t size a s fuel none [] adv l (omega arith, tt) in
          (walk.0, walk.1, get_mem-walk t err_internal fuel mmap n a s q ha hs ∙ walk.2, walk.3)
    ]
  ]
]

-- The entries from cell `pos` on, as get_reg_property reads them.
pub reg_list : (ℕ → ℕ) → ℕ → ℕ → ℕ → ℕ → List MemoryRegion
reg_list cell a s zero pos = []
reg_list cell a s (suc n) pos =
    region (read_cells cell a pos 0) (read_cells cell s (pos + a) 0)
    ∷ reg_list cell a s n (pos + a + s)

reg_entries-take :
    (cell : ℕ → ℕ) (a s n pos : ℕ) (reg_map : MemoryMap)
    → length reg_map ≤ max_mem_regions
    → reg_entries cell a s n pos reg_map ≡ (
      leb (length reg_map + n) max_mem_regions,
      take max_mem_regions (reg_map ++ reg_list cell a s n pos),
    )
unfolding reg_entries reg_list
reg_entries-take cell a s zero pos reg_map h =
    let fits : leb (length reg_map + 0) max_mem_regions ≡ true = ground arith in
    rw fits (
      ap (λ m. (true, m))
        (sym (ap (take max_mem_regions) (append-nil reg_map) ∙ take_all max_mem_regions reg_map h)))
reg_entries-take cell a s (suc n) pos reg_map h =
    let r = region (read_cells cell a pos 0) (read_cells cell s (pos + a) 0) in
    elim (Bool-cases (ltb (length reg_map) max_mem_regions)) [
      | inl room ↦
          let same : leb (length (reg_map ++ r ∷ []) + n) max_mem_regions
              ≡ leb (length reg_map + suc n) max_mem_regions =
            ground (arith, length-append reg_map (r ∷ [])) in
          rw room (
            reg_entries-take cell a s n (pos + a + s) (reg_map ++ r ∷ [])
              (ground (arith, length-append reg_map (r ∷ [])))
            ∙ ap
                (λ b. (
                  b,
                  take max_mem_regions ((reg_map ++ r ∷ []) ++ reg_list cell a s n (pos + a + s)),
                ))
                same
            ∙ ap (λ l. (leb (length reg_map + suc n) max_mem_regions, take max_mem_regions l))
                (append_assoc reg_map (r ∷ []) _))
      | inr full ↦
          let over : leb (length reg_map + suc n) max_mem_regions ≡ false = ground arith in
          rw (full, over)
            (ap (λ m. (false, m))
              (sym (
                take-append max_mem_regions reg_map _ (ground arith)
                ∙ take_all max_mem_regions reg_map h)))
    ]

-- get_reg_property on a node whose address and size cells are counted by `a` and `s`, not both 0,
-- and whose property is not empty: it succeeds exactly if there are at most 16 entries, and fills the map
-- with the first 16.
pub get_reg_property_lem :
    (err_internal : ℕ) (t : Libfdt) (node a s : ℕ) (reg : Property) (reg_map : MemoryMap)
    → t.address_cells node ≡ offset a
    → t.size_cells node ≡ offset s
    → t.getprop node "reg" ≡ some reg
    → a < 2 ^ 31
    → s < 2 ^ 31
    → 0 < a + s
    → reg.len ≢ 0
    → get_reg_property err_internal (some t) (offset node) reg_map ≡ (
      leb (reg.len / ((a + s) * 4)) max_mem_regions,
      take max_mem_regions (reg_list reg.cell a s (reg.len / ((a + s) * 4)) 0),
    )
unfolding get_reg_property
get_reg_property_lem err_internal t node a s reg reg_map ha hs hp la ls nz ne =
    let long : (reg.len == 0) ≡ false = ground arith in
    let width : u64 (u64 (a + s) * 4) ≡ (a + s) * 4 = omega arith in
    let zero_more : leb (0 + reg.len / ((a + s) * 4)) max_mem_regions
        ≡ leb (reg.len / ((a + s) * 4)) max_mem_regions =
      ground arith in
    rw (hp, get_reg_property, ha, hs, long, width, ← zero_more)
      (reg_entries-take reg.cell a s (reg.len / ((a + s) * 4)) 0 [] (omega arith))
