-- ===== src/Startup/IdFrame.antt =====
-- src/kernel/page_table/page_table.c, setup_kernel_id_map: what it writes into the memory of the bitmaps.
use kernelite.Base.{ℕ, zero, suc, ◌+◌, ◌^◌, ◌≤◌, Bool, false, ◌≡◌, inl, inr}
use kernelite.Base.{ap, ◌∙◌, arith, List, [], ◌∷◌, Mem, Bool-cases, Option, none, some}
use kernelite.Base.{ltb, ◌==◌, ◌!=◌, u64}
use mathlib.Core.Path.{subst}
use kernelite.MemLayout.{pa_to_va}
use kernelite.PageAllocator.Chunk.{Chunk, page_size, num_pages, bitmap_bytes}
use kernelite.PageAllocator.Regions.{page_allocator_add_region, page_alloc}
use kernelite.PageAllocator.Regions.Lookup.{WellFormed}
use kernelite.PageAllocator.Regions.Calls.{page_alloc_lem}
use kernelite.PageTable.Layout.{normal, device}
use kernelite.PageTable.Map.{map_page}
use kernelite.PageTable.KernelMap.Keeps.{map_page-keeps}
use kernelite.Startup.Steps.{
  id_map_size, kernel_exe_perms, serial_perms, map_image, map_serial, map_from_root,
  setup_kernel_id_map,
}
use kernelite.Fdt.Memory.{MemoryRegion}
use kernelite.Startup.Pool.{Empty}
use kernelite.Startup.Regions.{Laid, Empty-Laid, add_region-Laid}
use kernelite.Startup.Header.{Clear, Spared, add_region-Clear}

-- The byte at `a` is `b` in the memory of the bitmaps that a step leaves.
abbrev Left : ℕ → ℕ → {A : Type 0} → Option (A × (Mem × Mem)) → Type 0
Left a b none = Unit
Left a b (some x) = x.1.0 a ≡ b

module _ (a b : ℕ) (cs : List Chunk) (well : WellFormed cs) (clear : Clear a cs) where
  page_alloc-kept_byte : (m : Mem) → m a ≡ b → (page_alloc 1 cs m).1 a ≡ b
  unfolding num_pages bitmap_bytes
  page_alloc-kept_byte m e = elim (page_alloc_lem 1 cs m well (omega arith)) [
    | inl g ↦
        let off = clear g.from g.live in
        let v = well.valid g.from g.live in
        let fits = g.given.fit.fits in g.given.frame a (omega (arith, v.ends)) ∙ e
    | inr refused ↦ ap (λ (x : Mem). x a) refused.1 ∙ e
  ]

  map_image-Left :
      (image_start image_end fuel root cur : ℕ) (st : Mem × Mem)
      → st.0 a ≡ b
      → Left a b (map_image image_start image_end 0 fuel cs root cur st)
  unfolding map_image
  map_image-Left image_start image_end zero root cur st e = tt
  map_image-Left image_start image_end (suc fuel) root cur st e =
      let r = map_page 0 (page_alloc 1 cs) root cur cur kernel_exe_perms normal st in
      let kept =
        map_page-keeps 0 (page_alloc 1 cs) (λ m. m a ≡ b) page_alloc-kept_byte root cur cur
          kernel_exe_perms normal st e in
      elim (Bool-cases (ltb cur image_end)) [
        | inr done ↦ rw done e
        | inl more ↦ elim (Bool-cases r.0) [
          | inr stuck ↦ rw (more, stuck) kept
          | inl fine ↦
              rw (more, fine)
                (map_image-Left image_start image_end fuel root (u64 (cur + page_size)) r.1 kept)
        ]
      ]

  map_serial-kept_byte :
      (image_start image_end start root serial : ℕ) (r : Bool × (Mem × Mem))
      → r.1.0 a ≡ b
      → (map_serial image_start image_end 0 start root serial cs r).2.0 a ≡ b
  unfolding map_serial
  map_serial-kept_byte image_start image_end start root serial (ok, st) e =
      let r = map_page 0 (page_alloc 1 cs) root serial serial serial_perms device st in
      let kept =
        map_page-keeps 0 (page_alloc 1 cs) (λ m. m a ≡ b) page_alloc-kept_byte root serial serial
          serial_perms device st e in
      elim (Bool-cases ok) [
        | inr failed ↦ rw failed e
        | inl fine ↦ elim (Bool-cases r.0) [
          | inl mapped ↦ rw (fine, mapped) kept
          | inr stuck ↦ rw (fine, stuck) kept
        ]
      ]

  map_from_root-kept_byte :
      (image_start image_end fuel start id_root serial root : ℕ) (st : Mem × Mem)
      (x : Bool × List Chunk × (Mem × Mem))
      → st.0 a ≡ b
      → map_from_root image_start image_end 0 fuel start id_root serial cs root st ≡ some x
      → x.2.0 a ≡ b
  unfolding map_from_root
  map_from_root-kept_byte image_start image_end fuel start id_root serial root st x e =
      decide (map_image image_start image_end 0 fuel cs root image_start st)
        (map_image-Left image_start image_end fuel root image_start st e)
    where
      decide :
          (o : Option (Bool × (Mem × Mem)))
          → Left a b o
          → (elim o as (λ _. Option (Bool × List Chunk × (Mem × Mem))) [
            | none ↦ none
            | some r ↦ some (map_serial image_start image_end 0 start id_root serial cs r)
          ])
            ≡ some x
          → x.2.0 a ≡ b
      decide none l q = absurd (cc q)
      decide (some r) l q =
          let same : map_serial image_start image_end 0 start id_root serial cs r ≡ x = cc q in
          subst (λ (y : Bool × List Chunk × (Mem × Mem)). y.2.0 a ≡ b) same
            (map_serial-kept_byte image_start image_end start id_root serial r l)

-- A byte outside the pages of the pool's bitmap is as it was once the identity map is made.
pub setup_kernel_id_map-kept_byte :
    (image_start image_end fuel start root serial a : ℕ) (cs : List Chunk) (m tm : Mem)
    (x : Bool × List Chunk × (Mem × Mem))
    → start + (id_map_size + page_size) ≤ 2 ^ 48
    → Spared 0 a (record { base = start; size = id_map_size + page_size })
    → Empty cs
    → setup_kernel_id_map image_start image_end 0 fuel start root serial cs (m, tm) ≡ some x
    → x.2.0 a ≡ m a
unfolding setup_kernel_id_map
setup_kernel_id_map-kept_byte image_start image_end fuel start root serial a cs m tm x small spared
      empty =
    let size = id_map_size + page_size in
    let pool : MemoryRegion = record { base = start; size = size } in
    let (added, cs', m') =
      page_allocator_add_region image_start image_end 0 start size false cs m in
    let (clear, kept) =
      add_region-Clear image_start image_end 0 a (omega arith) pool false cs m (omega arith) spared
        (λ c l. absurd (empty c l)) in
    let laid : Laid (2 ^ 48) (pool ∷ []) cs' =
      add_region-Laid image_start image_end 0 (2 ^ 48) pool false [] cs m (omega arith)
        (omega arith) tt (Empty-Laid (2 ^ 48) cs empty) in
    let p = (page_alloc 1 cs' m').0 in
    let m'' = (page_alloc 1 cs' m').1 in
    let kept' = page_alloc-kept_byte a (m a) cs' laid.well clear m' kept in
    elim (Bool-cases added) [
      | inr refused ↦ rw refused (λ q.
          let same : (false, cs', (m', tm)) ≡ x = cc q in
          subst (λ (y : Bool × List Chunk × (Mem × Mem)). y.2.0 a ≡ m a) same kept)
      | inl fine ↦ elim (Bool-cases (p == 0)) [
        | inl null ↦
            rw (fine, null)
              (λ q.
                let same : (false, cs', (m'', tm)) ≡ x = cc q in
                subst (λ (y : Bool × List Chunk × (Mem × Mem)). y.2.0 a ≡ m a) same kept')
        | inr real ↦ elim (Bool-cases (pa_to_va 0 p != root)) [
          | inl other ↦
              rw (fine, real, other)
                (λ q.
                  let same : (false, cs', (m'', tm)) ≡ x = cc q in
                  subst (λ (y : Bool × List Chunk × (Mem × Mem)). y.2.0 a ≡ m a) same kept')
          | inr same_root ↦
              rw (fine, real, same_root)
                (map_from_root-kept_byte a (m a) cs' laid.well clear image_start image_end fuel
                  start root serial (pa_to_va 0 p) (m'', tm) x kept')
        ]
      ]
    ]
