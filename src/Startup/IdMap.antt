-- ===== src/Startup/IdMap.antt =====
-- src/kernel/page_table/page_table.c: the identity map that setup_kernel_id_map builds.
use kernelite.Base.{ℕ, zero, suc, ◌+◌, ◌-◌, ◌*◌, ◌/◌, ◌%◌, ◌^◌, ◌≤◌, ◌<◌, ◌≡◌, ◌⊎◌, inl, inr}
use kernelite.Base.{refl, ap, sym, ◌∙◌, arith, Option, none, some, List, [], ◌∷◌, Mem}
use kernelite.Base.{Bool, true, false, Bool-cases, sub64, ◌==◌, ◌!=◌, ◌&&◌, if◌then◌else◌, ltb, u64}
use mathlib.Core.Path.{subst}
use native.Mathlib.Decide.{ℕ_discrete}
use kernelite.MemLayout.{va_to_pa, pa_to_va}
use kernelite.Fdt.Memory.{MemoryRegion}
use kernelite.PageAllocator.Chunk.{Chunk, page_size}
use kernelite.PageAllocator.Regions.{
  page_allocator_add_region, page_allocator_remove_region, page_alloc,
}
use kernelite.PageTable.Layout.{PageDesc, device, normal}
use kernelite.PageTable.Map.{map_page, leaf_desc, entry_at}
use kernelite.PageTable.Walk.{translate}
use kernelite.PageTable.Walk.Tree.{Tree, Frames}
use kernelite.PageTable.Walk.Root.{translate-none, root-Tree}
use kernelite.PageTable.Walk.Link.{IsBase}
use kernelite.PageTable.Remap.{page_of, within}
use kernelite.PageTable.Mapping.{map_page-Mapped}
use kernelite.Gicv3.Window.{map_run}
use kernelite.Gicv3.WindowMap.{map_run-Progress}
use kernelite.Startup.Steps.{
  kernel_exe_perms, serial_perms, id_map_size, map_image, map_serial, map_from_root,
  setup_kernel_id_map,
}
use kernelite.Startup.Regions.{Laid, Empty-Laid, add_region-Laid}
use kernelite.Startup.Frames.{
  Marked, frames, page_alloc-aligned, page_alloc-small, page_alloc-Marked,
}
use kernelite.Startup.Pool.{Empty, remove-add_region-Empty}

-- The loop over the pages of the image runs as that of map_continuous.
map_image-map_run :
    (image_start image_end kernel_base_va fuel : ℕ) (cs : List Chunk) (root cur : ℕ)
    (st : Mem × Mem)
    → map_image image_start image_end kernel_base_va fuel cs root cur st
      ≡ map_run kernel_base_va
          (page_alloc 1 cs)
          root
          kernel_exe_perms
          normal
          fuel
          cur
          cur
          image_end
          st
unfolding map_image map_run
map_image-map_run image_start image_end kernel_base_va zero cs root cur st = refl
map_image-map_run image_start image_end kernel_base_va (suc fuel) cs root cur st =
    let (ok, st') =
      map_page kernel_base_va (page_alloc 1 cs) root cur cur kernel_exe_perms normal st in
    ap
      (λ rest.
        if ltb cur image_end then (if ok then rest else some (false, st')) else some (true, st))
      (map_image-map_run image_start image_end kernel_base_va fuel cs root (u64 (cur + page_size))
        st')

-- The leaf of page `n` in the identity map of an image and a serial device.
abbrev pub id_leaf : ℕ → ℕ → ℕ → ℕ → Option PageDesc
id_leaf image_start image_end serial n =
    if n == serial / 4096
    then some (leaf_desc serial serial_perms device)
    else if within (image_start / 4096) (image_end / 4096) n
    then some (leaf_desc (4096 * n) kernel_exe_perms normal)
    else none

-- Tables that translate exactly the pages of the image and the page of the device, each to itself.
abbrev pub Identity : ℕ → ℕ → ℕ → ℕ → Mem → Type 0
Identity image_start image_end serial root tm =
    (w : ℕ) → translate 0 root w tm ≡ id_leaf image_start image_end serial (page_of w)

no_base : IsBase 0
no_base = omega arith

-- The pages of the image alone.
abbrev Image : ℕ → ℕ → ℕ → Mem → Type 0
Image image_start image_end root tm =
    (w : ℕ)
    → translate 0 root w tm ≡ (
        if within (image_start / 4096) (image_end / 4096) (page_of w)
        then some (leaf_desc (4096 * page_of w) kernel_exe_perms normal)
        else none)

-- The window of pages that map_run fills, as the pages of the image.
same_leaf :
    (begin last k n : ℕ)
    → begin < 2 ^ 36
    → begin + k ≡ last
    → (if within (begin % 2 ^ 36 + 0) (begin % 2 ^ 36 + k) n
        then some (leaf_desc (4096 * (begin + (n - begin % 2 ^ 36))) kernel_exe_perms normal)
        else none)
      ≡ (if within begin last n then some (leaf_desc (4096 * n) kernel_exe_perms normal) else none)
same_leaf begin last k n l e = elim (Bool-cases (within begin last n)) [
  | inl inside ↦
      let here : within (begin % 2 ^ 36 + 0) (begin % 2 ^ 36 + k) n ≡ true = ground arith in
      let from : begin ≤ n = ground arith in
      let at : 4096 * (begin + (n - begin % 2 ^ 36)) ≡ 4096 * n = omega arith in
      rw (inside, here) (ap (λ a. some (leaf_desc a kernel_exe_perms normal)) at)
  | inr outside ↦
      let there : within (begin % 2 ^ 36 + 0) (begin % 2 ^ 36 + k) n ≡ false = ground arith in
      rw (outside, there) refl
]

module _ (image_start image_end root : ℕ) (cs : List Chunk) (region : MemoryRegion)
    (laid : Laid (2 ^ 48) (region ∷ []) cs) where
  abbrev F : Frames Mem
  F = frames cs laid.well laid.aligned laid.below

  map_image-Image :
      (fuel : ℕ) (m tm : Mem)
      → image_start % 4096 ≡ 0
      → image_end % 4096 ≡ 0
      → image_start < image_end
      → image_end ≤ 2 ^ 48
      → (image_end - image_start) / 4096 < fuel
      → Tree 0 (Marked cs m) root tm
      → ((w : ℕ) → translate 0 root w tm ≡ none)
      → (r : Bool × (Mem × Mem)) × (map_image image_start image_end 0 fuel cs root image_start
            (m, tm)
          ≡ some r)
        × Tree 0 (Marked cs r.1.0) root r.1.1
        × ((r.0 ≡ false) ⊎ ((r.0 ≡ true) × Image image_start image_end root r.1.1))
  map_image-Image fuel m tm s_aligned e_aligned nonempty below enough T nothing =
      let p = image_start / 4096 in
      let count = (image_end - image_start) / 4096 in
      let (r, q, (good, (k, _, upto, all, after))) =
        map_run-Progress 0 no_base F root kernel_exe_perms normal p p fuel 0 count (m, tm) T refl
          (omega arith) (omega arith) (omega arith) (omega arith) (omega arith) in
      let start : 4096 * (p + 0) ≡ image_start = omega arith in
      let end : 4096 * (p + count) ≡ image_end = omega arith in
      (
        r,
        map_image-map_run image_start image_end 0 fuel cs root image_start (m, tm)
            ∙ sym (
                ap
                  (λ a.
                    map_run 0 (page_alloc 1 cs) root kernel_exe_perms normal fuel a a
                      (4096 * (p + count)) (m, tm))
                  start
                ∙ ap
                    (λ e.
                      map_run 0 (page_alloc 1 cs) root kernel_exe_perms normal fuel image_start
                        image_start e (m, tm))
                    end)
            ∙ q,
        good,
        elim all [
          | inr failed ↦ inl failed
          | inl ok ↦ inr (
            ok.0,
            λ w.
                after w
                ∙ ap
                    (λ o.
                      if within (p % 2 ^ 36 + 0) (p % 2 ^ 36 + k) (page_of w)
                      then some (
                          leaf_desc (4096 * (p + (page_of w - p % 2 ^ 36))) kernel_exe_perms normal)
                      else o)
                    (nothing w)
                ∙ same_leaf p (image_end / 4096) k (page_of w) (omega arith) (omega (arith, ok.1)),
          )
        ],
      )

  map_serial-Identity :
      (start serial : ℕ) (m tm : Mem)
      → serial < 2 ^ 48
      → Tree 0 (Marked cs m) root tm
      → Image image_start image_end root tm
      → let x = map_serial image_start image_end 0 start root serial cs (true, (m, tm)) in
        (x.0 ≡ false)
        ⊎ ((x.0 ≡ true)
            × (x.1 ≡ (page_allocator_remove_region start cs).1)
            × Identity image_start image_end serial root x.2.1)
  unfolding map_serial
  map_serial-Identity start serial m tm small T before =
      let M = map_page-Mapped 0 no_base F root serial serial serial_perms device m tm T in
      let r = map_page 0 (page_alloc 1 cs) root serial serial serial_perms device (m, tm) in
      elim (Bool-cases r.0) [
        | inr stuck ↦ rw stuck (inl refl)
        | inl fine ↦
            let page : page_of serial ≡ serial / 4096 = omega arith in
            rw fine (
              inr (
                refl,
                refl,
                λ w.
                    M.translated w
                    ∙ ap
                        (λ b.
                          if b && (page_of w == page_of serial)
                          then some (leaf_desc serial serial_perms device)
                          else translate 0 root w tm)
                        fine
                    ∙ ap
                        (λ n.
                          if page_of w == n
                          then some (leaf_desc serial serial_perms device)
                          else translate 0 root w tm)
                        page
                    ∙ ap
                        (λ o.
                          if page_of w == serial / 4096
                          then some (leaf_desc serial serial_perms device)
                          else o)
                        (before w),
              ))
      ]

  -- The outcome of the last step, whatever came of the image.
  map_serial-Outcome :
      (start serial : ℕ) (r : Bool × (Mem × Mem))
      → serial < 2 ^ 48
      → Tree 0 (Marked cs r.1.0) root r.1.1
      → (r.0 ≡ false) ⊎ ((r.0 ≡ true) × Image image_start image_end root r.1.1)
      → let x = map_serial image_start image_end 0 start root serial cs r in
        (x.0 ≡ false)
        ⊎ ((x.0 ≡ true)
            × (x.1 ≡ (page_allocator_remove_region start cs).1)
            × Identity image_start image_end serial root x.2.1)
  unfolding map_serial
  map_serial-Outcome start serial (ok, (m, tm)) small T mapped = elim mapped [
    | inl failed ↦ rw failed (inl refl)
    | inr (fine, image) ↦ rw fine (map_serial-Identity start serial m tm small T image)
  ]

  map_from_root-Outcome :
      (fuel start serial root' : ℕ) (m tm : Mem)
      → image_start % 4096 ≡ 0
      → image_end % 4096 ≡ 0
      → image_start < image_end
      → image_end ≤ 2 ^ 48
      → (image_end - image_start) / 4096 < fuel
      → serial < 2 ^ 48
      → Tree 0 (Marked cs m) root tm
      → ((w : ℕ) → translate 0 root w tm ≡ none)
      → root' ≡ root
      → (x : Bool × List Chunk × (Mem × Mem)) × (map_from_root image_start image_end 0 fuel start
            root serial cs root'
            (m, tm)
          ≡ some x)
        × ((x.0 ≡ false)
            ⊎ ((x.0 ≡ true)
                × (x.1 ≡ (page_allocator_remove_region start cs).1)
                × Identity image_start image_end serial root x.2.1))
  unfolding map_from_root
  map_from_root-Outcome fuel start serial root' m tm s_aligned e_aligned nonempty below enough small
        T nothing there =
      let (r, q, tree, mapped) =
        map_image-Image fuel m tm s_aligned e_aligned nonempty below enough T nothing in
      (
        map_serial image_start image_end 0 start root serial cs r,
        ap (λ a. map_from_root image_start image_end 0 fuel start root serial cs a (m, tm)) there
            ∙ rw (q, map_from_root) refl,
        map_serial-Outcome start serial r small tree mapped,
      )

-- setup_kernel_id_map, before any other memory is managed and with addresses still physical, for
-- an image of whole pages below 2^48, a pool below 2^48 that starts at a page boundary, a serial
-- device below 2^48, and the root table all zero. With more fuel than the image has pages it
-- returns. If it gives true, no chunk is live any more, and the hardware translates exactly the
-- pages of the image and the page of the serial device, each to itself.
pub setup_kernel_id_map-Identity :
    (image_start image_end fuel start root serial : ℕ) (cs : List Chunk) (m tm : Mem)
    → image_start % 4096 ≡ 0
    → image_end % 4096 ≡ 0
    → image_start < image_end
    → image_end ≤ 2 ^ 48
    → (image_end - image_start) / 4096 < fuel
    → start % 4096 ≡ 0
    → start + (id_map_size + page_size) ≤ 2 ^ 48
    → serial < 2 ^ 48
    → ((i : ℕ) → i < 512 → tm (entry_at root i) ≡ 0)
    → Empty cs
    → (x : Bool × List Chunk × (Mem × Mem)) × (setup_kernel_id_map image_start image_end 0 fuel
          start root serial cs
          (m, tm)
        ≡ some x)
      × ((x.0 ≡ false)
          ⊎ ((x.0 ≡ true) × Empty x.1 × Identity image_start image_end serial root x.2.1))
unfolding setup_kernel_id_map pa_to_va va_to_pa
setup_kernel_id_map-Identity image_start image_end fuel start root serial cs m tm s_aligned
      e_aligned nonempty below enough aligned pool_below small zeroed empty =
    let size = id_map_size + page_size in
    let (added, cs', m') =
      page_allocator_add_region image_start image_end 0 start size false cs m in
    let p = (page_alloc 1 cs' m').0 in
    let m'' = (page_alloc 1 cs' m').1 in
    let laid : Laid (2 ^ 48) (record { base = start; size = size } ∷ []) cs' =
      add_region-Laid image_start image_end 0 (2 ^ 48) (record { base = start; size = size }) false
        [] cs m (omega arith) (omega arith) tt (Empty-Laid (2 ^ 48) cs empty) in
    elim (Bool-cases added) [
      | inr refused ↦ ((false, cs', (m', tm)), rw refused refl, inl refl)
      | inl fine ↦ elim (ℕ_discrete p 0) [
        | yes null ↦
            let null' : (p == 0) ≡ true = ground arith in
            ((false, cs', (m'', tm)), rw (fine, null') refl, inl refl)
        | no real ↦
            let real' : (p == 0) ≡ false = ground arith in
            elim (Bool-cases (u64 (0 + p) != root)) [
              | inl other ↦ ((false, cs', (m'', tm)), rw (fine, real', other) refl, inl refl)
              | inr same ↦
                  let under = page_alloc-small cs' laid.well laid.aligned laid.below m' in
                  let at : p ≡ root = ground arith in
                  let at' : p ≡ sub64 root 0 = omega arith in
                  let used : Marked cs' m'' (sub64 root 0) =
                    subst (Marked cs' m'') at'
                      (page_alloc-Marked cs' laid.well laid.aligned laid.below m' real) in
                  let on_page : root % 4096 ≡ 0 =
                    subst (λ a. a % 4096 ≡ 0) at
                      (page_alloc-aligned cs' laid.well laid.aligned laid.below m') in
                  let T = root-Tree 0 root tm zeroed (Marked cs' m'') on_page used in
                  let there : u64 (0 + p) ≡ root = omega arith in
                  let (x, q, outcome) =
                    map_from_root-Outcome image_start image_end root cs' _ laid fuel start serial
                      (u64 (0 + p)) m'' tm s_aligned e_aligned nonempty below enough small T
                      (translate-none 0 root tm zeroed) there in
                  (
                    x,
                    rw (fine, real', same) q,
                    elim outcome [
                      | inl failed ↦ inl failed
                      | inr (ok, removed, identity) ↦ inr (
                        ok,
                        subst Empty (sym removed) (
                            remove-add_region-Empty image_start image_end 0 start size false cs m
                              aligned (omega arith) empty),
                        identity,
                      )
                    ],
                  )
            ]
      ]
    ]
