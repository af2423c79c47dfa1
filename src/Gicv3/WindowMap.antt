-- ===== src/Gicv3/WindowMap.antt =====
-- src/kernel/drivers/gicv3.c: what map_continuous makes of the translation.
use kernelite.Base.{
  ℕ, zero, suc, ◌+◌, ◌-◌, ◌*◌, ◌/◌, ◌%◌, ◌^◌, ◌≤◌, ◌<◌, ◌≡◌, ◌≢◌, ◌⊎◌, refl, ap, ◌∙◌, inl, inr,
  arith,
}
use kernelite.Base.{
  Mem, some, Bool, true, false, Bool-cases, ◌==◌, ◌!=◌, ◌&&◌, ltb, if◌then◌else◌, u64, ltb→lt,
}
use kernelite.PageAllocator.Chunk.{page_size, align_up}
use kernelite.PageAllocator.Init.{align_up_lem}
use kernelite.PageTable.Layout.{PagePermissions, MemType, PageDesc}
use kernelite.PageTable.Map.{map_page, leaf_desc}
use kernelite.PageTable.Walk.Tree.{Frames, Tree}
use kernelite.PageTable.Walk.Link.{IsBase}
use kernelite.PageTable.Remap.{page_of, within, Remap, Remap-trans, Remap-congr, map_page-Remap}
use kernelite.Gicv3.Window.{map_run, map_continuous}

abbrev rounded : ℕ → ℕ
rounded size = if size % page_size != 0 then align_up size else size

rounded_lem : (size : ℕ) → size + 4095 < 2 ^ 64 → rounded size ≡ 4096 * ((size + 4095) / 4096)
rounded_lem size l = ground (arith, align_up_lem size l)

plus_zero : (n : ℕ) → n ≡ n + 0
plus_zero n = omega arith

-- The window: pages from number `p` on of physical memory, at the pages from number `v` on of the virtual addresses.
module _ (kernel_base_va : ℕ) (base : IsBase kernel_base_va) {S : Type 0} (F : Frames S) (root : ℕ)
    (perms : PagePermissions) (mem_type : MemType) (p v : ℕ) where
  abbrev pub first : ℕ
  first = v % 2 ^ 36

  -- The leaf of the page with number `n` of the address space.
  abbrev pub shifted : ℕ → PageDesc
  shifted n = leaf_desc (4096 * (p + (n - first))) perms mem_type

  abbrev pub Good : S × Mem → Type 0
  Good (s, tm) = Tree kernel_base_va (F.in_use s) root tm

  abbrev map_one : ℕ → S × Mem → Bool × (S × Mem)
  map_one c st =
      map_page kernel_base_va F.page_alloc root (4096 * (v + c)) (4096 * (p + c)) perms mem_type st

  map_one-Remap :
      (c : ℕ) (st : S × Mem)
      → perms.read ≡ true
      → first + c < 2 ^ 36
      → Good st
      → Good (map_one c st).1
        × Remap kernel_base_va root shifted st.1
            (map_one c st).1.1
            (λ n. (map_one c st).0 && (n == first + c))
  map_one-Remap c (s, tm) readable l T =
      map_page-Remap kernel_base_va root shifted base F (4096 * (v + c)) (4096 * (p + c))
        (first + c) perms mem_type s tm readable (omega arith)
        (ap (λ n. leaf_desc (4096 * (p + n)) perms mem_type) (the_offset c)) T
    where
      the_offset : (c : ℕ) → c ≡ first + c - first
      the_offset c = omega arith

  -- From offset `c` on, the loop stops at offset `k`: at the end if it succeeds.
  abbrev pub Progress : ℕ → ℕ → S × Mem → Bool × (S × Mem) → Type 0
  Progress c count st r =
      Good r.1
      × ((k : ℕ) × (c ≤ k)
          × (k ≤ count)
          × (((r.0 ≡ true) × (k ≡ count)) ⊎ (r.0 ≡ false))
          × Remap kernel_base_va root shifted st.1 r.1.1 (within (first + c) (first + k)))

  pub map_run-Progress :
      (fuel c count : ℕ) (st : S × Mem)
      → Good st
      → perms.read ≡ true
      → first + count ≤ 2 ^ 36
      → 4096 * (p + count) < 2 ^ 64
      → 4096 * (v + count) < 2 ^ 64
      → c ≤ count
      → count < c + fuel
      → (r : Bool × (S × Mem)) × (map_run kernel_base_va F.page_alloc root perms mem_type fuel
            (4096 * (p + c))
            (4096 * (v + c))
            (4096 * (p + count))
            st
          ≡ some r)
        × Progress c count st r
  unfolding map_run
  map_run-Progress zero c count st T readable inside lp lv low enough = absurd (omega arith)
  map_run-Progress (suc fuel) c count st T readable inside lp lv low enough =
      elim (Bool-cases (ltb (4096 * (p + c)) (4096 * (p + count)))) [
        | inr done ↦
            let empty : (n : ℕ) → within (first + c) (first + c) n ≡ false = λ n. ground arith in
            (
              (true, st),
              rw done refl,
              (
                T,
                (c, omega arith, low, inl (refl, ground arith), λ w. rw (empty (page_of w)) refl),
              ),
            )
        | inl more ↦
            let bound : c < count =
              omega (arith, ltb→lt (4096 * (p + c)) (4096 * (p + count)) more) in
            let (tree, step) = map_one-Remap c st readable (omega arith) T in
            elim (Bool-cases (map_one c st).0) [
              | inr stuck ↦ (
                (false, (map_one c st).1),
                rw (more, stuck) refl,
                (
                  tree,
                  (
                    c,
                    omega arith,
                    low,
                    inr refl,
                    Remap-congr kernel_base_va root shifted st.1 (map_one c st).1.1
                        (λ n. (map_one c st).0 && (n == first + c)) (within (first + c) (first + c))
                        step (λ n. rw stuck (ground arith)),
                  ),
                ),
              )
              | inl fine ↦
                  let next_p : u64 (4096 * (p + c) + page_size) ≡ 4096 * (p + suc c) =
                    omega arith in
                  let next_v : u64 (4096 * (v + c) + page_size) ≡ 4096 * (v + suc c) =
                    omega arith in
                  let (r, q, (good, (k, from, upto, all, after))) =
                    map_run-Progress fuel (suc c) count (map_one c st).1 tree readable inside lp lv
                      bound (omega arith) in
                  (
                    r,
                    rw (more, fine)
                        (ap
                            (λ a.
                              map_run kernel_base_va F.page_alloc root perms mem_type fuel a
                                (u64 (4096 * (v + c) + page_size)) (4096 * (p + count))
                                (map_one c st).1)
                            next_p
                          ∙ ap
                              (λ a.
                                map_run kernel_base_va F.page_alloc root perms mem_type fuel
                                  (4096 * (p + suc c)) a (4096 * (p + count)) (map_one c st).1)
                              next_v
                          ∙ q),
                    (
                      good,
                      (
                        k,
                        omega (arith, from),
                        upto,
                        all,
                        Remap-trans kernel_base_va root shifted st.1 (map_one c st).1.1 r.1.1
                            (λ n. (map_one c st).0 && (n == first + c))
                            (within (first + suc c) (first + k)) (within (first + c) (first + k))
                            step after (λ n. rw fine (ground (arith, from))),
                      ),
                    ),
                  )
            ]
      ]

  -- map_continuous on a window of readable pages of one byte at least that lies inside the address space, with more fuel than
  -- it has pages, returns and keeps the tables a tree. It maps the first pages of the window to the physical pages from `p` on, all
  -- of them if it succeeds, and every other page is translated as before.
  pub map_continuous-Remap :
      (fuel size : ℕ) (s : S) (tm : Mem)
      → Tree kernel_base_va (F.in_use s) root tm
      → perms.read ≡ true
      → size ≢ 0
      → first + (size + 4095) / 4096 ≤ 2 ^ 36
      → 4096 * (p + (size + 4095) / 4096) < 2 ^ 64
      → 4096 * (v + (size + 4095) / 4096) < 2 ^ 64
      → (size + 4095) / 4096 < fuel
      → (r : Bool × (S × Mem)) × (map_continuous kernel_base_va F.page_alloc root perms mem_type
            fuel
            (4096 * p)
            (4096 * v)
            size
            (s, tm)
          ≡ some r)
        × Tree kernel_base_va (F.in_use r.1.0) root r.1.1
        × ((k : ℕ) × (k ≤ (size + 4095) / 4096)
            × (((r.0 ≡ true) × (k ≡ (size + 4095) / 4096)) ⊎ (r.0 ≡ false))
            × Remap kernel_base_va root shifted tm r.1.1 (within first (first + k)))
  unfolding map_continuous
  map_continuous-Remap fuel size s tm T readable some' inside lp lv enough =
      let count = (size + 4095) / 4096 in
      let (r, q, (good, (k, _, upto, all, after))) =
        map_run-Progress fuel 0 count (s, tm) T readable inside lp lv (omega arith) (omega arith) in
      let a : (4096 * p % page_size != 0) ≡ false = ground arith in
      let b : (4096 * v % page_size != 0) ≡ false = ground arith in
      let c : (size == 0) ≡ false = ground arith in
      let end : u64 (4096 * p + rounded size) ≡ 4096 * (p + count) =
        omega (arith, rounded_lem size (omega arith)) in
      let run = map_run kernel_base_va F.page_alloc root perms mem_type fuel in
      (
        r,
        rw (a, b, c)
            (ap (λ e. run (4096 * p) (4096 * v) e (s, tm)) end
              ∙ ap (λ x. run (4096 * x) (4096 * v) (4096 * (p + count)) (s, tm)) (plus_zero p)
              ∙ ap (λ x. run (4096 * (p + 0)) (4096 * x) (4096 * (p + count)) (s, tm)) (plus_zero v)
              ∙ q),
        good,
        (
          k,
          upto,
          all,
          Remap-congr kernel_base_va root shifted tm r.1.1 (within (first + 0) (first + k))
              (within first (first + k)) after
              (λ n. ap (λ x. within x (first + k) n) (plus_zero first)),
        ),
      )
