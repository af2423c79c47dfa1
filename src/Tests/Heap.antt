-- ===== src/Tests/Heap.antt =====
-- The kernel heap over the page allocator, with a chunk of sixteen pages.
use kernelite.Base.{ℕ, ◌+◌, ◌*◌, ◌%◌, ◌^◌, ◌≡◌, ◌≢◌, ◌⊎◌, inl, inr, refl, sym, ◌∙◌, ◌≤◌, arith}
use kernelite.Base.{List, [], ◌∷◌, true, false, Bool, ◌&&◌, Mem, some, ◌==◌, ◌||◌, if◌then◌else◌}
use kernelite.MemLayout.{va_to_pa, kernel_base}
use kernelite.PageAllocator.Chunk.{Chunk, page_size, num_pages, is_used}
use kernelite.KernelHeap.State.{KernelHeap, empty_desc}
use kernelite.KernelHeap.Blocks.{kmalloc, kfree}
use kernelite.KernelHeap.Invariant.{Pages, IsValid, live}
use kernelite.KernelHeap.Malloc.{Outcome, kmalloc-Outcome}
use kernelite.KernelHeap.Separate.{Separate}
use kernelite.Startup.Reserve.{Held}
use kernelite.Startup.HeapPages.{Ground, Granting, heap_pages, holds-grants}
use kernelite.PageAllocator.Alloc
use kernelite.PageAllocator.Bitmap.{within}
use kernelite.PageAllocator.Regions.Lookup.{Live}
use mathlib.Core.Path.{subst}
use kernelite.KernelHeap.Free.{drop_ptr, kfree_lem}
use kernelite.KernelHeap.Cycle.{kfree-kmalloc}

-- A chunk of sixteen pages at 0x1000, and its bitmap.
abbrev sixteen : Chunk
sixteen = record { bitmap = 0x9_0000; total_pages = 16; mem_base = 0x1000; initialized = true }

abbrev sixteen_only : List Chunk
sixteen_only = sixteen ∷ []

at_sixteen : (c : Chunk) → Live c sixteen_only → c ≡ sixteen
at_sixteen c l = elim l [ inl e ↦ e.0 | inr none' ↦ absurd none' ]

sixteen-IsValid : Alloc.IsValid sixteen
sixteen-IsValid = omega arith

sixteen-Ground : Ground sixteen_only
sixteen-Ground = record {
  well = record {
    valid = λ c l. subst Alloc.IsValid (sym (at_sixteen c l)) sixteen-IsValid;
    separate = λ c d l k. inl (at_sixteen c l ∙ sym (at_sixteen d k));
  };
  aligned = λ c l. subst (λ (x : Chunk). x.mem_base % page_size ≡ 0) (sym (at_sixteen c l)) refl;
  low = λ c l.
      subst (λ (x : Chunk). x.mem_base + x.total_pages * page_size ≤ 2 ^ 48) (sym (at_sixteen c l))
        (omega arith);
  maps = λ c d l k. inl (at_sixteen c l ∙ sym (at_sixteen d k));
}

abbrev State : Type 0
State = Granting sixteen_only sixteen-Ground

abbrev real : Pages State kernel_base
real = heap_pages sixteen_only sixteen-Ground

-- Nothing is granted yet.
abbrev untouched : State
untouched = record {
  mem = λ a. 0;
  grants = λ p n. false;
  held = λ p n e. absurd (cc e);
  apart = λ p n q k e e'. absurd (cc e);
}

abbrev first_heap : KernelHeap State
first_heap = record {
  allocated = 0;
  kalloc_page_head = 0;
  desc = λ a. empty_desc;
  next_page = λ a. 0;
  frames = untouched;
}

first_heap-IsValid : IsValid kernel_base real first_heap [] []
first_heap-IsValid = record {
  page_chain = refl;
  block_chain = refl;
  pages_distinct = tt;
  blocks_distinct = tt;
  managed = tt;
  in_use = tt;
  has_data = tt;
  data_distinct = tt;
  data_apart = tt;
}

-- The pages at 0x1000 and 0x2000 are granted, one by one.
abbrev two_used : Mem
two_used a = if a == 0x9_0000 then 3 else 0

abbrev two_grants : ℕ → ℕ → Bool
two_grants p n = (n == 1) && (p == 0x1000 || p == 0x2000)

two_grants-cases : (p n : ℕ) → two_grants p n ≡ true → (n ≡ 1) × ((p ≡ 0x1000) ⊎ (p ≡ 0x2000))
two_grants-cases p n e = ground (arith, e)

first_used : (j : ℕ) → within 0 1 j ≡ true → is_used 0x9_0000 two_used j ≡ true
unfolding is_used
first_used j w = let e : j ≡ 0 = ground arith in rw e refl

second_used : (j : ℕ) → within 1 1 j ≡ true → is_used 0x9_0000 two_used j ≡ true
unfolding is_used
second_used j w = let e : j ≡ 1 = ground arith in rw e refl

two-Held :
    (p : ℕ)
    → (p ≡ 0x1000) ⊎ (p ≡ 0x2000)
    → Held sixteen_only two_used p 1 × (p % page_size ≡ 0) × (◌≢◌ {A = ℕ} 1 0)
two-Held p (inl e) = rw e (
  record { by = sixteen; live = inl (refl, refl); inside = omega arith; used = first_used },
  omega arith,
  omega arith,
)
two-Held p (inr e) = rw e (
  record { by = sixteen; live = inl (refl, refl); inside = omega arith; used = second_used },
  omega arith,
  omega arith,
)

abbrev two_granted : State
two_granted = record {
  mem = two_used;
  grants = two_grants;
  held = λ p n e. let (one, at) = two_grants-cases p n e in rw one (two-Held p at);
  apart = λ p n q k e e'.
      let c = two_grants-cases p n e in let c' = two_grants-cases q k e' in ground (arith, c, c');
}

-- One management page at physical 0x1000 whose first descriptor stands for a block at 0x2000.
abbrev page1 : ℕ
page1 = kernel_base + 0x1000

abbrev data1 : ℕ
data1 = kernel_base + 0x2000

abbrev one_block : KernelHeap State
one_block = record {
  allocated = page1;
  kalloc_page_head = page1;
  desc = λ a.
      if a == page1
      then record { ptr = data1; size = 100; is_used = true; next = 0 }
      else empty_desc;
  next_page = λ a. 0;
  frames = two_granted;
}

one_block-IsValid : IsValid kernel_base real one_block (page1 ∷ []) (page1 ∷ [])
unfolding va_to_pa num_pages
one_block-IsValid = record {
  page_chain = (refl, omega arith, refl);
  block_chain = (refl, omega arith, refl);
  pages_distinct = (tt, tt);
  blocks_distinct = (tt, tt);
  managed = (
    (omega arith, omega arith, holds-grants sixteen_only sixteen-Ground two_granted 0x1000 1 refl),
    tt,
  );
  in_use = ((refl, (page1, 0, omega arith, inl refl, omega arith)), tt);
  has_data = (
    (omega arith, omega arith, holds-grants sixteen_only sixteen-Ground two_granted 0x2000 1 refl),
    tt,
  );
  data_distinct = (tt, tt);
  data_apart = (((omega arith), tt), tt);
}

kmalloc-Outcome_example :
    (r : ℕ) × (h' : KernelHeap State) × (kmalloc real.page_alloc real.page_free kernel_base 10 5000
        one_block
      ≡ some (r, h'))
    × ((o : Outcome kernel_base real one_block (page1 ∷ []) 5000 r h') × Separate kernel_base real
          h' o.pages' o.blocks')
kmalloc-Outcome_example =
    kmalloc-Outcome kernel_base real 10 5000 one_block (page1 ∷ []) (page1 ∷ []) one_block-IsValid
      (omega arith) (omega arith) (omega arith)

kfree_lem_example :
    (h' : KernelHeap State) × (pages' : List ℕ) × (blocks' : List ℕ) × (kfree real.page_alloc
        real.page_free kernel_base 10 data1 one_block
      ≡ some h')
    × IsValid kernel_base real h' pages' blocks'
    × (live kernel_base real h' blocks' ≡ drop_ptr data1 ((data1, 100) ∷ []))
kfree_lem_example =
    kfree_lem kernel_base real 10 data1 one_block (page1 ∷ []) (page1 ∷ []) one_block-IsValid
      (omega arith) (omega arith)

kfree-kmalloc_example :
    (r : ℕ) × (h' : KernelHeap State) × (kmalloc real.page_alloc real.page_free kernel_base 10 5000
        first_heap
      ≡ some (r, h'))
    × ((r ≡ 0)
        ⊎ ((enough : ℕ) × (h'' : KernelHeap State) × (pages'' : List ℕ) × (blocks'' : List ℕ)
            × (kfree real.page_alloc real.page_free kernel_base enough r h' ≡ some h'')
            × IsValid kernel_base real h'' pages'' blocks''
            × (live kernel_base real h'' blocks'' ≡ [])))
kfree-kmalloc_example =
    kfree-kmalloc kernel_base real 10 5000 first_heap [] [] first_heap-IsValid (omega arith)
      (omega arith) (omega arith)
