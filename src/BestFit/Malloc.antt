-- ===== src/BestFit/Malloc.antt =====
-- `my_malloc` of malloc.c: what it returns, and what the free list is afterwards.
use sty_linux.Base.{
  ℕ, suc, ◌+◌, ◌%◌, ◌^◌, ◌≤◌, ◌<◌, ◌≡◌, ◌≢◌, ap, ◌∙◌, inl, inr, List, [], ◌∷◌, ◌++◌, arith, done,
  ne→==, le→ltb, All, All-mid,
}
use mathlib.Core.Path.{subst}
use sty_linux.Base.Words.{add64, sub64}
use sty_linux.Memory.{block, null}
use sty_linux.FreeList.{Blocks, Chain, Ordered, Apart}
use sty_linux.FreeList.Spans.{Ordered-split, Ordered-bounds}
use sty_linux.BestFit.{
  Heap, heap_cap, header_size, Link, head, loop_fuel, round_up, search_best, allocate_block,
  alloc_heap, my_malloc, obtained,
}
use sty_linux.BestFit.Valid.{IsHeap, length-lt-loop_fuel, round_up_lem}
use sty_linux.BestFit.Search.{Best, search_best_lem}
use sty_linux.BestFit.Allocate.{carve, allocate_block_lem}
use sty_linux.BestFit.Grow.{Grown, add_region-Grown}

-- The bytes that a request takes, header included.
abbrev pub footprint : ℕ → ℕ
footprint size = add64 header_size (round_up size)

-- A request that fits into a region of the heap.
pub footprint_bounds :
    (size : ℕ)
    → size + header_size ≤ heap_cap
    → (size + header_size ≤ footprint size)
      × (footprint size ≤ heap_cap)
      × (footprint size % 16 ≡ 0)
footprint_bounds size fits = omega (arith, round_up_lem size (omega arith))

-- `p` is the data area of a block of `want` bytes that was cut from the front of the first of the
-- smallest free blocks of `h` that are large enough. Its header holds the size and NULL, as malloc.c
-- writes it, where malloc.h documents ALLOCATED_BLOCK_MAGIC. The other free blocks, and all headers outside
-- the free blocks, are as before.
pub record Placed (h h' : Heap) (xs : Blocks) (p want : ℕ) : Type 0 where
  pub before : Blocks
  pub after : Blocks
  pub address : ℕ
  pub size : ℕ
  pub cut : xs ≡ before ++ (address, size) ∷ after
  pub fits : want ≤ size
  pub least : All (λ c. want ≤ c.1 → size ≤ c.1) xs
  pub earliest : All (λ c. want ≤ c.1 → size < c.1) before
  pub result : p ≡ address + header_size
  pub valid : IsHeap h' (before ++ (carve address size want ++ after))
  pub header : h'.mem address ≡ block want null
  pub clear : Apart address (before ++ (carve address size want ++ after))
  pub others : (x : ℕ) → Apart x xs → h'.mem x ≡ h.mem x
  pub globals : (h'.heap_start ≡ h.heap_start) × (h'.heap_size ≡ h.heap_size)

-- The allocation that follows a search with a result.
pub allocate-Placed :
    (h : Heap) (xs : Blocks) (want b : ℕ) (link : Link)
    → IsHeap h xs
    → 0 < want
    → Best h.mem want xs b link
    → let (p, h') = allocate_block link b want h in Placed h h' xs p want
allocate-Placed h xs want b link v pos best =
    let hi = h.heap_start + h.heap_size in
    let order = subst (λ l. Ordered h.heap_start l hi) best.cut v.order in
    let chain = subst (Chain h.mem h.first_free) best.cut v.chain in
    let (front, (_, some_bytes, back)) =
      Ordered-split h.heap_start hi best.before b best.size best.after order in
    let small : best.size < 2 ^ 64 =
      omega (arith, Ordered-bounds (b + best.size) hi best.after back, v.within) in
    let (result, taken) =
      allocate_block_lem h h.heap_start hi best.before best.after b best.size want v.start_pos pos
        best.fits small order chain in
    let (start, size) = taken.globals in
    rw best.linked (record {
      before = best.before;
      after = best.after;
      address = b;
      size = best.size;
      cut = best.cut;
      fits = best.fits;
      least = best.least;
      earliest = best.earliest;
      result = result;
      valid = record {
        chain = taken.chain;
        order = rw (start, size) taken.order;
        start_pos = rw start v.start_pos;
        within = rw (start, size) v.within;
      };
      header = taken.header;
      clear = taken.clear;
      others = λ x far. taken.others x (subst (Apart x) best.cut far);
      globals = taken.globals;
    })

-- Where no block is large enough the search finds none.
pub search-null :
    (h : Heap) (xs : Blocks) (want : ℕ)
    → IsHeap h xs
    → All (λ c. c.1 < want) xs
    → (link : Link) × (search_best (loop_fuel h) h.mem want null h.first_free null head
        ≡ done (null, link))
search-null h xs want v small =
    let ((b, link), run, found) =
      search_best_lem h.mem want (loop_fuel h) xs h.first_free v.chain (length-lt-loop_fuel v) in
    elim found [
      | inl (e, _) ↦ (link, run ∙ ap (λ z. done (z, link)) e)
      | inr best ↦ absurd (
          omega (
            arith,
            All-mid (λ c. c.1 < want) best.before (b, best.size) best.after
                (subst (All (λ c. c.1 < want)) best.cut small),
            best.fits,
          ))
    ]

-- The block that is large enough, where all but the last are too small.
pub cut_last :
    (want : ℕ) (x : ℕ × ℕ) (xs before : Blocks) (c : ℕ × ℕ) (after : Blocks)
    → All (λ b. b.1 < want) xs
    → want ≤ c.1
    → xs ++ x ∷ [] ≡ before ++ c ∷ after
    → c ≡ x
cut_last want x [] [] c after small fits e = cc
cut_last want x [] (b ∷ []) c after small fits e = cc
cut_last want x [] (b ∷ d ∷ before) c after small fits e = cc
cut_last want x (y ∷ ys) [] c after small fits e =
    let same : y ≡ c = cc in absurd (omega (arith, small.0, fits, ap (λ (z : ℕ × ℕ). z.1) same))
cut_last want x (y ∷ ys) (b ∷ before) c after small fits e =
    cut_last want x ys before c after small.1 fits (cc)

-- The heap after `sbrk` has been asked for the next region.
abbrev pub asked : Heap → Heap
asked h = record h { requests = sub64 (add64 h.heap_size heap_cap) h.sbrk_size ∷ h.requests }

module _ (sbrk : List ℕ → ℕ) (tries size : ℕ) (h : Heap) (xs : Blocks) (v : IsHeap h xs) where
  pub my_malloc-Placed :
      size + header_size ≤ heap_cap
      → ¬ All (λ c. c.1 < footprint size) xs
      → (r : ℕ × Heap) × (my_malloc sbrk (suc tries) size h ≡ done r)
        × Placed h r.1 xs r.0 (footprint size)
  unfolding my_malloc
  my_malloc-Placed fits some_fit =
      let (r, run, found) =
        search_best_lem h.mem (footprint size) (loop_fuel h) xs h.first_free v.chain
          (length-lt-loop_fuel v) in
      let (least, cap, _) = footprint_bounds size fits in
      elim found [
        | inl (_, small) ↦ absurd (some_fit small)
        | inr best ↦ (
          allocate_block r.1 r.0 (footprint size) h,
          rw (le→ltb heap_cap (footprint size) cap, run, ne→== r.0 null best.exists),
          allocate-Placed h xs (footprint size) r.0 r.1 v (omega arith) best,
        )
      ]

  -- `sbrk` fails: NULL is returned, and the free blocks stay.
  pub my_malloc-null :
      size + header_size ≤ heap_cap
      → All (λ c. c.1 < footprint size) xs
      → sbrk (asked h).requests ≡ null
      → my_malloc sbrk (suc tries) size h ≡ done (null, asked h)
  unfolding my_malloc alloc_heap
  my_malloc-null fits none_fit failed =
      let (link, run) = search-null h xs (footprint size) v none_fit in
      let (_, cap, _) = footprint_bounds size fits in
      rw (
        le→ltb heap_cap (footprint size) cap,
        run,
        ne→== h.heap_start null (λ e. omega (arith, v.start_pos)),
        failed,
      )

  -- `sbrk` gives the region: the heap has grown when `my_malloc` calls itself, with the size rounded up and
  -- with the header.
  pub my_malloc-again :
      size + header_size ≤ heap_cap
      → All (λ c. c.1 < footprint size) xs
      → sbrk (asked h).requests ≢ null
      → h.heap_start + h.heap_size + heap_cap ≤ obtained sbrk (asked h).requests
      → h.heap_start + h.heap_size + heap_cap < 2 ^ 64
      → (h1 : Heap) × Grown h h1 xs
        × (my_malloc sbrk (suc tries) size h ≡ my_malloc sbrk tries (footprint size) h1)
  unfolding my_malloc alloc_heap
  my_malloc-again fits none_fit got given room =
      let (link, run) = search-null h xs (footprint size) v none_fit in
      let (_, cap, _) = footprint_bounds size fits in
      let h0 = record (asked h) { sbrk_size = add64 h.sbrk_size (add64 h.heap_size heap_cap) } in
      let v0 : IsHeap h0 xs = record {
        chain = v.chain;
        order = v.order;
        start_pos = v.start_pos;
        within = v.within;
      } in
      let (h1, added, grown) = add_region-Grown sbrk h0 xs v0 given room in
      let started = ne→== h.heap_start null (λ e. omega (arith, v.start_pos)) in
      (
        h1,
        record {
          valid = grown.valid;
          start = grown.start;
          size = grown.size;
          others = grown.others;
        },
        rw (
          le→ltb heap_cap (footprint size) cap,
          run,
          started,
          ne→== (sbrk (asked h).requests) null got,
          started,
          added,
        ),
      )
