-- ===== src/BestFit/Extend.antt =====
-- `my_malloc` of malloc.c where no free block is large enough and the heap grows.
use sty_linux.Base.{
  ℕ, suc, ◌+◌, ◌^◌, ◌≤◌, ◌<◌, ◌≡◌, ◌≢◌, ap, ◌∙◌, ◌⊎◌, inl, inr, List, [], ◌∷◌, ◌++◌, arith, done,
  lt→ltb, All, All-mono, All-mid, fault, leb, false, ne→==, le→ltb, lt→leb,
}
use mathlib.Core.Path.{subst}
use native.Mathlib.Decide.{dec_lt}
use sty_linux.Memory.{null}
use sty_linux.FreeList.{Blocks}
use sty_linux.BestFit.{Heap, heap_cap, header_size, my_malloc, alloc_heap, add_region, obtained}
use sty_linux.Base.Words.{add64, sub64}
use sty_linux.BestFit.Valid.{IsHeap, round_up_lem, obtained-more}
use sty_linux.BestFit.Grow.{Grown}
use sty_linux.BestFit.Malloc.{
  footprint, footprint_bounds, Placed, cut_last, asked, my_malloc-Placed, my_malloc-null,
  my_malloc-again, search-null,
}

-- The size of a call that already has its header is increased by a second one.
footprint_again :
    (size : ℕ)
    → size + header_size ≤ heap_cap
    → footprint (footprint size) ≡ footprint size + header_size
footprint_again size fits =
    let (_, cap, whole) = footprint_bounds size fits in
    omega (arith, round_up_lem (footprint size) (omega arith))

All-grow : (w w' : ℕ) (xs : Blocks) → w ≤ w' → All (λ c. c.1 < w) xs → All (λ c. c.1 < w') xs
All-grow w w' xs le = All-mono (λ c. c.1 < w) (λ c. c.1 < w') (λ c k. omega arith) xs

module _ (sbrk : List ℕ → ℕ) (tries size : ℕ) (h : Heap) (xs : Blocks) (v : IsHeap h xs)
    (fits : size + header_size ≤ heap_cap) (none_fit : All (λ c. c.1 < footprint size) xs)
    (got : sbrk (asked h).requests ≢ null)
    (given : h.heap_start + h.heap_size + heap_cap ≤ obtained sbrk (asked h).requests)
    (room : h.heap_start + h.heap_size + heap_cap < 2 ^ 64) where
  -- No free block is large enough, and `sbrk` gives the region: the block is at the start of the new
  -- region, and takes a header more than it needs.
  pub my_malloc-Grown :
      footprint size + header_size ≤ heap_cap
      → (r : ℕ × Heap) × (h1 : Heap) × (my_malloc sbrk (suc (suc tries)) size h ≡ done r)
        × Grown h h1 xs
        × Placed h1 r.1
            (xs ++ (h.heap_start + h.heap_size, heap_cap) ∷ [])
            r.0
            (footprint size + header_size)
        × (r.0 ≡ h.heap_start + h.heap_size + header_size)
  my_malloc-Grown twice =
      let new : ℕ × ℕ = (h.heap_start + h.heap_size, heap_cap) in
      let again = footprint_again size fits in
      let (h1, grown, call) =
        my_malloc-again sbrk (suc tries) size h xs v fits none_fit got given room in
      let some_fit : ¬ All (λ c. c.1 < footprint (footprint size)) (xs ++ new ∷ []) = λ small.
        absurd (
          omega (
            arith,
            All-mid (λ c. c.1 < footprint (footprint size)) xs new [] small,
            again,
            twice,
          )) in
      let (r, run, placed) =
        my_malloc-Placed sbrk tries (footprint size) h1 (xs ++ new ∷ []) grown.valid twice
          some_fit in
      let at_new : (placed.address, placed.size) ≡ new =
        cut_last (footprint (footprint size)) new xs placed.before (placed.address, placed.size)
          placed.after
          (All-grow (footprint size) (footprint (footprint size)) xs (omega (arith, again))
            none_fit)
          placed.fits placed.cut in
      (
        r,
        h1,
        call ∙ run,
        grown,
        subst (Placed h1 r.1 (xs ++ new ∷ []) r.0) again placed,
        placed.result ∙ ap (λ (z : ℕ × ℕ). z.0 + header_size) at_new,
      )

  -- A request that needs the whole region, but not its second header: the heap grows, and NULL is
  -- returned all the same.
  pub my_malloc-refused :
      heap_cap < footprint size + header_size
      → (h1 : Heap) × (my_malloc sbrk (suc (suc tries)) size h ≡ done (null, h1)) × Grown h h1 xs
  unfolding my_malloc
  my_malloc-refused whole =
      let again = footprint_again size fits in
      let (h1, grown, call) =
        my_malloc-again sbrk (suc tries) size h xs v fits none_fit got given room in
      (h1, call ∙ rw (again, lt→ltb heap_cap (footprint size + header_size) whole), grown)

-- Whether one of the blocks is large enough.
fits-cases : (w : ℕ) (xs : Blocks) → All (λ c. c.1 < w) xs ⊎ (¬ All (λ c. c.1 < w) xs)
fits-cases w [] = inl tt
fits-cases w (c ∷ xs) = elim (dec_lt c.1 w) [
  | no g ↦ inr (λ small. g small.0)
  | yes l ↦ elim (fits-cases w xs) [
    | inl small ↦ inl (l, small)
    | inr ne ↦ inr (λ small. ne small.1)
  ]
]

-- A request for more than a region gets NULL at once.
pub my_malloc-large :
    (sbrk : List ℕ → ℕ) (tries size : ℕ) (h : Heap)
    → heap_cap < size + header_size
    → size + 31 < 2 ^ 64
    → my_malloc sbrk (suc tries) size h ≡ done (null, h)
unfolding my_malloc
my_malloc-large sbrk tries size h large small =
    let over : heap_cap < footprint size = omega (arith, round_up_lem size (omega arith)) in
    rw (lt→ltb heap_cap (footprint size) over)

-- What the code asks for in a heap of the size that it has asked for so far.
asked-region :
    (h : Heap)
    → h.sbrk_size ≡ h.heap_size
    → h.heap_size + heap_cap < 2 ^ 64
    → (asked h).requests ≡ heap_cap ∷ h.requests
asked-region h same room =
    let increment : sub64 (add64 h.heap_size heap_cap) h.sbrk_size ≡ heap_cap = omega arith in
    ap (λ z. z ∷ h.requests) increment

module _ (sbrk : List ℕ → ℕ) (tries size : ℕ) (h : Heap) (xs : Blocks) (v : IsHeap h xs) where
  -- No free block is large enough.
  my_malloc-grows :
      size + header_size ≤ heap_cap
      → All (λ c. c.1 < footprint size) xs
      → h.heap_start + h.heap_size + heap_cap < 2 ^ 64
      → (sbrk (asked h).requests ≡ null)
        ⊎ ((sbrk (asked h).requests ≢ null)
            × (h.heap_start + h.heap_size + heap_cap ≤ obtained sbrk (asked h).requests))
      → (r : ℕ × Heap) × (ys : Blocks) × (my_malloc sbrk (suc (suc tries)) size h ≡ done r)
        × IsHeap r.1 ys
  my_malloc-grows fits none_fit room answer = elim answer [
    | inl failed ↦ (
      (null, asked h),
      xs,
      my_malloc-null sbrk (suc tries) size h xs v fits none_fit failed,
      record { chain = v.chain; order = v.order; start_pos = v.start_pos; within = v.within },
    )
    | inr (got, given) ↦ elim (dec_lt heap_cap (footprint size + header_size)) [
      | yes whole ↦
          let (h1, run, grown) =
            my_malloc-refused sbrk tries size h xs v fits none_fit got given room whole in
          ((null, h1), _, run, grown.valid)
      | no half ↦
          let (r, h1, run, grown, placed, _) =
            my_malloc-Grown sbrk tries size h xs v fits none_fit got given room (omega arith) in
          (r, _, run, placed.valid)
    ]
  ]

  -- In a well-formed heap of the size that allocHeap keeps, as before the first growth, with room for
  -- a region in the address space, where sbrk, asked for a region more, returns NULL or the end of the
  -- heap, two calls are enough for every request below 2^64 - 31, whether a block is found, the heap
  -- grows or NULL is returned, and leave a well-formed heap.
  pub my_malloc-IsHeap :
      size + 31 < 2 ^ 64
      → h.heap_start + h.heap_size + heap_cap < 2 ^ 64
      → h.sbrk_size ≡ h.heap_size
      → (sbrk (heap_cap ∷ h.requests) ≡ null)
        ⊎ (sbrk (heap_cap ∷ h.requests) ≡ h.heap_start + h.heap_size)
      → (r : ℕ × Heap) × (ys : Blocks) × (my_malloc sbrk (suc (suc tries)) size h ≡ done r)
        × IsHeap r.1 ys
  my_malloc-IsHeap small room first answer =
      let asks : (asked h).requests ≡ heap_cap ∷ h.requests = asked-region h first (omega arith) in
      let start = v.start_pos in
      let answers : (sbrk (asked h).requests ≡ null)
          ⊎ ((sbrk (asked h).requests ≢ null)
              × (h.heap_start + h.heap_size + heap_cap ≤ obtained sbrk (asked h).requests)) =
        rw asks (elim answer [
          | inl none ↦ inl none
          | inr end ↦ inr (
            (λ e. omega arith),
            omega (
              arith,
              obtained-more sbrk heap_cap h.requests (omega arith) (omega arith) (omega arith),
            ),
          )
        ]) in
      elim (dec_lt heap_cap (size + header_size)) [
        | yes large ↦ ((null, h), xs, my_malloc-large sbrk (suc tries) size h large small, v)
        | no ok ↦ elim (fits-cases (footprint size) xs) [
          | inr some_fit ↦
              let (r, run, placed) =
                my_malloc-Placed sbrk (suc tries) size h xs v (omega arith) some_fit in
              (r, _, run, placed.valid)
          | inl none_fit ↦ my_malloc-grows (omega arith) none_fit room answers
        ]
      ]

  -- In a well-formed heap that has grown once, where allocHeap keeps a region more than its size, with
  -- no free block that is large enough, my_malloc faults for every request that fits a region, where
  -- sbrk(0) returns the end of the heap: it asks for nothing, and writes the header of a new region
  -- there all the same.
  pub my_malloc-faults :
      size + header_size ≤ heap_cap
      → All (λ c. c.1 < footprint size) xs
      → h.heap_start + h.heap_size + heap_cap < 2 ^ 64
      → h.sbrk_size ≡ h.heap_size + heap_cap
      → sbrk (0 ∷ h.requests) ≡ h.heap_start + h.heap_size
      → my_malloc sbrk (suc tries) size h ≡ fault
  unfolding my_malloc alloc_heap add_region obtained
  my_malloc-faults fits none_fit room second end =
      let (link, run) = search-null h xs (footprint size) v none_fit in
      let (_, cap, _) = footprint_bounds size fits in
      let start = v.start_pos in
      let started = ne→== h.heap_start null (λ e. omega arith) in
      let new = h.heap_start + h.heap_size in
      let nothing : sub64 (add64 h.heap_size heap_cap) h.sbrk_size ≡ 0 = omega arith in
      let over : leb (new + heap_cap) (obtained sbrk (0 ∷ h.requests)) ≡ false =
        lt→leb (new + heap_cap) (obtained sbrk (0 ∷ h.requests)) (
          omega
            (arith, obtained-more sbrk 0 h.requests (omega arith) (omega arith) (omega arith))) in
      rw (
        le→ltb heap_cap (footprint size) cap,
        run,
        started,
        nothing,
        ne→== (sbrk (0 ∷ h.requests)) null (λ e. omega arith),
        started,
        over,
      )
