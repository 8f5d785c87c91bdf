-- ===== src/Marked/Extend.antt =====
-- `my_malloc` of savesolmalloc.c where no free block is large enough and the heap grows.
use sty_linux.Base.{
  ℕ, zero, suc, ◌+◌, ◌-◌, ◌^◌, ◌%◌, ◌<◌, ◌≤◌, ◌≡◌, refl, sym, ap, ◌∙◌, inl, arith, ◌==◌, ltb, leb,
  if◌then◌else◌, ◌&&◌, ◌||◌, List, [], ◌∷◌, ◌++◌, All, length, done, ◌>>=◌, ne→==, le→ltb,
  done-injective, ==_self, Bool-cases, inr, le→leb,
}
use mathlib.Core.Path.{fun_ext}
use native.Mathlib.Nat.{add_comm}
use sty_linux.Base.Words.{add64, sub64}
use sty_linux.Memory.{Memory, block, null, put, set_next}
use sty_linux.FreeList.{Blocks, Seg, last_from}
use sty_linux.FreeList.Segments.{Seg-split}
use sty_linux.BestFit.{
  Heap, Link, head, next_of, link_to, loop_fuel, round_up, header_size, heap_cap, store_link,
  allocate_block, split_block, obtained,
}
use sty_linux.BestFit.Grow.{Grown, add_region-Grown, add_region-last}
use sty_linux.BestFit.Malloc.{footprint, search-null}
use sty_linux.BestFit.Search.{Best}
use sty_linux.BestFit.Valid.{IsHeap, length-lt-loop_fuel, obtained-more}
use sty_linux.BestFit.Allocate.{carve, allocate_block_lem}
use sty_linux.Marked.{search_smallest, allocate_marked, append_region, malloc_marked, enlarge_heap}
use sty_linux.Marked.Allocate.{mark}
use sty_linux.Marked.Malloc.{Best-marked, mark-IsHeap}
use sty_linux.Marked.Search.{found_of, search_smallest-search_best, link_to-next}

-- The loop ends with the link behind the last block.
search_smallest-last :
    (f : ℕ) (m : Memory) (want : ℕ) (xs : Blocks) (prev current size best : ℕ) (link : Link)
    → Seg m current null xs
    → length xs < f
    → (r : ℕ × Link) × (search_smallest f m want (link_to prev) current size best link
        ≡ done (r.0, r.1, link_to (last_from prev xs)))
unfolding search_smallest
search_smallest-last zero m want xs prev current size best link seg fuel = absurd (omega arith)
search_smallest-last (suc f) m want [] prev current size best link seg fuel =
    ((best, link), rw seg refl)
search_smallest-last (suc f) m want ((a, s) ∷ xs) prev current size best link seg fuel =
    let found = leb want (m a).size && (best == null || ltb (m a).size size) in
    let (r, run) =
      search_smallest-last f m want xs a (m a).next (if found then (m a).size else size)
        (if found then a else best) (if found then link_to prev else link) seg.3 (omega arith) in
    (r, rw (seg.0, ne→== a null seg.1, ← link_to-next m want a seg.1) run)

-- A header behind the heap, which the link leads to.
abbrev stored : Heap → Link → Memory → Heap
stored h link m =
    store_link (record h { heap_size = add64 h.heap_size heap_cap; mem = m }) link
      (h.heap_start + h.heap_size)

append_region-stored :
    (link : Link) (h : Heap)
    → append_region link h
      ≡ stored h link (put h.mem (h.heap_start + h.heap_size) (block heap_cap null))
append_region-stored head h = refl
append_region-stored (next_of p) h = refl

put-twice :
    (m : Memory) (new : ℕ)
    → put m new (block heap_cap null) ≡ set_next (put m new (block heap_cap null)) new null
put-twice m new = fun_ext (λ x. ground (arith, ==_self new))

-- The new region is the block to take: no other is large enough.
Grown-Best :
    (h h' : Heap) (xs : Blocks) (want : ℕ)
    → All (λ c. c.1 < want) xs
    → want ≤ heap_cap
    → Grown h h' xs
    → Best h'.mem want
        (xs ++ (h.heap_start + h.heap_size, heap_cap) ∷ [])
        (h.heap_start + h.heap_size)
        (link_to (last_from null xs))
Grown-Best h h' xs want small fits g =
    let new = h.heap_start + h.heap_size in
    let (_, _, last) =
      Seg-split h'.mem h'.first_free null xs ((new, heap_cap) ∷ []) g.valid.chain in
    record {
      before = xs;
      after = [];
      size = heap_cap;
      cut = refl;
      exists = last.1;
      sized = last.2;
      fits = fits;
      least = none_fits xs small;
      earliest = too_small xs small;
      linked = refl;
    }
  where
    none_fits :
        (ys : Blocks)
        → All (λ c. c.1 < want) ys
        → All (λ c. want ≤ c.1 → heap_cap ≤ c.1) (ys ++ (h.heap_start + h.heap_size, heap_cap) ∷ [])
    none_fits [] s = ((λ z. omega arith), tt)
    none_fits (y ∷ ys) s = ((λ z. absurd (omega (arith, s.0))), none_fits ys s.1)

    too_small : (ys : Blocks) → All (λ c. c.1 < want) ys → All (λ c. want ≤ c.1 → heap_cap < c.1) ys
    too_small [] s = tt
    too_small (y ∷ ys) s = ((λ z. absurd (omega (arith, s.0))), too_small ys s.1)

-- What `sbrk` was asked for, which an allocation does not change.
abbrev kept_of : Heap → ℕ × List ℕ
kept_of h = (h.sbrk_size, h.requests)

kept-store_link : (h : Heap) (link : Link) (q : ℕ) → kept_of (store_link h link q) ≡ kept_of h
kept-store_link h head q = refl
kept-store_link h (next_of p) q = refl

kept-split_block : (link : Link) (b n : ℕ) (h : Heap) → kept_of (split_block link b n h) ≡ kept_of h
unfolding split_block
kept-split_block head b n h = refl
kept-split_block (next_of p) b n h = refl

kept-allocate_block :
    (link : Link) (b n : ℕ) (h : Heap) → kept_of (allocate_block link b n h).1 ≡ kept_of h
unfolding allocate_block
kept-allocate_block link b n h = elim (Bool-cases ((h.mem b).size == n)) [
  | inl e ↦ rw e (kept-store_link h link (h.mem b).next)
  | inr e ↦ rw e (kept-split_block link b n h)
]

-- The new region, and the block at its start.
region-taken :
    (sbrk : List ℕ → ℕ) (h : Heap) (xs : Blocks) (want : ℕ)
    → IsHeap h xs
    → All (λ c. c.1 < want) xs
    → h.heap_start + h.heap_size + heap_cap ≤ obtained sbrk h.requests
    → h.heap_start + h.heap_size + heap_cap < 2 ^ 64
    → 0 < want
    → want ≤ heap_cap
    → let new = h.heap_start + h.heap_size in
      let last = link_to (last_from null xs) in
      (h' : Heap) × (allocate_marked last new want (append_region last h)
        ≡ done (new + header_size, h'))
      × IsHeap h' (xs ++ (carve new heap_cap want ++ []))
      × (h'.heap_size ≡ h.heap_size + heap_cap)
      × (kept_of h' ≡ kept_of h)
region-taken sbrk h xs want v small given room some_bytes fits =
    let new = h.heap_start + h.heap_size in
    let last = link_to (last_from null xs) in
    let (g, run, grown) = add_region-Grown sbrk h xs v given room in
    let same : append_region last h ≡ g =
      append_region-stored last h
      ∙ ap (stored h last) (put-twice h.mem new)
      ∙ done-injective _ g (sym (add_region-last sbrk h xs v given) ∙ run) in
    let best = Grown-Best h g xs want small fits grown in
    let r = allocate_block last new want g in
    let hi = g.heap_start + g.heap_size in
    let (result, taken) =
      allocate_block_lem g g.heap_start hi xs [] new heap_cap want grown.valid.start_pos some_bytes
        fits (omega arith) grown.valid.order grown.valid.chain in
    let (start, size) = taken.globals in
    let valid : IsHeap r.1 (xs ++ (carve new heap_cap want ++ [])) = record {
      chain = taken.chain;
      order = rw (start, size) taken.order;
      start_pos = rw start grown.valid.start_pos;
      within = rw (start, size) grown.valid.within;
    } in
    (
      mark new r.1,
      ap (allocate_marked last new want) same
          ∙ Best-marked g (xs ++ (new, heap_cap) ∷ []) grown.valid want new last some_bytes best
          ∙ ap (λ (z : ℕ). done (z, mark new r.1)) result,
      mark-IsHeap r.1 new _ valid taken.clear,
      size ∙ grown.size,
      kept-allocate_block last new want g
          ∙ ap kept_of (sym same)
          ∙ kept-store_link (record h { mem = put h.mem new (block heap_cap null) }) last new,
    )

module _ (h : Heap) (xs : Blocks) (v : IsHeap h xs) where
  -- The search for a block, when there is none.
  search_smallest-none :
      (want : ℕ)
      → All (λ c. c.1 < want) xs
      → (link : Link) × (search_smallest (loop_fuel h) h.mem want head h.first_free 0 null head
          ≡ done (null, link, link_to (last_from null xs)))
  search_smallest-none want small =
      let ((best, link), run) =
        search_smallest-last (loop_fuel h) h.mem want xs null h.first_free 0 null head v.chain
          (length-lt-loop_fuel v) in
      let (l, found) = search-null h xs want v small in
      let same : done (best, link) ≡ done (null, l) =
        ap (λ z. z >>= found_of) (sym run)
        ∙ search_smallest-search_best h.mem want (loop_fuel h) null h.first_free 0 null head
            (inl refl)
        ∙ found in
      let nothing : best ≡ null =
        ap (λ (z : ℕ × Link). z.0) (done-injective (best, link) (null, l) same) in
      (link, run ∙ ap (λ (z : ℕ). done (z, link, link_to (last_from null xs))) nothing)

  -- The code on the way to the new region.
  grows :
      (sbrk : List ℕ → ℕ) (size : ℕ) (link last : Link) (asked h' : Heap)
      → add64 (round_up size) header_size ≡ footprint size
      → search_smallest (loop_fuel h) h.mem (footprint size) head h.first_free 0 null head
        ≡ done (null, link, last)
      → enlarge_heap sbrk h.heap_start (add64 h.heap_size heap_cap) h ≡ (h.heap_start, asked)
      → footprint size + header_size ≤ heap_cap
      → asked.heap_start + asked.heap_size + heap_cap ≤ obtained sbrk asked.requests
      → allocate_marked last
          (asked.heap_start + asked.heap_size)
          (footprint size)
          (append_region last asked)
        ≡ done (h.heap_start + h.heap_size + header_size, h')
      → malloc_marked sbrk size h ≡ done (h.heap_start + h.heap_size + header_size, h')
  unfolding malloc_marked
  grows sbrk size link last asked h' wanted searched enlarged fits given taken =
      rw
        (
          wanted,
          searched,
          le→ltb (heap_cap - header_size) (footprint size) (omega arith),
          enlarged,
          ne→== h.heap_start null (λ e. omega (arith, v.start_pos)),
          le→leb (asked.heap_start + asked.heap_size + heap_cap) (obtained sbrk asked.requests)
              given,
        )
        taken

  -- If no free block is large enough, sbrk was asked for the bytes of the heap so far and, asked for a region more,
  -- returns the end of the heap, the bytes of the request and its header do not wrap around to 0 and leave room for
  -- one header more in a region, and the address space has room for a region, my_malloc of savesolmalloc.c asks for a
  -- region and returns the block at its start, with one header; the heap stays well formed, the rest of the region is
  -- free behind all other free blocks, the heap ends where the memory from sbrk does, and sbrk was asked for the bytes
  -- of the heap again.
  pub malloc_marked-Grown :
      (sbrk : List ℕ → ℕ) (size : ℕ)
      → h.sbrk_size ≡ h.heap_size
      → sbrk (heap_cap ∷ h.requests) ≡ h.heap_start + h.heap_size
      → All (λ c. c.1 < footprint size) xs
      → 0 < footprint size
      → footprint size + header_size ≤ heap_cap
      → h.heap_start + h.heap_size + heap_cap < 2 ^ 64
      → let new = h.heap_start + h.heap_size in
        (h' : Heap) × (malloc_marked sbrk size h ≡ done (new + header_size, h'))
        × IsHeap h' (xs ++ (carve new heap_cap (footprint size) ++ []))
        × (h'.heap_size ≡ h.heap_size + heap_cap)
        × (h'.sbrk_size ≡ h'.heap_size)
        × (obtained sbrk h'.requests ≡ new + heap_cap)
  unfolding enlarge_heap
  malloc_marked-Grown sbrk size whole end small some_bytes fits room =
      let want = footprint size in
      let new = h.heap_start + h.heap_size in
      let start = v.start_pos in
      let last = link_to (last_from null xs) in
      let wanted : add64 (round_up size) header_size ≡ want =
        ap (λ z. z % 2 ^ 64) (add_comm (round_up size) header_size) in
      let total : add64 h.heap_size heap_cap ≡ h.heap_size + heap_cap = omega arith in
      let increment : sub64 (h.heap_size + heap_cap) h.sbrk_size ≡ heap_cap = omega arith in
      let request = heap_cap ∷ h.requests in
      let asked : Heap = record h { requests = request; sbrk_size = h.heap_size + heap_cap } in
      let more : obtained sbrk request ≡ new + heap_cap =
        obtained-more sbrk heap_cap h.requests (omega arith) (omega arith) (omega arith)
        ∙ ap (λ z. z + heap_cap) end in
      let (link, searched) = search_smallest-none want small in
      let asked-IsHeap : IsHeap asked xs = record {
        chain = v.chain;
        order = v.order;
        start_pos = v.start_pos;
        within = v.within;
      } in
      let (h', taken, valid, grown, kept) =
        region-taken sbrk asked xs want asked-IsHeap small (omega (arith, more)) room some_bytes
          (omega arith) in
      let enlarged : enlarge_heap sbrk h.heap_start (add64 h.heap_size heap_cap) h
          ≡ (h.heap_start, asked) =
        rw
          (
            total,
            increment,
            ne→== h.heap_start null (λ e. omega arith),
            ne→== (sbrk request) null (λ e. omega arith),
          )
          refl in
      (
        h',
        grows sbrk size link last asked h' wanted searched enlarged (omega arith)
            (omega (arith, more)) taken,
        valid,
        grown,
        ap (λ (z : ℕ × List ℕ). z.0) kept ∙ sym grown,
        ap (λ (z : ℕ × List ℕ). obtained sbrk z.1) kept ∙ more,
      )
