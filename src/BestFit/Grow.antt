-- ===== src/BestFit/Grow.antt =====
-- The growth of the heap in `my_malloc` of malloc.c: a new block behind the old end.
use sty_linux.Base.{
  ℕ, zero, suc, ◌+◌, ◌^◌, ◌<◌, ◌≡◌, ◌≢◌, refl, ap, ◌∙◌, inr, [], ◌∷◌, ◌++◌, arith, length, done,
  ne→==, lt→ltb, All, List, ◌≤◌, le→leb,
}
use sty_linux.Base.Words.{add64, add64_exact}
use sty_linux.Memory.{Block, block, null, put, set_next, put_self, put_other}
use sty_linux.FreeList.{Blocks, Seg, Ordered, Apart, last_from}
use sty_linux.FreeList.Spans.{Ordered-join, Ordered-Apart, Ordered-starts}
use sty_linux.FreeList.Segments.{Seg-join, Seg-put}
use sty_linux.BestFit.{
  Heap, heap_cap, Link, head, next_of, link_to, load_link, store_link, loop_fuel, insert_position,
  add_region, obtained,
}
use sty_linux.BestFit.Links.{store_link-Seg, store_link-other, store_link-frame, store_link-globals}
use sty_linux.BestFit.Valid.{IsHeap, length-lt-loop_fuel}

-- The pointer out of the last block.
link_after : Link → Blocks → Link
link_after pos [] = pos
link_after pos ((a, s) ∷ xs) = link_after (next_of a) xs

link_after-last :
    (a : ℕ) (hi s : ℕ) (xs : Blocks)
    → 0 < a
    → Ordered (a + s) xs hi
    → link_after (next_of a) xs ≡ link_to (last_from a xs)
unfolding link_after
link_after-last a hi s [] pos o = rw (ne→== a null (λ e. omega arith))
link_after-last a hi s ((b, t) ∷ xs) pos o = link_after-last b hi t xs (omega arith) o.2

link_after-head :
    (lo hi : ℕ) (xs : Blocks)
    → 0 < lo
    → Ordered lo xs hi
    → link_after head xs ≡ link_to (last_from null xs)
unfolding link_after
link_after-head lo hi [] pos o = refl
link_after-head lo hi ((a, s) ∷ xs) pos o = link_after-last a hi s xs (omega arith) o.2

load_link-after :
    (h : Heap) (pos : Link) (xs : Blocks)
    → Seg h.mem (load_link h pos) null xs
    → load_link h (link_after pos xs) ≡ null
unfolding link_after
load_link-after h pos [] seg = seg
load_link-after h pos ((a, s) ∷ xs) seg = load_link-after h (next_of a) xs seg.3

-- A block above all others goes to the end.
insert_position-after :
    (f : ℕ) (h : Heap) (pos : Link) (new : ℕ) (xs : Blocks)
    → Seg h.mem (load_link h pos) null xs
    → All (λ c. c.0 < new) xs
    → length xs < f
    → insert_position f h pos new ≡ done (link_after pos xs)
unfolding insert_position link_after
insert_position-after zero h pos new xs seg low fuel = absurd (omega arith)
insert_position-after (suc f) h pos new [] seg low fuel = rw seg
insert_position-after (suc f) h pos new ((a, s) ∷ xs) seg low fuel =
    rw (seg.0, ne→== a null seg.1, lt→ltb a new low.0)
      (insert_position-after f h (next_of a) new xs seg.3 low.1 (omega arith))

-- What `h'` is after the free blocks `xs` of `h` got a block of `heap_cap` bytes behind the heap.
pub record Grown (h h' : Heap) (xs : Blocks) : Type 0 where
  pub valid : IsHeap h' (xs ++ (h.heap_start + h.heap_size, heap_cap) ∷ [])
  pub start : h'.heap_start ≡ h.heap_start
  pub size : h'.heap_size ≡ h.heap_size + heap_cap
  pub others : (x : ℕ) → Apart x xs → x ≢ h.heap_start + h.heap_size → h'.mem x ≡ h.mem x

-- Where the block goes, and what is written.
pub add_region-last :
    (sbrk : List ℕ → ℕ) (h : Heap) (xs : Blocks)
    → IsHeap h xs
    → h.heap_start + h.heap_size + heap_cap ≤ obtained sbrk h.requests
    → let new = h.heap_start + h.heap_size in
      let m1 = put h.mem new (block heap_cap null) in
      let h2 = record h { heap_size = add64 h.heap_size heap_cap; mem = set_next m1 new null } in
      add_region sbrk h ≡ done (store_link h2 (link_to (last_from null xs)) new)
unfolding add_region
add_region-last sbrk h xs v given =
    let lo = h.heap_start in
    let new = h.heap_start + h.heap_size in
    let m1 = put h.mem new (block heap_cap null) in
    let h1 = record h { heap_size = add64 h.heap_size heap_cap; mem = m1 } in
    let out = Ordered-Apart new lo new xs v.order (inr (omega arith)) in
    let seg1 : Seg m1 h.first_free null xs =
      Seg-put h.mem new (block heap_cap null) h.first_free null lo new xs v.order out v.chain in
    let low : All (λ c. c.0 < new) xs = Ordered-starts lo new xs v.order in
    let link = link_to (last_from null xs) in
    let pos : insert_position (loop_fuel h) h1 head new ≡ done link =
      insert_position-after (loop_fuel h) h1 head new xs seg1 low (length-lt-loop_fuel v)
      ∙ ap done (link_after-head lo new xs v.start_pos v.order) in
    let at_end : load_link h1 link ≡ null =
      rw (← link_after-head lo new xs v.start_pos v.order) (load_link-after h1 head xs seg1) in
    rw (le→leb (new + heap_cap) (obtained sbrk h.requests) given, pos, at_end)

pub add_region-Grown :
    (sbrk : List ℕ → ℕ) (h : Heap) (xs : Blocks)
    → IsHeap h xs
    → h.heap_start + h.heap_size + heap_cap ≤ obtained sbrk h.requests
    → h.heap_start + h.heap_size + heap_cap < 2 ^ 64
    → (h' : Heap) × (add_region sbrk h ≡ done h') × Grown h h' xs
add_region-Grown sbrk h xs v given room =
    let lo = h.heap_start in
    let new = h.heap_start + h.heap_size in
    let m1 = put h.mem new (block heap_cap null) in
    let h1 = record h { heap_size = add64 h.heap_size heap_cap; mem = m1 } in
    let out = Ordered-Apart new lo new xs v.order (inr (omega arith)) in
    let seg1 : Seg m1 h.first_free null xs =
      Seg-put h.mem new (block heap_cap null) h.first_free null lo new xs v.order out v.chain in
    let link = link_to (last_from null xs) in
    let h2 = record h1 { mem = set_next m1 new null } in
    let h' = store_link h2 link new in
    let seg2 =
      Seg-put m1 new (block (m1 new).size null) h.first_free null lo new xs v.order out seg1 in
    let here : set_next m1 new null new ≡ block heap_cap null =
      put_self m1 new (block (m1 new).size null)
      ∙ ap (λ (b : Block). block b.size null) (put_self h.mem new (block heap_cap null)) in
    let tail2 : Seg h2.mem new null ((new, heap_cap) ∷ []) = (
      refl,
      (λ e. omega arith),
      ap (λ (b : Block). b.size) here,
      ap (λ (b : Block). b.next) here,
    ) in
    let tail_o : Ordered new ((new, heap_cap) ∷ []) (new + heap_cap) = omega arith in
    let front = store_link-Seg h2 lo new new v.start_pos null xs v.order seg2 in
    let tail =
      store_link-frame h2 lo new new v.start_pos xs v.order new null new (new + heap_cap)
        ((new, heap_cap) ∷ []) (omega arith) tail_o tail2 in
    let (start, size) = store_link-globals h2 link new in
    let size' : h'.heap_size ≡ h.heap_size + heap_cap =
      size ∙ add64_exact h.heap_size heap_cap (omega arith) in
    let end : h'.heap_start + h'.heap_size ≡ new + heap_cap = omega arith in
    (
      h',
      add_region-last sbrk h xs v given,
      record {
        valid = record {
          chain = Seg-join h'.mem h'.first_free new null xs ((new, heap_cap) ∷ []) front tail;
          order =
              rw (end, start)
                (Ordered-join lo new (new + heap_cap) xs ((new, heap_cap) ∷ []) v.order tail_o);
          start_pos = omega arith;
          within = omega arith;
        };
        start = start;
        size = size';
        others = λ x far ne.
            store_link-other h2 lo new new v.start_pos x xs v.order far
            ∙ put_other m1 new x (block (m1 new).size null) ne
            ∙ put_other h.mem new x (block heap_cap null) ne;
      },
    )
