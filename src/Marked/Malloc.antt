-- ===== src/Marked/Malloc.antt =====
-- `my_malloc` of savesolmalloc.c next to the one of vika4.
use sty_linux.Base.{ℕ, ◌+◌, ◌<◌, ◌≡◌, sym, arith, [], ◌∷◌, done, ne→==}
use mathlib.Core.Path.{subst}
use sty_linux.Memory.{block, null}
use sty_linux.FreeList.{Blocks, Ordered, Apart, last_from}
use sty_linux.FreeList.Segments.{Seg-put}
use sty_linux.FreeList.Spans.{Ordered-split, Ordered-bounds, last-lt}
use sty_linux.BestFit.{Heap, Link, link_to, header_size, allocate_block}
use sty_linux.BestFit.Search.{Best}
use sty_linux.BestFit.Valid.{IsHeap}
use sty_linux.Marked.{magic, allocate_marked}
use sty_linux.Marked.Allocate.{mark, Elsewhere, allocate_marked-allocate_block}

-- The link to a block stands in a block before it.
link-Elsewhere :
    (lo b n : ℕ) (before : Blocks)
    → 0 < lo
    → Ordered lo before b
    → Elsewhere (link_to (last_from null before)) b (b + n)
link-Elsewhere lo b n [] pos o = tt
link-Elsewhere lo b n ((a, s) ∷ before) pos o =
    let (low, below) = last-lt a s b before o.1 o.2 in
    rw (ne→== (last_from a before) null (λ e. omega arith)) ((λ e. omega arith), (λ e. omega arith))

pub allocate_block-result :
    (link : Link) (b n : ℕ) (h : Heap) → (allocate_block link b n h).0 ≡ b + header_size
unfolding allocate_block
allocate_block-result link b n h = ground arith

pub mark-IsHeap : (h : Heap) (b : ℕ) (ys : Blocks) → IsHeap h ys → Apart b ys → IsHeap (mark b h) ys
mark-IsHeap h b ys v clear = record {
  chain =
      Seg-put h.mem b (block (h.mem b).size magic) h.first_free null h.heap_start
        (h.heap_start + h.heap_size) ys v.order clear v.chain;
  order = v.order;
  start_pos = v.start_pos;
  within = v.within;
}

module _ (h : Heap) (xs : Blocks) (v : IsHeap h xs) where
  -- On a block that the search has found.
  pub Best-marked :
      (want b : ℕ) (link : Link)
      → 0 < want
      → Best h.mem want xs b link
      → let r = allocate_block link b want h in
        allocate_marked link b want h ≡ done (r.0, mark b r.1)
  Best-marked want b link some_bytes best =
      let hi = h.heap_start + h.heap_size in
      let (front, back) =
        Ordered-split h.heap_start hi best.before b best.size best.after
          (subst (λ l. Ordered h.heap_start l hi) best.cut v.order) in
      let low = Ordered-bounds h.heap_start b best.before front in
      let high = Ordered-bounds (b + best.size) hi best.after back.2 in
      let start = v.start_pos in
      allocate_marked-allocate_block link b want h some_bytes (omega arith)
        (omega (arith, best.sized, best.fits)) (omega (arith, best.sized))
        (subst (λ l. Elsewhere l b (b + want)) (sym best.linked)
          (link-Elsewhere h.heap_start b want best.before start front))
