-- ===== src/BestFit/Free.antt =====
-- `my_free` of malloc.c: the block goes to its place in the list, and joins its neighbours.
use sty_linux.Base.{
  ℕ, ◌+◌, ◌-◌, ◌≤◌, ◌<◌, ◌≡◌, ◌≢◌, refl, sym, ap, ◌∙◌, inl, inr, [], ◌∷◌, ◌++◌, arith, length, done,
  false, ne→==, ◌==◌,
}
use mathlib.Core.Path.{subst}
use sty_linux.Memory.{Memory, Block, block, null, set_next, put_self, put_other}
use sty_linux.FreeList.{Blocks, Chain, Ordered, Apart, last_from}
use sty_linux.FreeList.Spans.{Ordered-join, Ordered-bounds, Ordered-Apart, Apart-split, last-lt}
use sty_linux.FreeList.Segments.{Seg-split, Seg-join, Seg-put}
use sty_linux.FreeList.Release.{release, Disjoint, cut-Around}
use sty_linux.FreeList.ReleaseLaws.{release-Ordered}
use sty_linux.BestFit.{
  Heap, header_size, link_to, store_link, loop_fuel, locate, insert_block, merge_around, my_free,
}
use sty_linux.BestFit.Links.{store_link-Seg, store_link-other, store_link-frame, store_link-globals}
use sty_linux.BestFit.Merge.{first_of, locate_lem, merge_around-Seg, merge_around-outside}
use sty_linux.BestFit.Valid.{IsHeap, length-lt-loop_fuel}

pub first_of_lem : (m : Memory) (r : ℕ) (xs : Blocks) → Chain m r xs → r ≡ first_of xs
first_of_lem m r [] h = h
first_of_lem m r ((a, s) ∷ xs) h = h.0

-- Insertion is a write through the pointer before, and one to the block.
insert_block-link :
    (h : Heap) (b lo hi : ℕ) (pre post : Blocks)
    → 0 < lo
    → Ordered lo pre hi
    → Chain h.mem h.first_free (pre ++ post)
    → let h1 = store_link h (link_to (last_from null pre)) b in
      insert_block b (last_from null pre) (first_of post) h
      ≡ record h1 { mem = set_next h1.mem b (first_of post) }
unfolding insert_block
insert_block-link h b lo hi [] post pos o chain =
    ap (λ (z : ℕ). let h0 : Heap = record h { mem = set_next h.mem b z; first_free = b } in h0)
      (first_of_lem h.mem h.first_free post chain)
insert_block-link h b lo hi ((a, t) ∷ xs) post pos o chain =
    rw (ne→== (last_from a xs) null (λ e. omega (arith, last-lt a t hi xs o.1 o.2)))

-- The list with the block at its place, before the merges.
pub record Inserted (h h1 : Heap) (b s : ℕ) (pre post : Blocks) : Type 0 where
  pub chain : Chain h1.mem h1.first_free (pre ++ (b, s) ∷ post)
  pub others : (x : ℕ) → Apart x pre → x ≢ b → h1.mem x ≡ h.mem x
  pub globals : (h1.heap_start ≡ h.heap_start) × (h1.heap_size ≡ h.heap_size)

pub insert_block-Inserted :
    (h : Heap) (b s lo hi : ℕ) (pre post : Blocks)
    → 0 < lo
    → 0 < s
    → Ordered lo pre b
    → Ordered (b + s) post hi
    → (h.mem b).size ≡ s
    → Chain h.mem h.first_free (pre ++ post)
    → Inserted h (insert_block b (last_from null pre) (first_of post) h) b s pre post
insert_block-Inserted h b s lo hi pre post pos some_bytes below above sized chain =
    let q = first_of post in
    let h1 = store_link h (link_to (last_from null pre)) b in
    let (r, front, back) = Seg-split h.mem h.first_free null pre post chain in
    let out = Ordered-Apart b lo b pre below (inr (omega arith)) in
    let front1 = store_link-Seg h lo b b pos r pre below front in
    let back1 =
      store_link-frame h lo b b pos pre below r null (b + s) hi post (omega arith) above back in
    let here = store_link-other h lo b b pos b pre below out in
    let header : set_next h1.mem b q b ≡ block s q =
      put_self h1.mem b (block (h1.mem b).size q)
      ∙ ap (λ z. block z q) (ap (λ (c : Block). c.size) here ∙ sized) in
    let beyond = Ordered-Apart b (b + s) hi post above (inl (omega arith)) in
    rw (insert_block-link h b lo b pre post pos below chain) (record {
      chain =
          Seg-join (set_next h1.mem b q) h1.first_free b null pre ((b, s) ∷ post)
            (Seg-put h1.mem b (block (h1.mem b).size q) h1.first_free b lo b pre below out front1)
            (
              refl,
              (λ e. omega (arith, Ordered-bounds lo b pre below)),
              ap (λ (c : Block). c.size) header,
              subst (λ z. Chain (set_next h1.mem b q) z post)
                  (first_of_lem h.mem r post back ∙ sym (ap (λ (c : Block). c.next) header))
                  (Seg-put h1.mem b (block (h1.mem b).size q) r null (b + s) hi post above beyond
                    back1),
            );
      others = λ x far ne.
          put_other h1.mem b x (block (h1.mem b).size q) ne
          ∙ store_link-other h lo b b pos x pre below far;
      globals = store_link-globals h (link_to (last_from null pre)) b;
    })

-- The heap `h'` after the block at `b` of `h` has been given back.
pub record Released (h h' : Heap) (xs : Blocks) (b : ℕ) : Type 0 where
  pub valid : IsHeap h' (release b (h.mem b).size xs)
  pub others : (x : ℕ) → Apart x xs → x ≢ b → h'.mem x ≡ h.mem x
  pub globals : (h'.heap_start ≡ h.heap_start) × (h'.heap_size ≡ h.heap_size)

-- my_free of a block of a well-formed heap that is apart from all free blocks ends, and leaves a well-
-- formed heap whose free list is the old one with the block given back at its place and joined with the
-- free blocks that it touches; headers elsewhere stay.
pub my_free-Released :
    (h : Heap) (xs : Blocks) (b : ℕ)
    → IsHeap h xs
    → h.heap_start ≤ b
    → 0 < (h.mem b).size
    → b + (h.mem b).size ≤ h.heap_start + h.heap_size
    → Disjoint b (h.mem b).size xs
    → (h' : Heap) × (my_free (b + header_size) h ≡ done h') × Released h h' xs b
unfolding my_free
my_free-Released h xs b v low some_bytes high apart =
    let s = (h.mem b).size in
    let lo = h.heap_start in
    let hi = h.heap_start + h.heap_size in
    let around = cut-Around b s lo hi xs low high some_bytes v.order apart in
    let pre = around.before in
    let post = around.after in
    let chain = subst (Chain h.mem h.first_free) around.cut v.chain in
    let fuel = subst (λ (l : Blocks). length l < loop_fuel h) around.cut (length-lt-loop_fuel v) in
    let found : locate (loop_fuel h) h.mem b null h.first_free
        ≡ done (last_from null pre, first_of post) =
      locate_lem (loop_fuel h) h.mem b s lo hi null h.first_free pre post around.below around.above
        chain fuel in
    let h1 = insert_block b (last_from null pre) (first_of post) h in
    let inserted =
      insert_block-Inserted h b s lo hi pre post v.start_pos some_bytes around.below around.above
        refl chain in
    let order1 : Ordered lo (pre ++ (b, s) ∷ post) hi =
      Ordered-join lo b hi pre ((b, s) ∷ post) around.below
        (omega arith, some_bytes, around.above) in
    let (start, size) = inserted.globals in
    let merged =
      merge_around-Seg h1.mem h1.first_free b s lo hi pre post order1 v.start_pos v.within
        inserted.chain in
    let back : b + header_size - header_size ≡ b = omega arith in
    let address : (b + header_size == null) ≡ false =
      ne→== (b + header_size) null (λ e. omega arith) in
    let m2 = merge_around b (last_from null pre) (first_of post) h1.mem in
    (
      record h1 { mem = m2 },
      rw (address, back, found),
      record {
        valid = record {
          chain = subst (λ l. Chain m2 h1.first_free (release b s l)) (sym around.cut) merged;
          order = rw (start, size) (release-Ordered b s lo hi xs low high some_bytes v.order apart);
          start_pos = rw start v.start_pos;
          within = rw (start, size) v.within;
        };
        others = λ x far ne.
            let (far', _) = Apart-split x pre post (subst (Apart x) around.cut far) in
            merge_around-outside h1.mem b x (first_of post) lo b pre around.below far' ne
            ∙ inserted.others x far' ne;
        globals = inserted.globals;
      },
    )

-- Freeing NULL changes nothing.
pub my_free-null : (h : Heap) → my_free null h ≡ done h
unfolding my_free
my_free-null h = refl
