-- ===== src/Marked/Free.antt =====
-- `my_free` of savesolmalloc.c where some block is free, against the contract of BestFit.Free.
use sty_linux.Base.{
  ℕ, ◌+◌, ◌-◌, ◌≤◌, ◌<◌, ◌≡◌, ◌≢◌, refl, sym, ap, ◌∙◌, [], ◌∷◌, ◌++◌, append_assoc, arith, ne→==,
  lt→ltb, done,
}
use mathlib.Core.Path.{subst}
use sty_linux.Memory.{null, set_next}
use sty_linux.FreeList.{Blocks, Chain, Ordered, last_from}
use sty_linux.FreeList.Spans.{Ordered-split, Ordered-join, Ordered-bounds, Apart-split}
use sty_linux.FreeList.Segments.{Seg-split}
use sty_linux.FreeList.Release.{absorb, release, release-front, Disjoint, cut-Around}
use sty_linux.FreeList.ReleaseLaws.{release-Ordered}
use sty_linux.BestFit.{Heap, header_size, loop_fuel, insert_block, merge_blocks}
use sty_linux.BestFit.Merge.{
  first_of, snoc, merge_next, merge_next-Seg, merge_next-other, merge_blocks-other,
}
use sty_linux.BestFit.Free.{first_of_lem, Inserted, insert_block-Inserted, Released}
use sty_linux.BestFit.Valid.{IsHeap, length-lt-loop_fuel}
use sty_linux.Marked.{free_marked}
use sty_linux.Marked.Merge.{
  merge_marked-merge_blocks, merge_marked-merge_next, first_merge-Seg, second_merge-Seg,
}
use sty_linux.Marked.Insert.{
  first_of-below, find_before_lem, first_of-absorb, last_from-last, Apart-join, link_behind-merges,
  free_marked-behind,
}

module _ (h : Heap) (b : ℕ) where
  abbrev s : ℕ
  s = (h.mem b).size

  abbrev hi : ℕ
  hi = h.heap_start + h.heap_size

  -- A block in front of the list.
  at_front-Released :
      (c v : ℕ) (post : Blocks)
      → IsHeap h ((c, v) ∷ post)
      → h.heap_start ≤ b
      → 0 < s
      → Ordered (b + s) ((c, v) ∷ post) hi
      → Ordered h.heap_start (release b s ((c, v) ∷ post)) hi
      → (h' : Heap) × (free_marked (b + header_size) h ≡ done h') × Released h h' ((c, v) ∷ post) b
  unfolding free_marked insert_block
  at_front-Released c v post valid low some_bytes above order =
      let start = valid.start_pos in
      let inserted : Inserted h (insert_block b null c h) b s [] ((c, v) ∷ post) =
        insert_block-Inserted h b s h.heap_start hi [] ((c, v) ∷ post) start some_bytes low above
          refl valid.chain in
      let m1 = set_next h.mem b h.first_free in
      let m2 = merge_next m1 b c in
      let given = ne→== (b + header_size) null (λ e. omega arith) in
      let back : b + header_size - header_size ≡ b = omega arith in
      let before = lt→ltb b h.first_free (omega (arith, valid.chain.0)) in
      let next : (m1 b).next ≡ c = inserted.chain.3.0 in
      let merged = merge_marked-merge_next b c m1 (omega arith) next in
      (
        record h { mem = m2; first_free = b },
        rw (given, back, before, next, merged) refl,
        record {
          valid = record {
            chain = rw (release-front b s hi ((c, v) ∷ post) some_bytes above) (
                merge_next-Seg m1 b b s h.heap_start hi [] ((c, v) ∷ post) (low, some_bytes, above)
                  valid.within inserted.chain);
            order = order;
            start_pos = start;
            within = valid.within;
          };
          others = λ x far ne. merge_next-other m1 b c x ne ∙ inserted.others x tt ne;
          globals = (refl, refl);
        },
      )

  -- The block behind the last of some blocks, before the merges.
  insert_behind :
      (pre post : Blocks) (a t : ℕ)
      → IsHeap h (pre ++ (a, t) ∷ post)
      → a ≢ null
      → 0 < s
      → Ordered h.heap_start (pre ++ (a, t) ∷ []) b
      → Ordered (b + s) post hi
      → Inserted h
          (record h { mem = set_next (set_next h.mem a b) b (first_of post) })
          b
          s
          (pre ++ (a, t) ∷ [])
          post
  unfolding insert_block
  insert_behind pre post a t valid exists some_bytes below above =
      let pre' = pre ++ (a, t) ∷ [] in
      let h1 : Heap = record h { mem = set_next (set_next h.mem a b) b (first_of post) } in
      let at_last : insert_block b (last_from null pre') (first_of post) h ≡ h1 =
        rw (last_from-last a t pre, ne→== a null exists) refl in
      subst (λ z. Inserted h z b s pre' post) at_last
        (insert_block-Inserted h b s h.heap_start hi pre' post valid.start_pos some_bytes below
          above refl
          (subst (Chain h.mem h.first_free) (sym (append_assoc pre ((a, t) ∷ []) post))
            valid.chain))

  -- A block behind the block at `a`.
  behind-Released :
      (pre post : Blocks) (a t : ℕ)
      → IsHeap h (pre ++ (a, t) ∷ post)
      → 0 < s
      → Ordered h.heap_start (pre ++ (a, t) ∷ []) b
      → Ordered (b + s) post hi
      → Ordered h.heap_start (release b s (pre ++ (a, t) ∷ post)) hi
      → (h' : Heap) × (free_marked (b + header_size) h ≡ done h')
        × Released h h' (pre ++ (a, t) ∷ post) b
  behind-Released pre post a t valid some_bytes below above order =
      let lo = h.heap_start in
      let (low, here) = Ordered-split lo hi pre a t post valid.order in
      let (_, last) = Ordered-split lo b pre a t [] below in
      let start = valid.start_pos in
      let bound = Ordered-bounds lo a pre low in
      let exists : a ≢ null = λ e. omega arith in
      let inserted = insert_behind pre post a t valid exists some_bytes below above in
      let m2 = set_next (set_next h.mem a b) b (first_of post) in
      let regroup = append_assoc pre ((a, t) ∷ []) ((b, s) ∷ post) in
      let chain2 : Chain m2 h.first_free (pre ++ (a, t) ∷ (b, s) ∷ post) =
        subst (Chain m2 h.first_free) regroup inserted.chain in
      let order2 : Ordered lo (pre ++ (a, t) ∷ (b, s) ∷ post) hi =
        subst (λ l. Ordered lo l hi) regroup
          (Ordered-join lo b hi (pre ++ (a, t) ∷ []) ((b, s) ∷ post) below
            (omega arith, some_bytes, above)) in
      let m3 = merge_next m2 b (first_of post) in
      let m4 = merge_blocks a b m3 in
      let chain3 =
        first_merge-Seg m2 h.first_free b s a t lo hi pre post order2 start valid.within chain2 in
      let (_, _, tail2) = Seg-split m2 h.first_free null pre ((a, t) ∷ (b, s) ∷ post) chain2 in
      let (_, _, tail3) = Seg-split m3 h.first_free null pre ((a, t) ∷ absorb b s post) chain3 in
      let apart : a ≢ b = λ e. omega arith in
      let reached = first_of_lem h.mem h.first_free (pre ++ (a, t) ∷ post) valid.chain in
      let (under, _) = first_of-below lo b a t pre post start below in
      let (_, _, tail) = Seg-split h.mem h.first_free null pre ((a, t) ∷ post) valid.chain in
      let next : (h.mem a).next ≡ first_of post = first_of_lem h.mem (h.mem a).next post tail.3 in
      let next2 : (m2 b).next ≡ first_of post = first_of_lem m2 (m2 b).next post tail2.3.3 in
      let next3 : (m3 a).next ≡ b =
        first_of_lem m3 (m3 a).next (absorb b s post) tail3.3 ∙ first_of-absorb b s post in
      let first = merge_marked-merge_next b (first_of post) m2 (omega arith) next2 in
      let second = merge_marked-merge_blocks a b m3 next3 in
      let ends : free_marked (b + header_size) h ≡ done (record h { mem = m4 }) =
        free_marked-behind h b a m4 (omega arith) (omega (arith, reached, under))
          (find_before_lem (loop_fuel h) h.mem b s lo hi h.first_free a t pre post start below above
            valid.chain (length-lt-loop_fuel valid))
          (link_behind-merges h.mem m3 m4 b a (first_of post) apart next next2 first second) in
      (
        record h { mem = m4 },
        ends,
        record {
          valid = record {
            chain =
                second_merge-Seg m2 h.first_free b s a t lo hi pre post order2 start valid.within
                  chain2;
            order = order;
            start_pos = start;
            within = valid.within;
          };
          others = λ x far ne.
              let (far', far'') = Apart-split x pre ((a, t) ∷ post) far in
              merge_blocks-other m3 a b x (λ e. omega (arith, far''.0, here.1))
              ∙ merge_next-other m2 b (first_of post) x ne
              ∙ inserted.others x (Apart-join x pre ((a, t) ∷ []) far' (far''.0, tt)) ne;
          globals = (refl, refl);
        },
      )

  -- Wherever the block goes, if some block is free.
  cut-Released :
      (pre post : Blocks)
      → IsHeap h (pre ++ post)
      → h.first_free ≢ null
      → 0 < s
      → Ordered h.heap_start pre b
      → Ordered (b + s) post hi
      → Ordered h.heap_start (release b s (pre ++ post)) hi
      → (h' : Heap) × (free_marked (b + header_size) h ≡ done h') × Released h h' (pre ++ post) b
  cut-Released [] [] valid some_free some_bytes below above order = absurd (some_free valid.chain)
  cut-Released [] ((c, v) ∷ post) valid some_free some_bytes below above order =
      at_front-Released c v post valid below some_bytes above order
  cut-Released ((d, u) ∷ xs) post valid some_free some_bytes below above order =
      let (pre, (a, t), cut, _) = snoc d u xs in
      let whole : (d, u) ∷ (xs ++ post) ≡ pre ++ (a, t) ∷ post =
        ap (λ (l : Blocks). l ++ post) cut ∙ append_assoc pre ((a, t) ∷ []) post in
      subst (λ l. (h' : Heap) × (free_marked (b + header_size) h ≡ done h') × Released h h' l b)
        (sym whole)
        (behind-Released pre post a t (subst (IsHeap h) whole valid) some_bytes
          (subst (λ l. Ordered h.heap_start l b) cut below) above
          (subst (λ l. Ordered h.heap_start (release b s l) hi) whole order))

-- In a well-formed heap with at least one free block, my_free of savesolmalloc.c, of a block of the heap
-- that lies apart from the free blocks, returns with its assertions kept, and does what my_free of vika4
-- is to do: the block joins the free blocks that it touches, the heap stays well formed, and no other
-- header changes.
pub free_marked-Released :
    (h : Heap) (xs : Blocks) (b : ℕ)
    → IsHeap h xs
    → h.first_free ≢ null
    → h.heap_start ≤ b
    → 0 < (h.mem b).size
    → b + (h.mem b).size ≤ h.heap_start + h.heap_size
    → Disjoint b (h.mem b).size xs
    → (h' : Heap) × (free_marked (b + header_size) h ≡ done h') × Released h h' xs b
free_marked-Released h xs b v some_free low some_bytes high apart =
    let s = (h.mem b).size in
    let lo = h.heap_start in
    let hi = h.heap_start + h.heap_size in
    let around = cut-Around b s lo hi xs low high some_bytes v.order apart in
    let order = release-Ordered b s lo hi xs low high some_bytes v.order apart in
    subst (λ l. (h' : Heap) × (free_marked (b + header_size) h ≡ done h') × Released h h' l b)
      (sym around.cut)
      (cut-Released h b around.before around.after (subst (IsHeap h) around.cut v) some_free
        some_bytes around.below around.above
        (subst (λ l. Ordered lo (release b s l) hi) around.cut order))
