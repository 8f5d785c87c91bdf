-- ===== src/BestFit/Allocate.antt =====
-- `allocate_block` of malloc.c: the free block is removed, or its end stays free.
use sty_linux.Base.{
  ℕ, ◌+◌, ◌-◌, ◌≤◌, ◌<◌, ◌^◌, ◌≡◌, ◌≢◌, refl, sym, ap, ◌∙◌, ◌⊎◌, inl, inr, [], ◌∷◌, ◌++◌, arith,
  ◌==◌, if◌then◌else◌, true, false, ==→eq, ==→ne, Bool-cases, All-append,
}
use mathlib.Core.Path.{subst}
use native.Mathlib.Decide.{dec_lt}
use sty_linux.Base.Words.{sub64, sub64_exact}
use sty_linux.Memory.{Memory, Block, block, null, set_next, set_size, put_self, put_other}
use sty_linux.FreeList.{Blocks, Seg, Chain, Ordered, Apart, last_from}
use sty_linux.FreeList.Spans.{
  Ordered-split, Ordered-join, Ordered-lower, Ordered-Apart, Apart-split,
}
use sty_linux.FreeList.Segments.{Seg-split, Seg-join, Seg-put}
use sty_linux.BestFit.{Heap, header_size, link_to, store_link, split_block, allocate_block}
use sty_linux.BestFit.Links.{store_link-Seg, store_link-other, store_link-frame, store_link-globals}

-- What is left of the block of `s` bytes at `a` when `n` of them are handed out.
abbrev pub carve : ℕ → ℕ → ℕ → Blocks
carve a s n = if s == n then [] else (a + n, s - n) ∷ []

-- Of a heap `h` with the free blocks `xs`, ordered in `[lo, hi)`, the block at `a` has become an
-- allocated one of `n` bytes, and the free blocks are now `ys`.
pub record Taken (h h' : Heap) (lo hi : ℕ) (xs ys : Blocks) (a n : ℕ) : Type 0 where
  pub chain : Chain h'.mem h'.first_free ys
  pub order : Ordered lo ys hi
  pub header : h'.mem a ≡ block n null
  pub clear : Apart a ys
  pub others : (x : ℕ) → Apart x xs → h'.mem x ≡ h.mem x
  pub globals : (h'.heap_start ≡ h.heap_start) × (h'.heap_size ≡ h.heap_size)

module _ (h : Heap) (lo hi : ℕ) (pre post : Blocks) (a s n : ℕ) (pos : 0 < lo) (some_bytes : 0 < n)
    (order : Ordered lo (pre ++ (a, s) ∷ post) hi)
    (chain : Chain h.mem h.first_free (pre ++ (a, s) ∷ post)) where
  pre_order : Ordered lo pre a
  pre_order = (Ordered-split lo hi pre a s post order).0

  post_order : (a ≤ a) × (0 < s) × Ordered (a + s) post hi
  post_order = (Ordered-split lo hi pre a s post order).1

  parts :
      Seg h.mem h.first_free a pre
      × (a ≢ null)
      × ((h.mem a).size ≡ s)
      × Chain h.mem (h.mem a).next post
  parts =
      let (r, l, k) = Seg-split h.mem h.first_free null pre ((a, s) ∷ post) chain in
      (subst (λ t. Seg h.mem h.first_free t pre) k.0 l, k.1, k.2, k.3)

  -- The address of the block is apart from the blocks around it.
  clear_around : (low : ℕ) (ys : Blocks) → a < low → Ordered low ys hi → Apart a (pre ++ ys)
  clear_around low ys lt k =
      All-append (λ b. (a < b.0) ⊎ (b.0 + b.1 ≤ a)) pre ys
        (Ordered-Apart a lo a pre pre_order (inr (omega arith)))
        (Ordered-Apart a low hi ys k (inl lt))

  -- An exact fit.
  remove_lem :
      s ≡ n
      → let h1 = store_link h (link_to (last_from null pre)) (h.mem a).next in
        Taken h
          (record h1 { mem = set_next h1.mem a null })
          lo
          hi
          (pre ++ (a, s) ∷ post)
          (pre ++ post)
          a
          n
  remove_lem e =
      let q = (h.mem a).next in
      let h1 = store_link h (link_to (last_from null pre)) q in
      let rest_order : Ordered (a + s) post hi = post_order.2 in
      let order' =
        Ordered-join lo a hi pre post pre_order
          (Ordered-lower (a + s) a hi post (omega arith) rest_order) in
      let clear = clear_around (a + s) post (omega arith) rest_order in
      let front = store_link-Seg h lo a q pos a pre pre_order parts.0 in
      let back =
        store_link-frame h lo a q pos pre pre_order q null (a + s) hi post (omega arith) rest_order
          parts.3 in
      let here =
        store_link-other h lo a q pos a pre pre_order
          (Ordered-Apart a lo a pre pre_order (inr (omega arith))) in
      record {
        chain =
            Seg-put h1.mem a (block (h1.mem a).size null) h1.first_free null lo hi (pre ++ post)
              order' clear (Seg-join h1.mem h1.first_free q null pre post front back);
        order = order';
        header =
            put_self h1.mem a (block (h1.mem a).size null)
            ∙ ap (λ z. block z null) (ap (λ b. b.size) here ∙ parts.2 ∙ e);
        clear = clear;
        others = λ x out.
            let (l, r) = Apart-split x pre ((a, s) ∷ post) out in
            put_other h1.mem a x (block (h1.mem a).size null) (λ eq. omega arith)
            ∙ store_link-other h lo a q pos x pre pre_order l;
        globals = store_link-globals h (link_to (last_from null pre)) q;
      }

-- `size` and `next` of one header written in turn.
pub put_twice : (m : Memory) (p t q : ℕ) → set_next (set_size m p t) p q p ≡ block t q
put_twice m p t q =
    put_self (set_size m p t) p (block (set_size m p t p).size q)
    ∙ ap (λ (b : Block). block b.size q) (put_self m p (block t (m p).next))

pub put_twice_other : (m : Memory) (p t q x : ℕ) → x ≢ p → set_next (set_size m p t) p q x ≡ m x
put_twice_other m p t q x ne =
    put_other (set_size m p t) p x (block (set_size m p t p).size q) ne
    ∙ put_other m p x (block t (m p).next) ne

pub put_twice-Seg :
    (m : Memory) (x t v p q lo hi : ℕ) (xs : Blocks)
    → Ordered lo xs hi
    → Apart x xs
    → Seg m p q xs
    → Seg (set_next (set_size m x t) x v) p q xs
put_twice-Seg m x t v p q lo hi xs o out seg =
    Seg-put (set_size m x t) x (block (set_size m x t x).size v) p q lo hi xs o out
      (Seg-put m x (block t (m x).next) p q lo hi xs o out seg)

module _ (h : Heap) (lo hi : ℕ) (pre post : Blocks) (a s n : ℕ) (pos : 0 < lo) (some_bytes : 0 < n)
    (order : Ordered lo (pre ++ (a, s) ∷ post) hi)
    (chain : Chain h.mem h.first_free (pre ++ (a, s) ∷ post)) where
  -- The block is larger than asked: its end stays free.
  split_lem :
      n < s
      → s < 2 ^ 64
      → let h1 = split_block (link_to (last_from null pre)) a n h in
        Taken h
          (record h1 { mem = set_next h1.mem a null })
          lo
          hi
          (pre ++ (a, s) ∷ post)
          (pre ++ (a + n, s - n) ∷ post)
          a
          n
  unfolding split_block
  split_lem lt small =
      let (pre_o, (_, s_pos, post_o)) = Ordered-split lo hi pre a s post order in
      let (front, exists, sized, back) = parts h lo hi pre post a s n pos some_bytes order chain in
      let rest = a + n in
      let m1 = set_size h.mem rest (sub64 (h.mem a).size n) in
      let m2 = set_next m1 rest (m1 a).next in
      let h2 = record h { mem = m2 } in
      let link = link_to (last_from null pre) in
      let h3 = store_link h2 link rest in
      let kept : (m1 a).next ≡ (h.mem a).next =
        ap (λ (b : Block). b.next)
          (put_other h.mem rest a (block (sub64 (h.mem a).size n) (h.mem rest).next)
            (omega arith)) in
      let size_left : sub64 (h.mem a).size n ≡ s - n =
        rw sized (sub64_exact s n (omega arith) small) in
      let rest_header : m2 rest ≡ block (s - n) (h.mem a).next =
        put_twice h.mem rest (sub64 (h.mem a).size n) (m1 a).next
        ∙ (λ i. block (size_left i) (kept i)) in
      let tail_o : Ordered a ((rest, s - n) ∷ post) hi =
        (omega arith, omega arith, subst (λ t. Ordered t post hi) (omega arith) post_o) in
      let order' = Ordered-join lo a hi pre ((rest, s - n) ∷ post) pre_o tail_o in
      let beyond = Ordered-Apart rest (a + s) hi post post_o (inl (omega arith)) in
      let below = Ordered-Apart rest lo a pre pre_o (inr (omega arith)) in
      let front2 =
        put_twice-Seg h.mem rest (sub64 (h.mem a).size n) (m1 a).next h.first_free a lo a pre pre_o
          below front in
      let back2 =
        put_twice-Seg h.mem rest (sub64 (h.mem a).size n) (m1 a).next (h.mem a).next null (a + s) hi
          post post_o beyond back in
      let tail2 : Seg m2 rest null ((rest, s - n) ∷ post) = (
        refl,
        (λ e. omega arith),
        ap (λ (b : Block). b.size) rest_header,
        subst (λ t. Seg m2 t null post) (sym (ap (λ (b : Block). b.next) rest_header)) back2,
      ) in
      let front3 = store_link-Seg h2 lo a rest pos a pre pre_o front2 in
      let tail3 =
        store_link-frame h2 lo a rest pos pre pre_o rest null a hi ((rest, s - n) ∷ post)
          (omega arith) tail_o tail2 in
      let clear : Apart a (pre ++ (rest, s - n) ∷ post) =
        All-append (λ b. (a < b.0) ⊎ (b.0 + b.1 ≤ a)) pre ((rest, s - n) ∷ post)
          (Ordered-Apart a lo a pre pre_o (inr (omega arith)))
          (inl (omega arith), Ordered-Apart a (a + s) hi post post_o (inl (omega arith))) in
      record {
        chain =
            put_twice-Seg h3.mem a n null h3.first_free null lo hi (pre ++ (rest, s - n) ∷ post)
              order' clear
              (Seg-join h3.mem h3.first_free rest null pre ((rest, s - n) ∷ post) front3 tail3);
        order = order';
        header = put_twice h3.mem a n null;
        clear = clear;
        others = λ x out.
            let (l, r) = Apart-split x pre ((a, s) ∷ post) out in
            put_twice_other h3.mem a n null x (λ eq. omega arith)
            ∙ store_link-other h2 lo a rest pos x pre pre_o l
            ∙ put_twice_other h.mem rest (sub64 (h.mem a).size n) (m1 a).next x (λ eq. omega arith);
        globals = store_link-globals h2 link rest;
      }

-- `allocate_block` on a block of the list, reached through the pointer before it.
pub allocate_block_lem :
    (h : Heap) (lo hi : ℕ) (pre post : Blocks) (a s n : ℕ)
    → 0 < lo
    → 0 < n
    → n ≤ s
    → s < 2 ^ 64
    → Ordered lo (pre ++ (a, s) ∷ post) hi
    → Chain h.mem h.first_free (pre ++ (a, s) ∷ post)
    → let (p, h') = allocate_block (link_to (last_from null pre)) a n h in
      (p ≡ a + header_size)
      × Taken h h' lo hi (pre ++ (a, s) ∷ post) (pre ++ (carve a s n ++ post)) a n
unfolding allocate_block
allocate_block_lem h lo hi pre post a s n pos some_bytes le small order chain =
    let sized = (parts h lo hi pre post a s n pos some_bytes order chain).2 in
    elim (Bool-cases ((h.mem a).size == n)) [
      | inl e ↦
          let exact : (s == n) ≡ true = rw sized at e in
          rw (e, exact)
            (refl, remove_lem h lo hi pre post a s n pos some_bytes order chain (==→eq s n exact))
      | inr e ↦
          let larger : (s == n) ≡ false = rw sized at e in
          let ne = ==→ne s n larger in
          rw (e, larger)
            (
              refl,
              split_lem h lo hi pre post a s n pos some_bytes order chain
                  (elim (dec_lt n s) [ yes l ↦ l | no g ↦ absurd (ne (omega arith)) ]) small,
            )
    ]
