-- ===== src/Marked/Allocate.antt =====
-- `allocate_block` of savesolmalloc.c next to the one of vika4.
use sty_linux.Base.{
  ℕ, ◌+◌, ◌<◌, ◌≤◌, ◌≡◌, ◌≢◌, sym, ap, inl, inr, arith, ◌==◌, leb, true, done, Bool-cases, ==→ne,
  ne→==, ==_self,
}
use mathlib.Core.Path.{fun_ext}
use sty_linux.Base.Words.{sub64}
use sty_linux.Memory.{Memory, null, set_next, set_size}
use sty_linux.BestFit.{
  Heap, Link, head, next_of, store_link, header_size, split_block, allocate_block,
}
use sty_linux.Marked.{magic, following, split_marked, allocate_marked}

-- `block->next = ALLOCATED_BLOCK_MAGIC`
abbrev pub mark : ℕ → Heap → Heap
mark b h = record h { mem = set_next h.mem b magic }

-- The link does not stand in either of two blocks.
abbrev pub Elsewhere : Link → ℕ → ℕ → Type 0
Elsewhere head b c = Unit
Elsewhere (next_of p) b c = (p ≢ b) × (p ≢ c)

set_next-twice : (m : Memory) (b q r : ℕ) → set_next (set_next m b q) b r ≡ set_next m b r
set_next-twice m b q r = fun_ext (λ x. ground (arith, ==_self b))

module _ (m : Memory) (b n left : ℕ) (some_bytes : 0 < n) where
  abbrev old_order : Memory
  old_order = let m1 = set_size m (b + n) left in set_next m1 (b + n) (m1 b).next

  abbrev new_order : Memory
  new_order =
      let m2 = set_size (set_size m b n) (b + n) left in
      set_next (set_next m2 (b + n) (m2 b).next) b magic

  orders-head : set_next (set_next (set_size old_order b n) b null) b magic ≡ new_order
  orders-head = fun_ext (λ x. ground arith)

  orders-link :
      (p : ℕ)
      → p ≢ b
      → p ≢ b + n
      → set_next (set_next (set_size (set_next old_order p (b + n)) b n) b null) b magic
        ≡ set_next new_order p (b + n)
  orders-link p ne ne' = fun_ext (λ x. ground arith)

following-split :
    (h : Heap) (b n : ℕ)
    → b + n < h.heap_start + h.heap_size
    → following (record h { mem = set_size h.mem b n }) b ≡ done (b + n)
unfolding following
following-split h b n inside = ground (arith, ==_self b)

split_marked-split_block :
    (link : Link) (b n : ℕ) (h : Heap)
    → 0 < n
    → 0 < b
    → b + n < h.heap_start + h.heap_size
    → Elsewhere link b (b + n)
    → let h1 = split_block link b n h in
      split_marked link b n h ≡ done (mark b (record h1 { mem = set_next h1.mem b null }))
unfolding split_block split_marked
split_marked-split_block head b n h some_bytes pos inside apart =
    rw (following-split h b n inside, ne→== (b + n) null (λ e. omega arith))
      (ap (λ m. done (record h { mem = m; first_free = b + n }))
        (sym (orders-head h.mem b n (sub64 (h.mem b).size n) some_bytes)))
split_marked-split_block (next_of p) b n h some_bytes pos inside apart =
    rw (following-split h b n inside, ne→== (b + n) null (λ e. omega arith))
      (ap (λ m. done (record h { mem = m }))
        (sym (orders-link h.mem b n (sub64 (h.mem b).size n) some_bytes p apart.0 apart.1)))

-- For a block that is large enough, inside the heap, and a link that stands in another block.
pub allocate_marked-allocate_block :
    (link : Link) (b n : ℕ) (h : Heap)
    → 0 < n
    → 0 < b
    → n ≤ (h.mem b).size
    → b + (h.mem b).size ≤ h.heap_start + h.heap_size
    → Elsewhere link b (b + n)
    → let r = allocate_block link b n h in allocate_marked link b n h ≡ done (r.0, mark b r.1)
unfolding allocate_block allocate_marked
allocate_marked-allocate_block link b n h some_bytes pos fits inside apart =
    let enough : leb n (h.mem b).size ≡ true = ground arith in
    elim (Bool-cases ((h.mem b).size == n)) [
      | inl e ↦
          rw (enough, e)
            (ap (λ m. done (b + header_size, record (store_link h link (h.mem b).next) { mem = m }))
              (sym (set_next-twice (store_link h link (h.mem b).next).mem b null magic)))
      | inr e ↦
          let larger = ==→ne (h.mem b).size n e in
          rw (enough, e, split_marked-split_block link b n h some_bytes pos (omega arith) apart)
    ]
