-- ===== src/Strategies/NextFit.antt =====
-- Where next fit of vika5 goes wrong.
use sty_linux.Base.{
  ℕ, suc, ◌+◌, ◌≤◌, ◌≡◌, ◌≢◌, refl, ap, ◌∙◌, inl, inr, List, arith, if◌then◌else◌, ◌==◌, ne→==,
  Bool-cases, done, fault, le→ltb, le→leb,
}
use sty_linux.Memory.{Memory, null}
use sty_linux.BestFit.{Heap, head, loop_fuel, heap_cap, header_size, allocate_block, split_block}
use sty_linux.BestFit.Malloc.{footprint, footprint_bounds}
use sty_linux.Strategies.{alloc_nextfit, Allocator, search_next, select, place, strategic_malloc}

fuel_suc : (n : ℕ) → n + 1 ≡ suc n
fuel_suc n = omega arith

search_next-null :
    (f : ℕ) (m : Memory) (want first start prev : ℕ)
    → search_next (suc f) m want first start prev null ≡ fault
unfolding search_next
search_next-null f m want first start prev = refl

search_next-here :
    (f : ℕ) (m : Memory) (want first start c : ℕ)
    → c ≢ null
    → want ≤ (m c).size
    → search_next (suc f) m want first start null c ≡ done (c, head)
unfolding search_next
search_next-here f m want first start c ne fits =
    rw (ne→== c null ne, le→leb want (m c).size fits) refl

-- With next fit, no free block and no cursor, my_malloc reads through NULL for every request that fits a
-- region, where the other strategies let the heap grow.
pub strategic_malloc-null :
    (sbrk : List ℕ → ℕ) (tries size : ℕ) (h : Heap)
    → size + header_size ≤ heap_cap
    → h.first_free ≡ null
    → strategic_malloc sbrk
        (suc tries)
        size
        (record { heap = h; strategy = alloc_nextfit; cursor = null })
      ≡ fault
unfolding strategic_malloc select
strategic_malloc-null sbrk tries size h fits none_free =
    let (least, cap, _) = footprint_bounds size fits in
    let looks : search_next (loop_fuel h) h.mem (footprint size) h.first_free h.first_free null
          h.first_free
        ≡ fault =
      ap (λ z. search_next z h.mem (footprint size) h.first_free h.first_free null h.first_free)
        (fuel_suc h.heap_size)
      ∙ ap
          (λ z.
            search_next (suc h.heap_size) h.mem (footprint size) h.first_free h.first_free null z)
          none_free
      ∙ search_next-null h.heap_size h.mem (footprint size) h.first_free h.first_free null in
    rw (le→ltb heap_cap (footprint size) cap, looks) refl

-- With next fit and a cursor on a block that is large enough, my_malloc takes this block and makes the
-- free list start behind it, wherever in the list the block stands: the blocks before it are lost.
pub strategic_malloc-first_free :
    (sbrk : List ℕ → ℕ) (tries size : ℕ) (h : Heap) (c : ℕ)
    → size + header_size ≤ heap_cap
    → c ≢ null
    → footprint size ≤ (h.mem c).size
    → (s' : Allocator) × (strategic_malloc sbrk
          (suc tries)
          size
          (record { heap = h; strategy = alloc_nextfit; cursor = c })
        ≡ done (c + header_size, s'))
      × (s'.heap.first_free
          ≡ (if (h.mem c).size == footprint size then (h.mem c).next else c + footprint size))
unfolding strategic_malloc select place allocate_block split_block
strategic_malloc-first_free sbrk tries size h c fits ne large =
    let (least, cap, _) = footprint_bounds size fits in
    let looks : search_next (loop_fuel h) h.mem (footprint size) h.first_free c null c
        ≡ done (c, head) =
      ap (λ z. search_next z h.mem (footprint size) h.first_free c null c) (fuel_suc h.heap_size)
      ∙ search_next-here h.heap_size h.mem (footprint size) h.first_free c c ne large in
    let s0 : Allocator = record { heap = h; strategy = alloc_nextfit; cursor = c } in
    elim (Bool-cases ((h.mem c).size == footprint size)) [
      | inl e ↦ (
        (place head c (footprint size) s0).1,
        rw (le→ltb heap_cap (footprint size) cap, ne→== c null ne, looks, ne→== c null ne, e) refl,
        rw e refl,
      )
      | inr e ↦ (
        (place head c (footprint size) s0).1,
        rw (le→ltb heap_cap (footprint size) cap, ne→== c null ne, looks, ne→== c null ne, e) refl,
        rw e refl,
      )
    ]
