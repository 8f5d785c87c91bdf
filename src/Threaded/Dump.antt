-- ===== src/Threaded/Dump.antt =====
-- `dumpAllocator` of the threaded allocator: the walk over all blocks by their sizes, and the walk over the
-- free list.
use sty_linux.Base.{
  ℕ, zero, suc, ◌+◌, ◌≤◌, ◌<◌, ◌≡◌, ◌≢◌, refl, ap, ◌∙◌, sym, ◌==◌, leb, true, false, [], ◌∷◌, ◌++◌,
  append_assoc, append-nil, length, Run, done, fault, out_of_fuel, arith, ne→==,
}
use mathlib.Core.Path.{subst}
use sty_linux.Memory.{Memory, null}
use sty_linux.FreeList.{Blocks, Chain}
use sty_linux.BestFit.{Heap, loop_fuel}
use sty_linux.BestFit.Valid.{IsHeap, length-lt-loop_fuel}
use sty_linux.Mutex.{abort, unlock, until_free}
use sty_linux.Threaded.{
  Shared, Next, read, next_block, walk_blocks, walk_free, dump_body, print_block,
}

-- From `p` on the blocks `xs` follow one another by their sizes, without a gap, up to `hi`.
abbrev pub Tiling : Memory → ℕ → Blocks → ℕ → Type 0
Tiling m p [] hi = p ≡ hi
Tiling m p ((a, s) ∷ xs) hi = (p ≡ a) × ((m a).size ≡ s) × (0 < s) × Tiling m (a + s) xs hi

abbrev pub printing : Shared → Blocks → Shared
printing s xs = record s { printed = s.printed ++ xs }

Tiling-le : (m : Memory) (p hi : ℕ) (xs : Blocks) → Tiling m p xs hi → p + length xs ≤ hi
Tiling-le m p hi [] t = omega arith
Tiling-le m p hi ((a, s) ∷ xs) (e, size, some_bytes, t) = omega (arith, Tiling-le m (a + s) hi xs t)

printing_twice :
    (s : Shared) (b : ℕ × ℕ) (xs : Blocks) → printing (printing s (b ∷ [])) xs ≡ printing s (b ∷ xs)
printing_twice s b xs = ap (λ l. record s { printed = l }) (append_assoc s.printed (b ∷ []) xs)

printing_none : (s : Shared) → printing s [] ≡ s
printing_none s = ap (λ l. record s { printed = l }) (append-nil s.printed)

next_block-last :
    (h : Heap) (a size : ℕ)
    → (h.mem a).size ≡ size
    → a + size ≡ h.heap_start + h.heap_size
    → next_block h a ≡ done null
unfolding next_block
next_block-last h a size at e =
    let last : a + (h.mem a).size ≡ h.heap_start + h.heap_size = ap (λ z. a + z) at ∙ e in
    let inside : leb (a + (h.mem a).size) (h.heap_start + h.heap_size) ≡ true = ground arith in
    let ends : (a + (h.mem a).size == h.heap_start + h.heap_size) ≡ true = ground arith in
    ground arith

next_block-inner :
    (h : Heap) (a size b : ℕ)
    → (h.mem a).size ≡ size
    → a + size ≡ b
    → b < h.heap_start + h.heap_size
    → next_block h a ≡ done b
unfolding next_block
next_block-inner h a size b at e lt = ground arith

module _ (d : ℕ) (k : Next) where
  -- What stands behind the block at `a` is printed after it.
  prints_on :
      (s : Shared) (a size : ℕ) (xs : Blocks) (calls : Next)
      → (s.heap.mem a).size ≡ size
      → until_free (suc d) calls (print_block a s)
        ≡ until_free (suc d) k (printing (print_block a s) xs)
      → until_free (suc d) calls (print_block a s)
        ≡ until_free (suc d) k (printing s ((a, size) ∷ xs))
  prints_on s a size xs calls at rest =
      rest
      ∙ ap (until_free (suc d) k)
          (printing_twice s (a, (s.heap.mem a).size) xs ∙ ap (λ z. printing s ((a, z) ∷ xs)) at)

  walk_blocks-null :
      (f : ℕ) (s : Shared)
      → 0 < f
      → until_free (suc d) (walk_blocks f null k) s ≡ until_free (suc d) k s
  unfolding walk_blocks
  walk_blocks-null zero s pos = absurd (omega arith)
  walk_blocks-null (suc f) s pos = refl

  walk_blocks-step :
      (f : ℕ) (s : Shared) (a r : ℕ)
      → a ≢ null
      → next_block s.heap a ≡ done r
      → until_free (suc d) (walk_blocks (suc f) a k) s
        ≡ until_free (suc d) (walk_blocks f r k) (print_block a s)
  unfolding walk_blocks
  walk_blocks-step f s a r ne e = rw (ne→== a null ne) (
      ap
        (λ (z : Run ℕ).
          until_free (suc d)
            (elim z [ done next ↦ walk_blocks f next k | fault ↦ abort | out_of_fuel ↦ abort ])
            (print_block a s))
        e)

  -- The walk stops at the end of the heap, and its assertion holds.
  walk_blocks-printing :
      (f : ℕ) (s : Shared) (a size : ℕ) (xs : Blocks)
      → Tiling s.heap.mem a ((a, size) ∷ xs) (s.heap.heap_start + s.heap.heap_size)
      → 0 < a
      → length xs + 1 < f
      → until_free (suc d) (walk_blocks f a k) s
        ≡ until_free (suc d) k (printing s ((a, size) ∷ xs))
  walk_blocks-printing zero s a size xs t pos fuel = absurd (omega arith)
  walk_blocks-printing (suc f) s a size [] (e, at, some_bytes, t) pos fuel =
      walk_blocks-step f s a null (λ z. omega arith) (next_block-last s.heap a size at t)
      ∙ prints_on s a size [] (walk_blocks f null k) at (
          walk_blocks-null f (print_block a s) (omega arith)
          ∙ ap (until_free (suc d) k) (sym (printing_none (print_block a s))))
  walk_blocks-printing (suc f) s a size ((b, size') ∷ xs) (e, at, some_bytes, t) pos fuel =
      let before = Tiling-le s.heap.mem (b + size') (s.heap.heap_start + s.heap.heap_size) xs t.3 in
      walk_blocks-step f s a b (λ z. omega arith)
        (next_block-inner s.heap a size b at t.0 (omega (arith, t.2)))
      ∙ prints_on s a size ((b, size') ∷ xs) (walk_blocks f b k) at (
          walk_blocks-printing f (print_block a s) b size' xs (refl, t.1, t.2, t.3)
            (omega (arith, t.0)) (omega arith))

  walk_free-printing :
      (f : ℕ) (s : Shared) (p : ℕ) (xs : Blocks)
      → Chain s.heap.mem p xs
      → length xs < f
      → until_free (suc d) (walk_free f p k) s ≡ until_free (suc d) k (printing s xs)
  unfolding walk_free
  walk_free-printing zero s p xs c fuel = absurd (omega arith)
  walk_free-printing (suc f) s p [] c fuel =
      let end : (p == null) ≡ true = ap (λ z. z == null) c in
      rw end (ap (until_free (suc d) k) (sym (printing_none s)))
  walk_free-printing (suc f) s p ((a, size) ∷ xs) (e, ne, at, c) fuel =
      let nonnull : (a == null) ≡ false = ne→== a null ne in
      subst
        (λ z.
          until_free (suc d) (walk_free (suc f) z k) s
          ≡ until_free (suc d) k (printing s ((a, size) ∷ xs)))
        (sym e)
        (rw nonnull (
          prints_on s a size xs (walk_free f (s.heap.mem a).next k) at
            (walk_free-printing f (print_block a s) (s.heap.mem a).next xs c (omega arith))))

-- If the blocks of a well-formed heap that is not empty follow one another from its start to its end,
-- dumpAllocator, once it holds the mutex, ends with its assertion kept: it prints each block once, in the
-- order of the addresses, then the free blocks, changes nothing else, and releases the mutex once.
pub dump_body-prints :
    (d : ℕ) (k : Next) (s : Shared) (blocks frees : Blocks)
    → IsHeap s.heap frees
    → Tiling s.heap.mem s.heap.heap_start blocks (s.heap.heap_start + s.heap.heap_size)
    → 0 < s.heap.heap_size
    → until_free (suc d) (dump_body k) s ≡ until_free d k (printing s (blocks ++ frees))
unfolding dump_body
dump_body-prints d k s [] frees v t pos = absurd (omega arith)
dump_body-prints d k s ((a, size) ∷ xs) frees v t pos =
    let end = s.heap.heap_start + s.heap.heap_size in
    let start = v.start_pos in
    let count = Tiling-le s.heap.mem s.heap.heap_start end ((a, size) ∷ xs) t in
    let k1 = unlock k in
    let k2 = read (λ s'. walk_free (loop_fuel s'.heap) s'.heap.first_free k1) in
    let fuel : length xs + 1 < loop_fuel s.heap = omega arith in
    let first : until_free (suc d) (walk_blocks (loop_fuel s.heap) s.heap.heap_start k2) s
        ≡ until_free (suc d) k2 (printing s ((a, size) ∷ xs)) =
      subst
        (λ z.
          until_free (suc d) (walk_blocks (loop_fuel s.heap) z k2) s
          ≡ until_free (suc d) k2 (printing s ((a, size) ∷ xs)))
        (sym t.0)
        (walk_blocks-printing d k2 (loop_fuel s.heap) s a size xs (refl, t.1, t.2, t.3)
          (omega (arith, t.0)) fuel) in
    let then_free =
      walk_free-printing d k1 (loop_fuel s.heap) (printing s ((a, size) ∷ xs)) s.heap.first_free
        frees v.chain (length-lt-loop_fuel v) in
    first
    ∙ then_free
    ∙ ap (λ l. until_free d k (record s { printed = l }))
        (append_assoc s.printed ((a, size) ∷ xs) frees)
