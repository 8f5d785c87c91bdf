-- ===== src/BestFit/Statistics.antt =====
-- `getAllocStatistics` of malloc.c.
use sty_linux.Base.{
  ℕ, zero, suc, ◌+◌, ◌/◌, ◌^◌, ◌≤◌, ◌<◌, ◌≡◌, ap, ◌∙◌, [], ◌∷◌, arith, length, done, ne→==,
  if◌then◌else◌, ltb,
}
use Prim.Native.Nat.{max}
use sty_linux.Base.Words.{add64, word32}
use sty_linux.Memory.{Memory, null}
use sty_linux.FreeList.{Blocks, Chain, Ordered}
use sty_linux.FreeList.Spans.{length-Ordered}
use sty_linux.FreeList.Release.{total_size}
use sty_linux.BestFit.{Heap, loop_fuel, statistics_loop, get_alloc_statistics}
use sty_linux.BestFit.Valid.{IsHeap, length-lt-loop_fuel}

-- The size of the largest block, 0 if there is none.
abbrev pub largest_size : Blocks → ℕ
largest_size [] = 0
largest_size ((a, s) ∷ xs) = max s (largest_size xs)

-- The bytes of blocks in `[lo, hi)` are no more than lie there.
total_size-le : (lo hi : ℕ) (xs : Blocks) → Ordered lo xs hi → lo + total_size xs ≤ hi
total_size-le lo hi [] o = omega arith
total_size-le lo hi ((a, s) ∷ xs) o = omega (arith, total_size-le (a + s) hi xs o.2)

largest_size-le : (xs : Blocks) → largest_size xs ≤ total_size xs
largest_size-le [] = omega arith
largest_size-le ((a, s) ∷ xs) = omega (arith, largest_size-le xs)

statistics_loop_lem :
    (f : ℕ) (m : Memory) (current count total largest : ℕ) (xs : Blocks)
    → Chain m current xs
    → length xs < f
    → count + length xs < 2 ^ 32
    → total + total_size xs < 2 ^ 64
    → statistics_loop f m current count total largest
      ≡ done (count + length xs, total + total_size xs, max largest (largest_size xs))
unfolding statistics_loop
statistics_loop_lem zero m current count total largest xs chain fuel n t = absurd (omega arith)
statistics_loop_lem (suc f) m current count total largest [] chain fuel n t =
    rw chain (ap done (ground arith))
statistics_loop_lem (suc f) m current count total largest ((a, s) ∷ xs) chain fuel n t =
    let more = if ltb largest s then s else largest in
    let wrap : word32 (count + 1) ≡ count + 1 = omega arith in
    let wrap' : add64 total s ≡ total + s = omega arith in
    rw (chain.0, ne→== a null chain.1, chain.2, wrap, wrap')
      (statistics_loop_lem f m (m a).next (count + 1) (total + s) more xs chain.3 (omega arith)
          (omega arith) (omega arith)
        ∙ ap done (ground arith))

-- For a well-formed heap below 4 GiB getAllocStatistics ends with the number of free blocks, their bytes
-- divided by that number rounded down (0 if there is none), and the size of the largest.
pub get_alloc_statistics_lem :
    (h : Heap) (xs : Blocks)
    → IsHeap h xs
    → h.heap_size < 2 ^ 32
    → get_alloc_statistics h
      ≡ done (record {
        free_count = length xs;
        avg_free = if ltb 0 (length xs) then total_size xs / length xs else 0;
        largest_free = largest_size xs;
      })
unfolding get_alloc_statistics
get_alloc_statistics_lem h xs v small =
    let count = length-Ordered h.heap_start (h.heap_start + h.heap_size) xs v.order in
    let bytes = total_size-le h.heap_start (h.heap_start + h.heap_size) xs v.order in
    let loop =
      statistics_loop_lem (loop_fuel h) h.mem h.first_free 0 0 0 xs v.chain (length-lt-loop_fuel v)
        (omega arith) (omega arith) in
    let sums : statistics_loop (loop_fuel h) h.mem h.first_free 0 0 0
        ≡ done (length xs, total_size xs, largest_size xs) =
      loop ∙ ap done (ground arith) in
    let share : word32 (total_size xs / length xs) ≡ total_size xs / length xs = grind arith in
    let most : word32 (largest_size xs) ≡ largest_size xs = omega (arith, largest_size-le xs) in
    rw (sums, share, most)
