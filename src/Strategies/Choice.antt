-- ===== src/Strategies/Choice.antt =====
-- Which block first fit of vika5 selects, and the allocation in it.
use sty_linux.Base.{ℕ, ◌+◌, ◌≤◌, ◌<◌, ◌≡◌, ◌≢◌, ◌∷◌, ◌++◌, All}
use sty_linux.Memory.{Memory, null, block}
use sty_linux.FreeList.{Blocks, Apart, last_from}
use sty_linux.BestFit.{Heap, Link, link_to, header_size}
use sty_linux.BestFit.Valid.{IsHeap}
use sty_linux.BestFit.Allocate.{carve}

-- The first block that is large enough, and the pointer that leads to it.
pub record FirstFit (want : ℕ) (xs : Blocks) (b : ℕ) (link : Link) : Type 0 where
  pub before : Blocks
  pub after : Blocks
  pub size : ℕ
  pub cut : xs ≡ before ++ (b, size) ∷ after
  pub exists : b ≢ null
  pub fits : want ≤ size
  pub earlier : All (λ c. c.1 < want) before
  pub linked : link ≡ link_to (last_from null before)

-- `p` is the data area of a block of `want` bytes at the front of the first free block that is large
-- enough; the rest of it stays free, and all else is as before.
pub record Placed (h h' : Heap) (xs : Blocks) (p want : ℕ) : Type 0 where
  pub before : Blocks
  pub after : Blocks
  pub address : ℕ
  pub size : ℕ
  pub cut : xs ≡ before ++ (address, size) ∷ after
  pub fits : want ≤ size
  pub earlier : All (λ c. c.1 < want) before
  pub result : p ≡ address + header_size
  pub valid : IsHeap h' (before ++ (carve address size want ++ after))
  pub header : h'.mem address ≡ block want null
  pub others : (x : ℕ) → Apart x xs → h'.mem x ≡ h.mem x
