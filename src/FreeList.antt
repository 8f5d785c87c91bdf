-- ===== src/FreeList.antt =====
-- What the free list of an allocator stands for: the addresses and sizes of its blocks. The code is
-- STY25/vika4/assignment04-templates/p1/malloc.c and its later versions, which keep the free blocks
-- in a singly linked list ordered by address.
pub mod Release
pub mod ReleaseLaws
pub mod Segments
pub mod Spans
use sty_linux.Base.{ℕ, ◌+◌, ◌≤◌, ◌<◌, ◌≡◌, ◌≢◌, ◌⊎◌, List, [], ◌∷◌, All}
use sty_linux.Memory.{Memory, null}

-- The address and the size of each free block, in the list's order.
abbrev pub Blocks : Type 0
Blocks = List (ℕ × ℕ)

-- In memory `m` the `next` pointers lead from `p` through the blocks `xs` to `q`.
abbrev pub Seg : Memory → ℕ → ℕ → Blocks → Type 0
Seg m p q [] = p ≡ q
Seg m p q ((a, s) ∷ xs) = (p ≡ a) × (a ≢ null) × ((m a).size ≡ s) × Seg m (m a).next q xs

-- The whole list, which ends with NULL.
abbrev pub Chain : Memory → ℕ → Blocks → Type 0
Chain m p xs = Seg m p null xs

-- The blocks are not empty, and lie apart and in the order of their addresses in `[lo, hi)`.
abbrev pub Ordered : ℕ → Blocks → ℕ → Type 0
Ordered lo [] hi = lo ≤ hi
Ordered lo ((a, s) ∷ xs) hi = (lo ≤ a) × (0 < s) × Ordered (a + s) xs hi

-- The address of the last block, `p` if there is none.
abbrev pub last_from : ℕ → Blocks → ℕ
last_from p [] = p
last_from p ((a, s) ∷ xs) = last_from a xs

-- The address `x` lies in none of the blocks.
abbrev pub Apart : ℕ → Blocks → Type 0
Apart x xs = All (λ b. (x < b.0) ⊎ (b.0 + b.1 ≤ x)) xs
