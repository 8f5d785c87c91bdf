-- ===== src/Memory.antt =====
-- The block headers of STY25/vika4/assignment04-templates/p1/malloc.h in memory. A header is a
-- unit at its address; the data areas are not modelled.
use sty_linux.Base.{ℕ, ◌≡◌, ◌≢◌, ◌==◌, if◌then◌else◌, ==_self, ne→==}

abbrev pub null : ℕ
null = 0

-- `struct _Block`: the size with the header, and the address of the next free block.
pub record Block : Type 0 where
  pub size : ℕ
  pub next : ℕ

abbrev pub block : ℕ → ℕ → Block
block s q = record { size = s; next = q }

-- What stands at each address when it is read as a header.
abbrev pub Memory : Type 0
Memory = ℕ → Block

abbrev pub put : Memory → ℕ → Block → Memory
put m a b x = if x == a then b else m x

-- `p->size = s` and `p->next = q`
abbrev pub set_size : Memory → ℕ → ℕ → Memory
set_size m p s = put m p (block s (m p).next)

abbrev pub set_next : Memory → ℕ → ℕ → Memory
set_next m p q = put m p (block (m p).size q)

pub put_self : (m : Memory) (a : ℕ) (b : Block) → put m a b a ≡ b
put_self m a b = rw (==_self a)

pub put_other : (m : Memory) (a x : ℕ) (b : Block) → x ≢ a → put m a b x ≡ m x
put_other m a x b ne = rw (ne→== x a ne)
