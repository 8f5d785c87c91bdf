-- ===== src/FreeList/ReleaseLaws.antt =====
-- Giving a block back keeps the order of the free blocks, keeps them apart, and loses no byte.
use sty_linux.Base.{
  ℕ, ◌+◌, ◌≤◌, ◌<◌, ◌≡◌, ◌≢◌, refl, inl, inr, [], ◌∷◌, arith, ◌==◌, ltb, Bool-cases, ==→eq, ==→ne,
  lt→ltb, le→ltb,
}
use mathlib.Core.Path.{subst}
use sty_linux.FreeList.{Blocks, Ordered}
use sty_linux.FreeList.Release.{
  absorb, release, Disjoint, Separated, total_size, absorb-Ordered, absorb-Separated,
}

-- Blocks from `b` on that are apart from `[b, b + s)` stand from `b + s` on.
Ordered-beyond :
    (b s hi : ℕ) (xs : Blocks)
    → b + s ≤ hi
    → 0 < s
    → Ordered b xs hi
    → Disjoint b s xs
    → Ordered (b + s) xs hi
Ordered-beyond b s hi [] le pos o d = le
Ordered-beyond b s hi ((c, t) ∷ xs) le pos o d = (omega (arith, d.0), o.1, o.2)

pub release-Ordered :
    (b s lo hi : ℕ) (xs : Blocks)
    → lo ≤ b
    → b + s ≤ hi
    → 0 < s
    → Ordered lo xs hi
    → Disjoint b s xs
    → Ordered lo (release b s xs) hi
unfolding release
release-Ordered b s lo hi [] low high pos o d = (low, pos, high)
release-Ordered b s lo hi ((a, t) ∷ xs) low high pos o d = elim d.0 [
  | inr beyond ↦
      rw (le→ltb a b (omega arith))
        (absorb-Ordered b s lo hi ((a, t) ∷ xs) low pos (beyond, o.1, o.2))
  | inl under ↦ rw (lt→ltb a b (omega arith)) (elim (Bool-cases (a + t == b)) [
    | inr e ↦ rw e (o.0, o.1, release-Ordered b s (a + t) hi xs under high pos o.2 d.1)
    | inl e ↦
        let touch = ==→eq _ _ e in
        rw e (
          absorb-Ordered a (t + s) lo hi xs o.0 (omega arith) (
            subst (λ z. Ordered z xs hi) (omega arith)
              (Ordered-beyond b s hi xs high pos (subst (λ z. Ordered z xs hi) touch o.2) d.1)))
  ])
]

-- A block that ends at `p` does not touch the first of the blocks.
abbrev Clear : ℕ → Blocks → Type 0
Clear p [] = Unit
Clear p ((c, t) ∷ xs) = p ≢ c

Separated-cons : (a t : ℕ) (xs : Blocks) → Clear (a + t) xs → Separated xs → Separated ((a, t) ∷ xs)
Separated-cons a t [] c sep = tt
Separated-cons a t (x ∷ xs) c sep = (c, sep)

Clear-absorb : (p b s : ℕ) (xs : Blocks) → p ≢ b → Clear p (absorb b s xs)
Clear-absorb p b s [] ne = ne
Clear-absorb p b s ((c, t) ∷ xs) ne = elim (Bool-cases (b + s == c)) [
  | inl e ↦ rw e ne
  | inr e ↦ rw e ne
]

Clear-release : (p b s : ℕ) (xs : Blocks) → p ≢ b → Clear p xs → Clear p (release b s xs)
unfolding release
Clear-release p b s [] ne c = ne
Clear-release p b s ((a, t) ∷ xs) ne c = elim (Bool-cases (ltb a b)) [
  | inr e ↦ rw e (Clear-absorb p b s ((a, t) ∷ xs) ne)
  | inl e ↦ rw e (elim (Bool-cases (a + t == b)) [
    | inl j ↦ rw j (Clear-absorb p a (t + s) xs c)
    | inr j ↦ rw j c
  ])
]

Separated-tail : (a t : ℕ) (xs : Blocks) → Separated ((a, t) ∷ xs) → Separated xs
Separated-tail a t [] sep = tt
Separated-tail a t (x ∷ xs) sep = sep.1

Separated-Clear : (a t : ℕ) (xs : Blocks) → Separated ((a, t) ∷ xs) → Clear (a + t) xs
Separated-Clear a t [] sep = tt
Separated-Clear a t (x ∷ xs) sep = sep.0

-- Where no free blocks touched, none do when one more is free.
pub release-Separated : (b s : ℕ) (xs : Blocks) → 0 < s → Separated xs → Separated (release b s xs)
unfolding release
release-Separated b s [] pos sep = tt
release-Separated b s ((a, t) ∷ xs) pos sep = elim (Bool-cases (ltb a b)) [
  | inr e ↦ rw e (absorb-Separated b s ((a, t) ∷ xs) sep pos)
  | inl e ↦ rw e (elim (Bool-cases (a + t == b)) [
    | inl j ↦ rw j (absorb-Separated a (t + s) xs (Separated-tail a t xs sep) (omega arith))
    | inr j ↦ rw j (
        Separated-cons a t (release b s xs)
          (Clear-release (a + t) b s xs (==→ne _ _ j) (Separated-Clear a t xs sep))
          (release-Separated b s xs pos (Separated-tail a t xs sep)))
  ])
]

total_size-absorb : (b s : ℕ) (xs : Blocks) → total_size (absorb b s xs) ≡ s + total_size xs
total_size-absorb b s [] = refl
total_size-absorb b s ((c, t) ∷ xs) = ground arith

pub total_size-release : (b s : ℕ) (xs : Blocks) → total_size (release b s xs) ≡ s + total_size xs
unfolding release
total_size-release b s [] = refl
total_size-release b s ((a, t) ∷ xs) = ground (
  arith,
  total_size-absorb b s ((a, t) ∷ xs),
  total_size-absorb a (t + s) xs,
  total_size-release b s xs,
)
