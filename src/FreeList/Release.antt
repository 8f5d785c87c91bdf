-- ===== src/FreeList/Release.antt =====
-- What giving a block back means for the list of free blocks: it joins the free blocks that it
-- touches. This is the contract of `my_free` in the versions of malloc.c.
use sty_linux.Base.{
  ℕ, ◌+◌, ◌≤◌, ◌<◌, ◌≡◌, ◌≢◌, refl, ap, ◌⊎◌, inl, inr, [], ◌∷◌, ◌++◌, arith, ◌==◌, ltb,
  if◌then◌else◌, All, Bool-cases, ==→eq, ==→ne, lt→ltb, le→ltb, ne→==,
}
use sty_linux.FreeList.{Blocks, Ordered}
use sty_linux.FreeList.Spans.{Ordered-bounds, Ordered-lower}

-- The block of `s` bytes at `b`, joined with the first of the blocks behind it if they touch.
abbrev pub absorb : ℕ → ℕ → Blocks → Blocks
absorb b s [] = (b, s) ∷ []
absorb b s ((c, t) ∷ xs) = if b + s == c then (b, s + t) ∷ xs else (b, s) ∷ (c, t) ∷ xs

unfoldable pub release : ℕ → ℕ → Blocks → Blocks
release b s [] = (b, s) ∷ []
release b s ((a, t) ∷ xs) =
    if ltb a b
    then (if a + t == b then absorb a (t + s) xs else (a, t) ∷ release b s xs)
    else absorb b s ((a, t) ∷ xs)

-- The bytes `[b, b + s)` are in none of the blocks.
abbrev pub Disjoint : ℕ → ℕ → Blocks → Type 0
Disjoint b s xs = All (λ c. (c.0 + c.1 ≤ b) ⊎ (b + s ≤ c.0)) xs

-- No two blocks that follow one another touch.
abbrev pub Separated : Blocks → Type 0
Separated [] = Unit
Separated ((a, s) ∷ []) = Unit
Separated ((a, s) ∷ (b, t) ∷ xs) = (a + s ≢ b) × Separated ((b, t) ∷ xs)

abbrev pub total_size : Blocks → ℕ
total_size [] = 0
total_size ((a, s) ∷ xs) = s + total_size xs

-- The blocks before and behind the bytes `[b, b + s)`.
pub record Around (b s lo hi : ℕ) (xs : Blocks) : Type 0 where
  pub before : Blocks
  pub after : Blocks
  pub cut : xs ≡ before ++ after
  pub below : Ordered lo before b
  pub above : Ordered (b + s) after hi

pub cut-Around :
    (b s lo hi : ℕ) (xs : Blocks)
    → lo ≤ b
    → b + s ≤ hi
    → 0 < s
    → Ordered lo xs hi
    → Disjoint b s xs
    → Around b s lo hi xs
cut-Around b s lo hi [] low high pos o apart = record {
  before = [];
  after = [];
  cut = refl;
  below = low;
  above = high;
}
cut-Around b s lo hi ((a, t) ∷ xs) low high pos o apart = elim apart.0 [
  | inr beyond ↦ record {
    before = [];
    after = (a, t) ∷ xs;
    cut = refl;
    below = low;
    above = (beyond, o.1, o.2);
  }
  | inl under ↦
      let rest = cut-Around b s (a + t) hi xs under high pos o.2 apart.1 in
      record {
        before = (a, t) ∷ rest.before;
        after = rest.after;
        cut = ap (λ (l : Blocks). (a, t) ∷ l) rest.cut;
        below = (o.0, o.1, rest.below);
        above = rest.above;
      }
]

-- The blocks well before the block stay.
pub release-skip :
    (b s lo a t : ℕ) (xs ys : Blocks)
    → Ordered lo xs a
    → a < b
    → release b s (xs ++ (a, t) ∷ ys) ≡ xs ++ release b s ((a, t) ∷ ys)
unfolding release
release-skip b s lo a t [] ys o lt = refl
release-skip b s lo a t ((c, u) ∷ xs) ys o lt =
    let bound = Ordered-bounds (c + u) a xs o.2 in
    rw (lt→ltb c b (omega arith), ne→== (c + u) b (λ e. omega arith))
      (ap (λ (l : Blocks). (c, u) ∷ l) (release-skip b s (c + u) a t xs ys o.2 lt))

pub release-front :
    (b s hi : ℕ) (ys : Blocks) → 0 < s → Ordered (b + s) ys hi → release b s ys ≡ absorb b s ys
unfolding release
release-front b s hi [] pos o = refl
release-front b s hi ((a, t) ∷ ys) pos o = rw (le→ltb a b (omega arith))

-- Behind a block that it does not touch, it is joined with what follows.
pub release-behind :
    (b s a t hi : ℕ) (ys : Blocks)
    → 0 < s
    → 0 < t
    → a + t ≤ b
    → Ordered (b + s) ys hi
    → release b s ((a, t) ∷ ys)
      ≡ (if a + t == b then absorb a (t + s) ys else (a, t) ∷ absorb b s ys)
unfolding release
release-behind b s a t hi ys pos pos' le o =
    rw (lt→ltb a b (omega arith), release-front b s hi ys pos o)

pub absorb-Ordered :
    (b s lo hi : ℕ) (ys : Blocks)
    → lo ≤ b
    → 0 < s
    → Ordered (b + s) ys hi
    → Ordered lo (absorb b s ys) hi
absorb-Ordered b s lo hi [] low pos o = (low, pos, o)
absorb-Ordered b s lo hi ((c, t) ∷ ys) low pos o = elim (Bool-cases (b + s == c)) [
  | inr e ↦ rw e (low, pos, o)
  | inl e ↦
      rw e (
        low,
        omega arith,
        Ordered-lower (c + t) (b + (s + t)) hi ys (omega (arith, ==→eq _ _ e)) o.2,
      )
]

pub absorb-Separated : (b s : ℕ) (ys : Blocks) → Separated ys → 0 < s → Separated (absorb b s ys)
absorb-Separated b s [] sep pos = tt
absorb-Separated b s ((c, t) ∷ []) sep pos = elim (Bool-cases (b + s == c)) [
  | inr e ↦ rw e (==→ne _ _ e, tt)
  | inl e ↦ rw e tt
]
absorb-Separated b s ((c, t) ∷ (d, u) ∷ ys) sep pos = elim (Bool-cases (b + s == c)) [
  | inr e ↦ rw e (==→ne _ _ e, sep)
  | inl e ↦ rw e ((λ e'. sep.0 (omega (arith, ==→eq _ _ e))), sep.1)
]
