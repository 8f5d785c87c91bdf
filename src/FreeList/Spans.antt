-- ===== src/FreeList/Spans.antt =====
-- Laws of the order of free blocks.
use sty_linux.Base.{ℕ, ◌+◌, ◌≤◌, ◌<◌, ◌≢◌, ◌⊎◌, [], ◌∷◌, ◌++◌, arith, All, length}
use sty_linux.FreeList.{Blocks, Ordered, Apart, last_from}

pub Ordered-bounds : (lo hi : ℕ) (xs : Blocks) → Ordered lo xs hi → lo ≤ hi
Ordered-bounds lo hi [] h = h
Ordered-bounds lo hi ((a, s) ∷ xs) h = omega (arith, Ordered-bounds (a + s) hi xs h.2)

pub Ordered-lower : (lo lo' hi : ℕ) (xs : Blocks) → lo' ≤ lo → Ordered lo xs hi → Ordered lo' xs hi
Ordered-lower lo lo' hi [] le h = omega arith
Ordered-lower lo lo' hi ((a, s) ∷ xs) le h = (omega arith, h.1, h.2)

pub Ordered-join :
    (lo mid hi : ℕ) (xs ys : Blocks)
    → Ordered lo xs mid
    → Ordered mid ys hi
    → Ordered lo (xs ++ ys) hi
Ordered-join lo mid hi [] ys h k = Ordered-lower mid lo hi ys h k
Ordered-join lo mid hi ((a, s) ∷ xs) ys h k = (h.0, h.1, Ordered-join (a + s) mid hi xs ys h.2 k)

-- A list that is cut before a block.
pub Ordered-split :
    (lo hi : ℕ) (xs : Blocks) (a s : ℕ) (ys : Blocks)
    → Ordered lo (xs ++ (a, s) ∷ ys) hi
    → Ordered lo xs a × Ordered a ((a, s) ∷ ys) hi
Ordered-split lo hi [] a s ys h = (h.0, (omega arith, h.1, h.2))
Ordered-split lo hi ((b, t) ∷ xs) a s ys h =
    let (l, r) = Ordered-split (b + t) hi xs a s ys h.2 in ((h.0, h.1, l), r)

-- Every block below `hi` is apart from what stands at `hi`.
pub Ordered-below :
    (lo hi : ℕ) (xs : Blocks) → Ordered lo xs hi → All (λ b. (lo ≤ b.0) × (b.0 + b.1 ≤ hi)) xs
Ordered-below lo hi [] h = tt
Ordered-below lo hi ((a, s) ∷ xs) h =
    ((omega arith, Ordered-bounds (a + s) hi xs h.2), lower xs (Ordered-below (a + s) hi xs h.2))
  where
    lower :
        (ys : Blocks)
        → All (λ b. (a + s ≤ b.0) × (b.0 + b.1 ≤ hi)) ys
        → All (λ b. (lo ≤ b.0) × (b.0 + b.1 ≤ hi)) ys
    lower [] k = tt
    lower (b ∷ ys) k = ((omega arith, k.0.1), lower ys k.1)

-- There are no more blocks than bytes.
pub length-Ordered : (lo hi : ℕ) (xs : Blocks) → Ordered lo xs hi → lo + length xs ≤ hi
length-Ordered lo hi [] h = omega arith
length-Ordered lo hi ((a, s) ∷ xs) h = omega (arith, length-Ordered (a + s) hi xs h.2)

-- The last block starts below the end.
pub last-lt :
    (a s hi : ℕ) (xs : Blocks)
    → 0 < s
    → Ordered (a + s) xs hi
    → (a ≤ last_from a xs) × (last_from a xs < hi)
last-lt a s hi [] pos h = omega arith
last-lt a s hi ((b, t) ∷ xs) pos h = omega (arith, last-lt b t hi xs h.1 h.2)

-- What stands outside the range of the blocks is apart from them.
pub Ordered-Apart :
    (x lo hi : ℕ) (xs : Blocks) → Ordered lo xs hi → (x < lo) ⊎ (hi ≤ x) → Apart x xs
Ordered-Apart x lo hi [] h out = tt
Ordered-Apart x lo hi ((a, s) ∷ xs) h out =
    let far : (x < a) ⊎ (a + s ≤ x) = omega (arith, Ordered-bounds (a + s) hi xs h.2) in
    (far, Ordered-Apart x (a + s) hi xs h.2 (omega arith))

pub Apart-split : (x : ℕ) (xs ys : Blocks) → Apart x (xs ++ ys) → Apart x xs × Apart x ys
Apart-split x [] ys h = (tt, h)
Apart-split x (b ∷ xs) ys h = let (l, r) = Apart-split x xs ys h.1 in ((h.0, l), r)

-- An address apart from the blocks is not the last of them.
pub Apart-last :
    (x a s hi : ℕ) (xs : Blocks)
    → 0 < s
    → Ordered (a + s) xs hi
    → Apart x ((a, s) ∷ xs)
    → x ≢ last_from a xs
Apart-last x a s hi [] pos o h = λ e. omega (arith, h.0)
Apart-last x a s hi ((b, t) ∷ xs) pos o h = Apart-last x b t hi xs o.1 o.2 h.1

pub Ordered-starts : (lo hi : ℕ) (xs : Blocks) → Ordered lo xs hi → All (λ b. b.0 < hi) xs
Ordered-starts lo hi [] h = tt
Ordered-starts lo hi ((a, s) ∷ xs) h =
    (omega (arith, Ordered-bounds (a + s) hi xs h.2), Ordered-starts (a + s) hi xs h.2)
