-- ===== src/FreeList/Segments.antt =====
-- Laws of list segments: cutting, joining, and what a write leaves alone.
use sty_linux.Base.{ℕ, ◌+◌, ◌≡◌, ◌≢◌, refl, ap, ◌∙◌, [], ◌∷◌, ◌++◌, arith, All}
use sty_linux.Memory.{Block, block, Memory, put, set_next, put_self, put_other}
use sty_linux.FreeList.{Blocks, Seg, Ordered, Apart, last_from}
use sty_linux.FreeList.Spans.{last-lt}

pub Seg-split :
    (m : Memory) (p q : ℕ) (xs ys : Blocks)
    → Seg m p q (xs ++ ys)
    → (r : ℕ) × Seg m p r xs × Seg m r q ys
Seg-split m p q [] ys h = (p, refl, h)
Seg-split m p q ((a, s) ∷ xs) ys h =
    let (r, l, k) = Seg-split m (m a).next q xs ys h.3 in (r, (h.0, h.1, h.2, l), k)

pub Seg-join :
    (m : Memory) (p r q : ℕ) (xs ys : Blocks) → Seg m p r xs → Seg m r q ys → Seg m p q (xs ++ ys)
Seg-join m p r q [] ys h k = ground arith
Seg-join m p r q ((a, s) ∷ xs) ys h k = (h.0, h.1, h.2, Seg-join m (m a).next r q xs ys h.3 k)

-- A segment stands where the headers of its blocks stay.
pub Seg-frame :
    (m m' : Memory) (p q : ℕ) (xs : Blocks)
    → All (λ b. m' b.0 ≡ m b.0) xs
    → Seg m p q xs
    → Seg m' p q xs
Seg-frame m m' p q [] same h = h
Seg-frame m m' p q ((a, s) ∷ xs) same h =
    (h.0, h.1, ap (λ b. b.size) same.0 ∙ h.2, rw same.0 (Seg-frame m m' (m a).next q xs same.1 h.3))

-- A write at `x` leaves alone the blocks that `x` is apart from.
pub All-put :
    (m : Memory) (x : ℕ) (c : Block) (lo hi : ℕ) (xs : Blocks)
    → Ordered lo xs hi
    → Apart x xs
    → All (λ b. put m x c b.0 ≡ m b.0) xs
All-put m x c lo hi [] h out = tt
All-put m x c lo hi ((a, s) ∷ xs) h out =
    (put_other m x a c (λ e. omega (arith, out.0)), All-put m x c (a + s) hi xs h.2 out.1)

pub Seg-put :
    (m : Memory) (x : ℕ) (c : Block) (p q lo hi : ℕ) (xs : Blocks)
    → Ordered lo xs hi
    → Apart x xs
    → Seg m p q xs
    → Seg (put m x c) p q xs
Seg-put m x c p q lo hi xs h out = Seg-frame m (put m x c) p q xs (All-put m x c lo hi xs h out)

-- `*link = q` for the pointer that leads out of a segment moves its end to `q`.
pub Seg-relink :
    (m : Memory) (p r q a s : ℕ) (hi : ℕ) (xs : Blocks)
    → Ordered a ((a, s) ∷ xs) hi
    → Seg m p r ((a, s) ∷ xs)
    → Seg (set_next m (last_from a xs) q) p q ((a, s) ∷ xs)
Seg-relink m p r q a s hi [] o h =
    (h.0, h.1, rw (put_self m a (block (m a).size q)) h.2, rw (put_self m a (block (m a).size q)))
Seg-relink m p r q a s hi ((b, t) ∷ xs) o h =
    let ahead : a ≢ last_from b xs = omega (arith, last-lt b t hi xs o.2.1 o.2.2) in
    let keep = put_other m (last_from b xs) a (block (m (last_from b xs)).size q) ahead in
    (
      h.0,
      h.1,
      rw keep h.2,
      rw keep (Seg-relink m (m a).next r q b t hi xs (omega arith, o.2.1, o.2.2) h.3),
    )
