-- ===== src/BestFit/Links.antt =====
-- Writes through the `Block **` that malloc.c keeps: `&_firstFreeBlock` or the `next` of a block.
use sty_linux.Base.{ℕ, ◌+◌, ◌≤◌, ◌<◌, ◌≡◌, ◌≢◌, refl, inr, [], ◌∷◌, arith, ne→==, sym, All}
use mathlib.Core.Path.{subst}
use sty_linux.Memory.{null, put_other}
use sty_linux.FreeList.{Blocks, Seg, Ordered, Apart, last_from}
use sty_linux.FreeList.Spans.{last-lt, Apart-last, Ordered-Apart}
use sty_linux.FreeList.Segments.{Seg-relink, Seg-frame}
use sty_linux.BestFit.{Heap, Link, head, next_of, link_to, store_link}

-- `&prev->next` where there is a block before.
link_to-last :
    (lo hi a s : ℕ) (xs : Blocks)
    → 0 < lo
    → Ordered lo ((a, s) ∷ xs) hi
    → link_to (last_from a xs) ≡ next_of (last_from a xs)
link_to-last lo hi a s xs pos o =
    let far : last_from a xs ≢ null = omega (arith, last-lt a s hi xs o.1 o.2) in
    rw (ne→== (last_from a xs) null far)

module _ (h : Heap) (lo hi q : ℕ) (pos : 0 < lo) where
  -- The end of the segment moves to `q`.
  pub store_link-Seg :
      (r : ℕ) (xs : Blocks)
      → Ordered lo xs hi
      → Seg h.mem h.first_free r xs
      → let h' = store_link h (link_to (last_from null xs)) q in Seg h'.mem h'.first_free q xs
  store_link-Seg r [] o seg = refl
  store_link-Seg r ((a, s) ∷ xs) o seg =
      subst (λ l. Seg (store_link h l q).mem (store_link h l q).first_free q ((a, s) ∷ xs))
        (sym (link_to-last lo hi a s xs pos o))
        (Seg-relink h.mem h.first_free r q a s hi xs (omega arith, o.1, o.2) seg)

  -- Headers apart from the segment stay.
  pub store_link-other :
      (x : ℕ) (xs : Blocks)
      → Ordered lo xs hi
      → Apart x xs
      → (store_link h (link_to (last_from null xs)) q).mem x ≡ h.mem x
  store_link-other x [] o out = refl
  store_link-other x ((a, s) ∷ xs) o out =
      rw (link_to-last lo hi a s xs pos o)
        (put_other h.mem (last_from a xs) x _ (Apart-last x a s hi xs o.1 o.2 out))

-- The other globals stay.
pub store_link-globals :
    (h : Heap) (link : Link) (q : ℕ)
    → ((store_link h link q).heap_start ≡ h.heap_start)
      × ((store_link h link q).heap_size ≡ h.heap_size)
store_link-globals h head q = (refl, refl)
store_link-globals h (next_of p) q = (refl, refl)

-- A write through the link out of `xs` leaves the blocks behind them alone.
module _ (h : Heap) (lo mid q : ℕ) (pos : 0 < lo) (xs : Blocks) (o : Ordered lo xs mid) where
  store_link-above :
      (low hi : ℕ) (ys : Blocks)
      → mid ≤ low
      → Ordered low ys hi
      → All (λ b. (store_link h (link_to (last_from null xs)) q).mem b.0 ≡ h.mem b.0) ys
  store_link-above low hi [] le k = tt
  store_link-above low hi ((b, t) ∷ ys) le k = (
    store_link-other h lo mid q pos b xs o (Ordered-Apart b lo mid xs o (inr (omega arith))),
    store_link-above (b + t) hi ys (omega arith) k.2,
  )

  pub store_link-frame :
      (p r low hi : ℕ) (ys : Blocks)
      → mid ≤ low
      → Ordered low ys hi
      → Seg h.mem p r ys
      → Seg (store_link h (link_to (last_from null xs)) q).mem p r ys
  store_link-frame p r low hi ys le k =
      Seg-frame h.mem (store_link h (link_to (last_from null xs)) q).mem p r ys
        (store_link-above low hi ys le k)
