-- ===== src/Marked/Insert.antt =====
-- The loop of `my_free` of savesolmalloc.c, and its writes before the merges.
use sty_linux.Base.{
  ℕ, zero, suc, ◌+◌, ◌-◌, ◌≤◌, ◌<◌, ◌≡◌, ◌≢◌, refl, sym, ap, ◌∙◌, inl, inr, [], ◌∷◌, ◌++◌, arith,
  length, false, ne→==, lt→ltb, le→ltb, ltb, ◌==◌, if◌then◌else◌, Bool-cases, Run, done, ◌>>=◌,
}
use mathlib.Core.Path.{fun_ext}
use sty_linux.Memory.{Memory, null, set_next}
use sty_linux.FreeList.{Blocks, Chain, Ordered, Apart, last_from}
use sty_linux.FreeList.Spans.{Ordered-bounds}
use sty_linux.FreeList.Release.{absorb}
use sty_linux.BestFit.{Heap, header_size, loop_fuel}
use sty_linux.BestFit.Merge.{first_of}
use sty_linux.BestFit.Free.{first_of_lem}
use sty_linux.Marked.{merge_marked, find_before, link_behind, free_marked}

-- The block behind the first of some blocks below `b`.
pub first_of-below :
    (lo b a t : ℕ) (pre post : Blocks)
    → 0 < lo
    → Ordered lo (pre ++ (a, t) ∷ []) b
    → (first_of (pre ++ (a, t) ∷ post) < b) × (first_of (pre ++ (a, t) ∷ post) ≢ null)
first_of-below lo b a t [] post pos o = (omega arith, (λ e. omega arith))
first_of-below lo b a t ((c, u) ∷ pre) post pos o =
    (omega (arith, Ordered-bounds (c + u) b (pre ++ (a, t) ∷ []) o.2), (λ e. omega arith))

-- The loop stops at the last block below the target.
pub find_before_lem :
    (f : ℕ) (m : Memory) (b s lo hi p a t : ℕ) (pre post : Blocks)
    → 0 < lo
    → Ordered lo (pre ++ (a, t) ∷ []) b
    → Ordered (b + s) post hi
    → Chain m p (pre ++ (a, t) ∷ post)
    → length (pre ++ (a, t) ∷ post) < f
    → find_before f m b p ≡ done a
unfolding find_before
find_before_lem zero m b s lo hi p a t pre post pos below above chain fuel = absurd (omega arith)
find_before_lem (suc f) m b s lo hi p a t [] [] pos below above chain fuel =
    let last : (m a).next ≡ null = chain.3 in
    rw (chain.0, ne→== a null chain.1, last, lt→ltb null b (omega arith)) refl
find_before_lem (suc f) m b s lo hi p a t [] ((c, v) ∷ post) pos below above chain fuel =
    let next : (m a).next ≡ c = chain.3.0 in
    rw (chain.0, ne→== a null chain.1, next, le→ltb c b (omega arith)) refl
find_before_lem (suc f) m b s lo hi p a t ((c, u) ∷ pre) post pos below above chain fuel =
    let next : (m c).next ≡ first_of (pre ++ (a, t) ∷ post) =
      first_of_lem m (m c).next (pre ++ (a, t) ∷ post) chain.3 in
    let (under, exists) = first_of-below (c + u) b a t pre post (omega arith) below.2 in
    rw
      (
        chain.0,
        ne→== c null chain.1,
        lt→ltb (m c).next b (omega (arith, next)),
        ne→== (m c).next null (λ e. exists (sym next ∙ e)),
      )
      (find_before_lem f m b s (c + u) hi (m c).next a t pre post (omega arith) below.2 above
        chain.3 (omega arith))

pub first_of-absorb : (b s : ℕ) (post : Blocks) → first_of (absorb b s post) ≡ b
first_of-absorb b s [] = refl
first_of-absorb b s ((c, v) ∷ post) = elim (Bool-cases (b + s == c)) [
  | inl e ↦ rw e refl
  | inr e ↦ rw e refl
]

-- The two pointers are written in the other order.
insert_order :
    (m : Memory) (p b q : ℕ)
    → p ≢ b
    → set_next (set_next m b (if q == null then null else q)) p b ≡ set_next (set_next m p b) b q
insert_order m p b q ne = fun_ext (λ x. ground arith)

pub last_from-last : (a t : ℕ) (pre : Blocks) → last_from null (pre ++ (a, t) ∷ []) ≡ a
last_from-last a t [] = refl
last_from-last a t ((c, u) ∷ pre) = onward c pre
  where
    onward : (c : ℕ) (pre : Blocks) → last_from c (pre ++ (a, t) ∷ []) ≡ a
    onward c [] = refl
    onward c ((d, v) ∷ pre) = onward d pre

pub Apart-join : (x : ℕ) (xs ys : Blocks) → Apart x xs → Apart x ys → Apart x (xs ++ ys)
Apart-join x [] ys p q = q
Apart-join x (c ∷ xs) ys p q = (p.0, Apart-join x xs ys p.1 q)

-- The insertion, when the merges that follow it are known.
pub link_behind-merges :
    (m m3 m4 : Memory) (b a c : ℕ)
    → a ≢ b
    → (m a).next ≡ c
    → let m2 = set_next (set_next m a b) b c in
      (m2 b).next ≡ c
      → merge_marked b c m2 ≡ done m3
      → merge_marked a b m3 ≡ done m4
      → link_behind b a m ≡ done m4
unfolding link_behind
link_behind-merges m m3 m4 b a c ne next next2 first second =
    let run : Memory → Run Memory = λ m2. merge_marked b (m2 b).next m2 >>= merge_marked a b in
    let m2 = set_next (set_next m a b) b c in
    let merges : run m2 ≡ done m4 =
      ap (λ (q : ℕ). merge_marked b q m2 >>= merge_marked a b) next2 ∙ (rw first second) in
    ap run (insert_order m a b (m a).next ne)
    ∙ ap (λ (q : ℕ). run (set_next (set_next m a b) b q)) next
    ∙ merges

-- The tests of my_free and its loop, where some block is before the one that is given back.
pub free_marked-behind :
    (h : Heap) (b a : ℕ) (m : Memory)
    → 0 < b
    → h.first_free ≤ b
    → find_before (loop_fuel h) h.mem b h.first_free ≡ done a
    → link_behind b a h.mem ≡ done m
    → free_marked (b + header_size) h ≡ done (record h { mem = m })
unfolding free_marked
free_marked-behind h b a m pos first found linked =
    let given = ne→== (b + header_size) null (λ e. omega arith) in
    let back : b + header_size - header_size ≡ b = omega arith in
    let before : ltb b h.first_free ≡ false = le→ltb b h.first_free first in
    rw (given, back, before, found, linked) refl
