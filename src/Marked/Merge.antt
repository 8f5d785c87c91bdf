-- ===== src/Marked/Merge.antt =====
-- `merge_blocks` of savesolmalloc.c and its two calls in `my_free`, the block with the next one first, next
-- to those of vika4.
use sty_linux.Base.{
  ℕ, ◌+◌, ◌^◌, ◌<◌, ◌≡◌, refl, sym, ap, ◌∙◌, inl, inr, [], ◌∷◌, ◌++◌, append_assoc, arith, true,
  false, ne→==, ◌==◌, Bool-cases, ==→eq, ==_self, done,
}
use mathlib.Core.Path.{subst}
use sty_linux.Memory.{Memory, null}
use sty_linux.FreeList.{Blocks, Chain, Ordered}
use sty_linux.FreeList.Spans.{Ordered-split, Ordered-join, Ordered-bounds}
use sty_linux.FreeList.Segments.{Seg-split}
use sty_linux.FreeList.Release.{absorb, release, release-skip, release-behind, absorb-Ordered}
use sty_linux.BestFit.{merge_blocks}
use sty_linux.BestFit.Merge.{first_of, merge_next, merge_next-Seg, merge_blocks-Seg}
use sty_linux.Marked.{merge_marked}

-- Two blocks of which the first leads to the second.
pub merge_marked-merge_blocks :
    (b c : ℕ) (m : Memory) → (m b).next ≡ c → merge_marked b c m ≡ done (merge_blocks b c m)
unfolding merge_marked merge_blocks
merge_marked-merge_blocks b c m e =
    let linked : ((m b).next == c) ≡ true = rw e (==_self c) in
    elim (Bool-cases (b + (m b).size == c)) [ inl z ↦ rw (z, linked) | inr z ↦ rw z ]

-- Nothing is joined with NULL.
merge_blocks-merge_next : (b c : ℕ) (m : Memory) → 0 < b → merge_blocks b c m ≡ merge_next m b c
unfolding merge_blocks
merge_blocks-merge_next b c m pos = elim (Bool-cases (c == null)) [
  | inl e ↦ rw (e, ne→== (b + (m b).size) c (λ z. omega (arith, ==→eq c null e)))
  | inr e ↦ rw e (elim (Bool-cases (b + (m b).size == c)) [ inl z ↦ rw z | inr z ↦ rw z ])
]

pub merge_marked-merge_next :
    (b c : ℕ) (m : Memory) → 0 < b → (m b).next ≡ c → merge_marked b c m ≡ done (merge_next m b c)
merge_marked-merge_next b c m pos e =
    merge_marked-merge_blocks b c m e ∙ ap done (merge_blocks-merge_next b c m pos)

-- A block that absorbs what follows keeps its address; a block before it that touches it absorbs the same.
absorb-behind :
    (a t b s : ℕ) (post : Blocks)
    → a + t ≡ b
    → (u : ℕ) × (rest : Blocks) × (absorb b s post ≡ (b, u) ∷ rest)
      × (absorb a (t + s) post ≡ (a, t + u) ∷ rest)
absorb-behind a t b s [] e = (s, [], refl, refl)
absorb-behind a t b s ((c, v) ∷ post) e =
    let same : a + (t + s) ≡ b + s = omega arith in
    elim (Bool-cases (b + s == c)) [
      | inl z ↦ (
        s + v,
        post,
        rw z refl,
        rw (same, z)
            (ap (λ (k : ℕ). (a, k) ∷ post) (let k : t + s + v ≡ t + (s + v) = omega arith in k)),
      )
      | inr z ↦ (s, (c, v) ∷ post, rw z refl, rw (same, z) refl)
    ]

module _ (m : Memory) (p b s a t lo hi : ℕ) (pre post : Blocks)
    (o : Ordered lo (pre ++ (a, t) ∷ (b, s) ∷ post) hi) (pos : 0 < lo) (small : hi < 2 ^ 64)
    (chain : Chain m p (pre ++ (a, t) ∷ (b, s) ∷ post)) where
  abbrev pub first_merge : Memory
  first_merge = merge_next m b (first_of post)

  pub first_merge-Seg : Chain first_merge p (pre ++ (a, t) ∷ absorb b s post)
  first_merge-Seg =
      let regroup = sym (append_assoc pre ((a, t) ∷ []) ((b, s) ∷ post)) in
      subst (Chain first_merge p) (append_assoc pre ((a, t) ∷ []) (absorb b s post)) (
        merge_next-Seg m p b s lo hi (pre ++ (a, t) ∷ []) post
          (subst (λ l. Ordered lo l hi) regroup o) small (subst (Chain m p) regroup chain))

  pub second_merge-Seg : Chain (merge_blocks a b first_merge) p (release b s (pre ++ (a, t) ∷ post))
  unfolding merge_blocks
  second_merge-Seg =
      let (before, after) = Ordered-split lo hi pre a t ((b, s) ∷ post) o in
      let bound = Ordered-bounds lo a pre before in
      let (r, front, back) =
        Seg-split first_merge p null pre ((a, t) ∷ absorb b s post) first_merge-Seg in
      rw
        (
          release-skip b s lo a t pre post before (omega arith),
          release-behind b s a t hi post after.2.1 after.1 after.2.0 after.2.2,
        )
        (elim (Bool-cases (a + t == b)) [
          | inl e ↦
              let touch = ==→eq _ _ e in
              let (u, rest, joined, whole) = absorb-behind a t b s post touch in
              rw (e, whole)
                (merge_blocks-Seg first_merge p a t b u lo hi pre rest
                  (subst (λ l. Ordered lo (pre ++ (a, t) ∷ l) hi) joined
                    (Ordered-join lo a hi pre ((a, t) ∷ absorb b s post) before (
                      omega arith,
                      after.1,
                      absorb-Ordered b s (a + t) hi post after.2.0 after.2.1 after.2.2,
                    )))
                  small touch
                  (subst (λ l. Chain first_merge p (pre ++ (a, t) ∷ l)) joined first_merge-Seg))
          | inr e ↦
              let apart : (a + (first_merge a).size == b) ≡ false = rw back.2 e in
              rw (e, apart) first_merge-Seg
        ])
