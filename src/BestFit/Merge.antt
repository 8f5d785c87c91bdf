-- ===== src/BestFit/Merge.antt =====
-- The search and the merges of `my_free` in malloc.c.
use sty_linux.Base.{
  ℕ, zero, suc, ◌+◌, ◌^◌, ◌<◌, ◌≡◌, ◌≢◌, refl, sym, ap, ◌∙◌, inl, inr, [], ◌∷◌, ◌++◌, append_assoc,
  arith, length, done, true, false, ne→==, lt→ltb, le→ltb, ◌==◌, if◌then◌else◌, Bool-cases, ==→eq,
  ==_self,
}
use mathlib.Core.Path.{subst}
use sty_linux.Base.Words.{add64, add64_exact}
use sty_linux.Memory.{Memory, Block, block, null, set_next, set_size, put_other}
use sty_linux.FreeList.{Blocks, Seg, Chain, Ordered, Apart, last_from}
use sty_linux.FreeList.Spans.{
  Ordered-split, Ordered-join, Ordered-bounds, Ordered-Apart, Apart-last,
}
use sty_linux.FreeList.Segments.{Seg-split, Seg-join}
use sty_linux.FreeList.Release.{absorb, release, release-skip, release-front, release-behind}
use sty_linux.BestFit.{merge_blocks, locate, merge_around}
use sty_linux.BestFit.Allocate.{put_twice, put_twice_other, put_twice-Seg}

-- The address of the first block, NULL if there is none.
abbrev pub first_of : Blocks → ℕ
first_of [] = null
first_of ((a, s) ∷ xs) = a

-- The loop stops between the blocks below the target and those above.
pub locate_lem :
    (f : ℕ) (m : Memory) (b s lo hi prev current : ℕ) (pre post : Blocks)
    → Ordered lo pre b
    → Ordered (b + s) post hi
    → Seg m current null (pre ++ post)
    → length (pre ++ post) < f
    → locate f m b prev current ≡ done (last_from prev pre, first_of post)
unfolding locate
locate_lem zero m b s lo hi prev current pre post below above seg fuel = absurd (omega arith)
locate_lem (suc f) m b s lo hi prev current [] [] below above seg fuel = rw seg
locate_lem (suc f) m b s lo hi prev current [] ((a, t) ∷ post) below above seg fuel =
    rw (seg.0, ne→== a null seg.1, le→ltb a b (omega arith))
locate_lem (suc f) m b s lo hi prev current ((a, t) ∷ pre) post below above seg fuel =
    rw (seg.0, ne→== a null seg.1, lt→ltb a b (omega (arith, Ordered-bounds (a + t) b pre below.2)))
      (locate_lem f m b s (a + t) hi a (m a).next pre post below.2 above seg.3 (omega arith))

-- Two blocks that touch become one.
pub merge_blocks-Seg :
    (m : Memory) (p a t c u lo hi : ℕ) (pre post : Blocks)
    → Ordered lo (pre ++ (a, t) ∷ (c, u) ∷ post) hi
    → hi < 2 ^ 64
    → a + t ≡ c
    → Chain m p (pre ++ (a, t) ∷ (c, u) ∷ post)
    → Chain (merge_blocks a c m) p (pre ++ (a, t + u) ∷ post)
unfolding merge_blocks
merge_blocks-Seg m p a t c u lo hi pre post o small touch chain =
    let (r, front, back) = Seg-split m p null pre ((a, t) ∷ (c, u) ∷ post) chain in
    let (before, after) = Ordered-split lo hi pre a t ((c, u) ∷ post) o in
    let adjacent : (a + (m a).size == c) ≡ true = rw (back.2, touch) (==_self c) in
    let m1 = set_size m a (add64 (m a).size (m c).size) in
    let joined : add64 (m a).size (m c).size ≡ t + u =
      rw (back.2, back.3.2)
        (add64_exact t u (omega (arith, Ordered-bounds (c + u) hi post after.2.2))) in
    let onward : (m1 c).next ≡ (m c).next =
      ap (λ (b : Block). b.next)
        (put_other m a c (block (add64 (m a).size (m c).size) (m a).next) (λ e. omega arith)) in
    let header : set_next m1 a (m1 c).next a ≡ block (t + u) (m c).next =
      put_twice m a (add64 (m a).size (m c).size) (m1 c).next
      ∙ (λ i. block (joined i) (onward i)) in
    let keep = put_twice-Seg m a (add64 (m a).size (m c).size) (m1 c).next in
    rw adjacent (
      Seg-join (set_next m1 a (m1 c).next) p r null pre ((a, t + u) ∷ post)
        (keep p r lo a pre before (Ordered-Apart a lo a pre before (inr (omega arith))) front)
        (
          back.0,
          back.1,
          ap (λ (b : Block). b.size) header,
          subst (λ z. Chain (set_next m1 a (m1 c).next) z post)
              (sym (ap (λ (b : Block). b.next) header))
              (keep (m c).next null (c + u) hi post after.2.2
                (Ordered-Apart a (c + u) hi post after.2.2 (inl (omega arith))) back.3.3),
        ))

pub merge_blocks-other : (m : Memory) (a c x : ℕ) → x ≢ a → merge_blocks a c m x ≡ m x
unfolding merge_blocks
merge_blocks-other m a c x ne = elim (Bool-cases (a + (m a).size == c)) [
  | inl e ↦ rw e (
      put_twice_other m a (add64 (m a).size (m c).size)
        (set_size m a (add64 (m a).size (m c).size) c).next x ne)
  | inr e ↦ rw e
]

-- The second merge of `my_free`.
abbrev pub merge_next : Memory → ℕ → ℕ → Memory
merge_next m b current =
    if current == null then m else if b + (m b).size == current then merge_blocks b current m else m

pub merge_next-Seg :
    (m : Memory) (p b s lo hi : ℕ) (pre post : Blocks)
    → Ordered lo (pre ++ (b, s) ∷ post) hi
    → hi < 2 ^ 64
    → Chain m p (pre ++ (b, s) ∷ post)
    → Chain (merge_next m b (first_of post)) p (pre ++ absorb b s post)
merge_next-Seg m p b s lo hi pre [] o small chain = chain
merge_next-Seg m p b s lo hi pre ((c, t) ∷ post) o small chain =
    let (r, front, back) = Seg-split m p null pre ((b, s) ∷ (c, t) ∷ post) chain in
    rw (ne→== c null back.3.1, back.2)
      (elim (Bool-cases (b + s == c)) [
        | inl e ↦ rw e (merge_blocks-Seg m p b s c t lo hi pre post o small (==→eq _ _ e) chain)
        | inr e ↦ rw e chain
      ])

pub merge_next-other : (m : Memory) (b c x : ℕ) → x ≢ b → merge_next m b c x ≡ m x
merge_next-other m b c x ne = elim (Bool-cases (c == null)) [
  | inl e ↦ rw e
  | inr e ↦ rw e (elim (Bool-cases (b + (m b).size == c)) [
    | inl j ↦ rw j (merge_blocks-other m b c x ne)
    | inr j ↦ rw j
  ])
]

-- Both merges, where there is a block before.
merge_around-behind :
    (m : Memory) (p b s a t lo hi : ℕ) (pre post : Blocks)
    → Ordered lo (pre ++ (a, t) ∷ (b, s) ∷ post) hi
    → 0 < lo
    → hi < 2 ^ 64
    → Chain m p (pre ++ (a, t) ∷ (b, s) ∷ post)
    → Chain (merge_around b a (first_of post) m) p (release b s (pre ++ (a, t) ∷ post))
unfolding merge_around
merge_around-behind m p b s a t lo hi pre post o pos small chain =
    let (before, after) = Ordered-split lo hi pre a t ((b, s) ∷ post) o in
    let bound = Ordered-bounds lo a pre before in
    let (r, front, back) = Seg-split m p null pre ((a, t) ∷ (b, s) ∷ post) chain in
    rw
      (
        release-skip b s lo a t pre post before (omega arith),
        release-behind b s a t hi post after.2.1 after.1 after.2.0 after.2.2,
        ne→== a null back.1,
        back.2,
      )
      (elim (Bool-cases (a + t == b)) [
        | inl e ↦
            let touch = ==→eq _ _ e in
            rw e (
              merge_next-Seg (merge_blocks a b m) p a (t + s) lo hi pre post
                (Ordered-join lo a hi pre ((a, t + s) ∷ post) before (
                  omega arith,
                  omega arith,
                  subst (λ z. Ordered z post hi) (omega arith) after.2.2,
                ))
                small (merge_blocks-Seg m p a t b s lo hi pre post o small touch chain))
        | inr e ↦
            let regroup = sym (append_assoc pre ((a, t) ∷ []) ((b, s) ∷ post)) in
            rw (e, ← append_assoc pre ((a, t) ∷ []) (absorb b s post))
              (merge_next-Seg m p b s lo hi (pre ++ (a, t) ∷ []) post
                (subst (λ l. Ordered lo l hi) regroup o) small (subst (Chain m p) regroup chain))
      ])

pub merge_around-other :
    (m : Memory) (b prev current x : ℕ) → x ≢ prev → x ≢ b → merge_around b prev current m x ≡ m x
unfolding merge_around
merge_around-other m b prev current x ne ne' =
    elim (Bool-cases (if prev == null then false else prev + (m prev).size == b)) [
      | inl e ↦ rw e (
          merge_next-other (merge_blocks prev b m) prev current x ne
          ∙ merge_blocks-other m prev b x ne)
      | inr e ↦ rw e (merge_next-other m b current x ne')
    ]

-- The last of some blocks.
pub snoc :
    (a t : ℕ) (xs : Blocks)
    → (pre : Blocks) × (c : ℕ × ℕ) × ((a, t) ∷ xs ≡ pre ++ c ∷ []) × (last_from a xs ≡ c.0)
snoc a t [] = ([], (a, t), refl, refl)
snoc a t ((b, u) ∷ xs) =
    let (pre, c, cut, last) = snoc b u xs in
    ((a, t) ∷ pre, c, ap (λ (l : Blocks). (a, t) ∷ l) cut, last)

-- Both merges, wherever the block stands.
pub merge_around-Seg :
    (m : Memory) (p b s lo hi : ℕ) (pre post : Blocks)
    → Ordered lo (pre ++ (b, s) ∷ post) hi
    → 0 < lo
    → hi < 2 ^ 64
    → Chain m p (pre ++ (b, s) ∷ post)
    → Chain (merge_around b (last_from null pre) (first_of post) m) p (release b s (pre ++ post))
unfolding merge_around
merge_around-Seg m p b s lo hi [] post o pos small chain =
    rw (release-front b s hi post o.1 o.2) (merge_next-Seg m p b s lo hi [] post o small chain)
merge_around-Seg m p b s lo hi ((a, t) ∷ xs) post o pos small chain =
    let (pre, c, cut, last) = snoc a t xs in
    let whole : (zs : Blocks) → (a, t) ∷ (xs ++ zs) ≡ pre ++ c ∷ zs =
      λ zs. ap (λ (l : Blocks). l ++ zs) cut ∙ append_assoc pre (c ∷ []) zs in
    rw (whole post, last)
      (merge_around-behind m p b s c.0 c.1 lo hi pre post
        (subst (λ l. Ordered lo l hi) (whole ((b, s) ∷ post)) o) pos small
        (subst (Chain m p) (whole ((b, s) ∷ post)) chain))

-- The merges write only at the block and at the block before.
pub merge_around-outside :
    (m : Memory) (b x current lo hi : ℕ) (pre : Blocks)
    → Ordered lo pre hi
    → Apart x pre
    → x ≢ b
    → merge_around b (last_from null pre) current m x ≡ m x
unfolding merge_around
merge_around-outside m b x current lo hi [] o out ne = merge_next-other m b current x ne
merge_around-outside m b x current lo hi ((a, t) ∷ xs) o out ne =
    merge_around-other m b (last_from a xs) current x (Apart-last x a t hi xs o.1 o.2 out) ne
