-- ===== src/BestFit/Search.antt =====
-- The search of `my_malloc` in malloc.c: the first of the smallest free blocks that are large enough.
use sty_linux.Base.{
  ℕ, zero, suc, ◌≤◌, ◌<◌, ◌≡◌, ◌≢◌, refl, ap, ◌∙◌, ◌⊎◌, inl, inr, [], ◌∷◌, ◌++◌, append_assoc,
  append-nil, arith, leb, ltb, if◌then◌else◌, leb→le, ltb→lt, ltb→le, ne→==, Bool-cases, All,
  All-append, All-mono, length, done,
}
use sty_linux.Memory.{Memory, null}
use sty_linux.FreeList.{Blocks, Seg, last_from}
use sty_linux.BestFit.{Link, head, link_to, better, search_best}

-- The block at `b` among `xs` is large enough, none that is large enough is smaller, and all that
-- stand before it are larger or too small. `link` is the pointer that leads to it.
pub record Best (m : Memory) (want : ℕ) (xs : Blocks) (b : ℕ) (link : Link) : Type 0 where
  pub before : Blocks
  pub after : Blocks
  pub size : ℕ
  pub cut : xs ≡ before ++ (b, size) ∷ after
  pub exists : b ≢ null
  pub sized : (m b).size ≡ size
  pub fits : want ≤ size
  pub least : All (λ c. want ≤ c.1 → size ≤ c.1) xs
  pub earliest : All (λ c. want ≤ c.1 → size < c.1) before
  pub linked : link ≡ link_to (last_from null before)

-- What the search says of the blocks `xs`: none is large enough, or the best one.
abbrev pub Searched : Memory → ℕ → Blocks → ℕ × Link → Type 0
Searched m want xs (b, link) = ((b ≡ null) × All (λ c. c.1 < want) xs) ⊎ Best m want xs b link

last-append : (p a s : ℕ) (xs : Blocks) → last_from p (xs ++ (a, s) ∷ []) ≡ a
last-append p a s [] = refl
last-append p a s ((b, t) ∷ xs) = last-append b a s xs

module _ (m : Memory) (want a s : ℕ) (ys : Blocks) (exists : a ≢ null)
    (sized : (m a).size ≡ s) where
  -- The new block is taken where it is large enough and smaller than those before.
  take_new :
      want ≤ s
      → All (λ c. want ≤ c.1 → s < c.1) ys
      → Best m want (ys ++ (a, s) ∷ []) a (link_to (last_from null ys))
  take_new fits larger = record {
    before = ys;
    after = [];
    size = s;
    cut = refl;
    exists = exists;
    sized = sized;
    fits = fits;
    least =
        All-append _ ys ((a, s) ∷ [])
          (All-mono (λ c. want ≤ c.1 → s < c.1) (λ c. want ≤ c.1 → s ≤ c.1)
            (λ c k w. omega (arith, k w)) ys larger)
          ((λ w. omega arith), tt);
    earliest = larger;
    linked = refl;
  }

  keep_old :
      {b : ℕ} {link : Link} (old : Best m want ys b link)
      → (want ≤ s → old.size ≤ s)
      → Best m want (ys ++ (a, s) ∷ []) b link
  keep_old {b} old smaller = record {
    before = old.before;
    after = old.after ++ (a, s) ∷ [];
    size = old.size;
    cut =
        ap (λ (l : Blocks). l ++ (a, s) ∷ []) old.cut
        ∙ append_assoc old.before ((b, old.size) ∷ old.after) ((a, s) ∷ []);
    exists = old.exists;
    sized = old.sized;
    fits = old.fits;
    least = All-append _ ys ((a, s) ∷ []) old.least (smaller, tt);
    earliest = old.earliest;
    linked = old.linked;
  }

  step :
      (best : ℕ) (link : Link)
      → Searched m want ys (best, link)
      → let found = better m want best a in
        Searched m want
          (ys ++ (a, s) ∷ [])
          (if found then a else best, if found then link_to (last_from null ys) else link)
  step best link (inl (none_yet, small)) =
      rw (none_yet, sized)
        (elim (Bool-cases (leb want s)) [
          | inl e ↦ rw e (
              inr (
                take_new (leb→le _ _ e) (
                  All-mono (λ c. c.1 < want) (λ c. want ≤ c.1 → s < c.1)
                    (λ c k w. absurd (omega arith)) ys small)))
          | inr e ↦ rw e (inl (refl, All-append _ ys ((a, s) ∷ []) small (ground arith, tt)))
        ])
  step best link (inr old) =
      rw (sized, old.sized, ne→== best null old.exists)
        (elim (Bool-cases (leb want s)) [
          | inl e ↦ elim (Bool-cases (ltb s old.size)) [
            | inl l ↦
                rw (e, l)
                  (inr (
                    take_new (leb→le _ _ e) (
                      All-mono (λ c. want ≤ c.1 → old.size ≤ c.1) (λ c. want ≤ c.1 → s < c.1)
                        (λ c k w. omega (arith, k w, ltb→lt _ _ l)) ys old.least)))
            | inr g ↦ rw (e, g) (inr (keep_old old (λ _. ltb→le _ _ g)))
          ]
          | inr e ↦ rw e (inr (keep_old old (λ w. ground arith)))
        ])

module _ (m : Memory) (want : ℕ) where
  search_best-Searched :
      (f : ℕ) (ys xs : Blocks) (cur best : ℕ) (link : Link)
      → Seg m cur null xs
      → length xs < f
      → Searched m want ys (best, link)
      → (r : ℕ × Link) × (search_best f m want (last_from null ys) cur best link ≡ done r)
        × Searched m want (ys ++ xs) r
  unfolding search_best
  search_best-Searched zero ys xs cur best link seg fuel seen = absurd (omega arith)
  search_best-Searched (suc f) ys [] cur best link seg fuel seen =
      ((best, link), rw seg, rw append-nil seen)
  search_best-Searched (suc f) ys ((a, s) ∷ xs) cur best link seg fuel seen =
      let found = better m want best a in
      let (r, run, result) =
        search_best-Searched f (ys ++ (a, s) ∷ []) xs (m a).next (if found then a else best)
          (if found then link_to (last_from null ys) else link) seg.3 (omega arith)
          (step m want a s ys seg.1 seg.2 best link seen) in
      (
        r,
        rw (seg.0, ne→== a null seg.1) (rw (last-append null a s ys) at run),
        rw append_assoc at result,
      )

  -- Over a well-formed list the search ends within its rounds, and finds what it should.
  pub search_best_lem :
      (f : ℕ) (xs : Blocks) (first : ℕ)
      → Seg m first null xs
      → length xs < f
      → (r : ℕ × Link) × (search_best f m want null first null head ≡ done r) × Searched m want xs r
  search_best_lem f xs first seg fuel =
      search_best-Searched f [] xs first null head seg fuel (inl (refl, tt))
