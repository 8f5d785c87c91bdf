-- ===== src/MemoryDump/Words.antt =====
-- What print_null_terminated_strings_in_range prints: the longest runs of bytes that are not null.
use sty_linux.Base.{
  ℕ, zero, suc, ◌+◌, ◌-◌, ◌≤◌, ◌<◌, ◌≡◌, refl, sym, ap, ◌∙◌, ◌==◌, ltb, leb, if◌then◌else◌, Bool,
  true, false, [], ◌∷◌, ◌++◌, append_assoc, append-nil, done, arith, Bool-cases, inl, inr, ◌⊎◌,
  lt→ltb, le→ltb, ==→eq, ==→ne,
}
use sty_linux.MemoryDump.{Text, Dump, Lines, slice, skip_text, skip_nulls, range_loop, print_range}

-- A word is kept if it is not empty.
abbrev pub flush : Text → Lines
flush [] = []
flush (c ∷ cs) = (c ∷ cs) ∷ []

-- The words of a text that null bytes divide, `word` being what has been seen of the first.
abbrev pub words_from : (word text : Text) → Lines
words_from word [] = flush word
words_from word (b ∷ bs) =
    if b == 0 then flush word ++ words_from [] bs else words_from (word ++ b ∷ []) bs

abbrev pub words : Text → Lines
words text = words_from [] text

module _ (d : Dump) where
  -- The loop over a text stops at `at`, at the end or at a null byte; the bytes before belong to the word.
  record TextEnd (word : Text) (end n pos : ℕ) : Type 0 where
    at : ℕ
    left : ℕ
    reach : at + left ≡ end
    behind : pos ≤ at
    stops : (left ≡ 0) ⊎ (d.byte at ≡ 0)
    same :
        words_from word (slice d n pos)
        ≡ words_from (word ++ slice d (at - pos) pos) (slice d left at)

  none_taken :
      (word : Text) (end n pos : ℕ)
      → pos + n ≡ end
      → (n ≡ 0) ⊎ (d.byte pos ≡ 0)
      → TextEnd word end n pos
  none_taken word end n pos e stop = record {
    at = pos;
    left = n;
    reach = e;
    behind = omega arith;
    stops = stop;
    same =
        ap (λ w. words_from w (slice d n pos))
          (sym (append-nil word)
            ∙ ap (λ z. word ++ slice d z pos) (let z : 0 ≡ pos - pos = omega arith in z));
  }

  skip_text-TextEnd :
      (f end n pos : ℕ) (word : Text)
      → n < f
      → pos + n ≡ end
      → (e : TextEnd word end n pos) × (skip_text f d end pos ≡ done e.at)
  unfolding skip_text none_taken
  skip_text-TextEnd zero end n pos word fuel e = absurd (omega arith)
  skip_text-TextEnd (suc f) end zero pos word fuel e =
      (none_taken word end 0 pos e (inl refl), rw (le→ltb pos end (omega arith)) refl)
  skip_text-TextEnd (suc f) end (suc n) pos word fuel e =
      let inside = lt→ltb pos end (omega arith) in
      elim (Bool-cases (d.byte pos == 0)) [
        | inl z ↦
            (none_taken word end (suc n) pos e (inr (==→eq (d.byte pos) 0 z)), rw (inside, z) refl)
        | inr z ↦
            let b = d.byte pos in
            let (t, runs) =
              skip_text-TextEnd f end n (suc pos) (word ++ b ∷ []) (omega arith) (omega arith) in
            let longer : suc (t.at - suc pos) ≡ t.at - pos = (let le = t.behind in omega arith) in
            (
              record {
                at = t.at;
                left = t.left;
                reach = t.reach;
                behind = (let le = t.behind in omega arith);
                stops = t.stops;
                same =
                    rw z t.same
                    ∙ ap (λ w. words_from w (slice d t.left t.at))
                        (append_assoc word (b ∷ []) (slice d (t.at - suc pos) (suc pos))
                          ∙ ap (λ k. word ++ slice d k pos) longer);
              },
              rw (inside, z) runs,
            )
      ]

  -- The loop over null bytes leaves the words.
  skip_nulls-words :
      (f end n pos : ℕ)
      → n < f
      → pos + n ≡ end
      → (at : ℕ) × (left : ℕ) × (skip_nulls f d end pos ≡ done at)
        × (at + left ≡ end)
        × (pos ≤ at)
        × (d.byte pos ≡ 0 → 0 < n → pos < at)
        × (words (slice d n pos) ≡ words (slice d left at))
  unfolding skip_nulls
  skip_nulls-words zero end n pos fuel e = absurd (omega arith)
  skip_nulls-words (suc f) end zero pos fuel e =
      (pos, 0, rw (le→ltb pos end (omega arith)) refl, e, omega arith, (λ z p. omega arith), refl)
  skip_nulls-words (suc f) end (suc n) pos fuel e =
      let inside = lt→ltb pos end (omega arith) in
      elim (Bool-cases (d.byte pos == 0)) [
        | inl z ↦
            let (at, left, runs, reach, le, more, same) =
              skip_nulls-words f end n (suc pos) (omega arith) (omega arith) in
            (at, left, rw (inside, z) runs, reach, omega arith, (λ z' p. omega arith), rw z same)
        | inr z ↦ (
          pos,
          suc n,
          rw (inside, z) refl,
          e,
          omega arith,
          (λ z' p. absurd (==→ne (d.byte pos) 0 z z')),
          refl,
        )
      ]

  -- A word that ends where the text does, or at a null byte, is not continued.
  word_ends :
      (word : Text) (left at : ℕ)
      → (left ≡ 0) ⊎ (d.byte at ≡ 0)
      → words_from word (slice d left at) ≡ flush word ++ words (slice d left at)
  word_ends word zero at stop = sym (append-nil (flush word))
  word_ends word (suc left) at (inl e) = absurd (omega arith)
  word_ends word (suc left) at (inr e) = rw e refl

  flush-slice : (k pos : ℕ) → 0 < k → flush (slice d k pos) ≡ slice d k pos ∷ []
  flush-slice zero pos h = absurd (omega arith)
  flush-slice (suc k) pos h = refl

  module _ (has_memory : ℕ → Bool) (memory : (n : ℕ) → has_memory n ≡ true) where
    range_loop-words :
        (f end n cur : ℕ) (out : Lines)
        → n < f
        → cur + n ≡ end
        → end ≤ d.size
        → range_loop has_memory f d end cur out ≡ done (out ++ words (slice d n cur))
    unfolding range_loop
    range_loop-words zero end n cur out fuel e within = absurd (omega arith)
    range_loop-words (suc f) end zero cur out fuel e within =
        rw (le→ltb cur end (omega arith)) (ap done (sym (append-nil out)))
    range_loop-words (suc f) end (suc n) cur out fuel e within =
        let inside = lt→ltb cur end (omega arith) in
        let (t, runs) = skip_text-TextEnd (d.size + 1) end (suc n) cur [] (omega arith) e in
        let reach = t.reach in
        let behind = t.behind in
        let (next, left, skips, reach', le, more, rest) =
          skip_nulls-words (d.size + 1) end t.left t.at (omega arith) t.reach in
        let word = slice d (t.at - cur) cur in
        let split : words (slice d (suc n) cur) ≡ flush word ++ words (slice d left next) =
          t.same ∙ word_ends word t.left t.at t.stops ∙ ap (λ z. flush word ++ z) rest in
        elim (Bool-cases (ltb cur t.at)) [
          | inl longer ↦
              let some_bytes : 0 < t.at - cur = ground arith in
              let out' = out ++ word ∷ [] in
              let again = range_loop-words f end left next out' (ground arith) reach' within in
              let all : out' ++ words (slice d left next) ≡ out ++ words (slice d (suc n) cur) =
                append_assoc out (word ∷ []) (words (slice d left next))
                ∙ ap (λ z. out ++ (z ++ words (slice d left next)))
                    (sym (flush-slice (t.at - cur) cur some_bytes))
                ∙ ap (λ z. out ++ z) (sym split) in
              rw (inside, runs, longer, memory (t.at - cur + 1), skips) (again ∙ ap done all)
          | inr empty ↦
              let here : t.at ≡ cur = ground arith in
              let moves : cur < next = elim t.stops [
                | inl z ↦ absurd (omega (arith, here))
                | inr z ↦ omega (arith, here, more z (omega (arith, here)))
              ] in
              let gone : t.at - cur ≡ 0 = omega (arith, here) in
              let none_left : flush word ≡ [] = ap (λ z. flush (slice d z cur)) gone in
              let again = range_loop-words f end left next out (omega arith) reach' within in
              let all : out ++ words (slice d left next) ≡ out ++ words (slice d (suc n) cur) =
                ap (λ z. out ++ (z ++ words (slice d left next))) (sym none_left)
                ∙ ap (λ z. out ++ z) (sym split) in
              rw (inside, runs, empty, skips) (again ∙ ap done all)
        ]

    -- If malloc never fails, print_null_terminated_strings_in_range prints, for a range that is not empty
    -- and inside the dump, the words that null bytes divide the range into, those that are empty left out,
    -- in order.
    pub print_range-words :
        (start n : ℕ)
        → 0 < n
        → start + n ≤ d.size
        → print_range has_memory d start (start + n) ≡ done (words (slice d n start))
    unfolding print_range
    print_range-words start n some_bytes within =
        let below : leb d.size start ≡ false = ground arith in
        let inside : ltb d.size (start + n) ≡ false = ground arith in
        let ordered : leb (start + n) start ≡ false = ground arith in
        rw (below, inside, ordered)
          (range_loop-words (d.size + 1) (start + n) n start [] (omega arith) refl within)
