-- ===== src/Copy/Errors.antt =====
-- How the loop of copy.c goes on when a call fails or writes too little.
use sty_linux.Base.{
  ℕ, zero, suc, ◌+◌, ◌≤◌, ◌<◌, ◌≡◌, ◌≢◌, refl, sym, ap, false, List, [], ◌∷◌, ◌++◌, append_assoc,
  append-nil, length, arith, pos, negsuc, Bool-cases, inl, inr,
}
use mathlib.Core.Path.{subst}
use sty_linux.Copy.{
  succeeds, short, fails, Event, block, read_error, File, write, seek_by, first, all_zero_bytes,
  copy_loop,
}
use sty_linux.Copy.Content.{
  contents, Smooth, Failed, gap_after, Holds, seek_by-Holds, write-Holds, copy_loop-Holds,
}

-- A short write is not noticed: the loop goes on, and the bytes that were not written are missing from
-- the destination, while the result is still 0.
pub copy_loop-short :
    (n : ℕ) (bs : List ℕ) (es : List Event) (f : File) (gap : ℕ) (read : List ℕ)
    → Holds f gap read
    → all_zero_bytes bs ≡ false
    → 1 ≤ n
    → n < length bs
    → Smooth es
    → (f' : File) × (copy_loop (block bs (short n) ∷ es) f ≡ (pos 0, f'))
      × Holds f' (gap_after 0 es) ((read ++ first n bs) ++ contents es)
      × (length (first n bs) < length bs)
unfolding copy_loop
copy_loop-short n bs es f gap read h e some_n few smooth =
    let len = length-first n bs (omega arith) in
    let some_bytes : first n bs ≢ [] = λ z.
      let none_left : length (first n bs) ≡ 0 = ap (λ (x : List ℕ). length x) z in
      omega (arith, none_left, len) in
    let (f', runs, holds, mode) =
      copy_loop-Holds es (write (first n bs) f) 0 (read ++ first n bs)
        (write-Holds (first n bs) f gap read h some_bytes) smooth in
    (f', rw e runs, holds, omega (arith, len))
  where
    length-first : (k : ℕ) (xs : List ℕ) → k ≤ length xs → length (first k xs) ≡ k
    length-first zero xs le = refl
    length-first (suc k) [] le = absurd (omega arith)
    length-first (suc k) (x ∷ xs) le = ap suc (length-first k xs (omega arith))

-- An error of a call stops the loop with -1; the destination holds what was read before.
pub copy_loop-Failed :
    (es : List Event) (bad : Event) (rest : List Event) (f : File) (gap : ℕ) (read : List ℕ)
    → Holds f gap read
    → Smooth es
    → Failed bad
    → (f' : File) × (copy_loop (es ++ bad ∷ rest) f ≡ (negsuc 0, f'))
      × Holds f' (gap_after gap es) (read ++ contents es)
unfolding copy_loop
copy_loop-Failed [] (block bs fails) rest f gap read h smooth bad =
    (f, refl, subst (λ z. Holds f gap z) (sym (append-nil read)) h)
copy_loop-Failed [] (block bs succeeds) rest f gap read h smooth bad = absurd bad
copy_loop-Failed [] (block bs (short n)) rest f gap read h smooth bad = absurd bad
copy_loop-Failed [] read_error rest f gap read h smooth bad =
    (f, refl, subst (λ z. Holds f gap z) (sym (append-nil read)) h)
copy_loop-Failed (block bs fails ∷ es) x rest f gap read h smooth bad =
    (let e = smooth.1 in absurd (cc))
copy_loop-Failed (block bs (short n) ∷ es) x rest f gap read h smooth bad =
    (let e = smooth.1 in absurd (cc))
copy_loop-Failed (read_error ∷ es) x rest f gap read h smooth bad = absurd smooth
copy_loop-Failed (block bs succeeds ∷ es) x rest f gap read h smooth bad =
    elim (Bool-cases (all_zero_bytes bs)) [
      | inl e ↦
          let (f', runs, holds) =
            copy_loop-Failed es x rest (seek_by (length bs) f) (gap + length bs) (read ++ bs)
              (seek_by-Holds bs f gap read h e) smooth.2 bad in
          (
            f',
            rw (e, copy_loop) runs,
            rw e (
                subst (λ z. Holds f' (gap_after (gap + length bs) es) z)
                  (append_assoc read bs (contents es)) holds),
          )
      | inr e ↦
          let (f', runs, holds) =
            copy_loop-Failed es x rest (write bs f) 0 (read ++ bs)
              (write-Holds bs f gap read h smooth.0) smooth.2 bad in
          (
            f',
            rw (e, copy_loop) runs,
            rw e (
                subst (λ z. Holds f' (gap_after 0 es) z) (append_assoc read bs (contents es))
                  holds),
          )
    ]
