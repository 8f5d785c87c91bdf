-- ===== src/Copy/Solution/Writes.antt =====
-- `doCopy` of sol.c, short writes included.
use sty_linux.Base.{
  ℕ, zero, suc, ◌+◌, ◌≤◌, ◌≡◌, ◌≢◌, refl, sym, ap, ◌∙◌, if◌then◌else◌, Bool, true, false, List, [],
  ◌∷◌, ◌++◌, append_assoc, append-nil, length, arith, some, pos, done, Bool-cases, inl, inr,
}
use mathlib.Core.Path.{subst}
use sty_linux.Copy.{File, Process, write, seek_by, first, all_zero_bytes, cleanup, permissions}
use sty_linux.Copy.Content.{Holds, blanks, seek_by-Holds, write-Holds}
use sty_linux.Copy.Solution.{
  Written, wrote, failed, Event, block, read_error, drop, write_all, copy_all, Calls, open_file,
  copy_file,
}

-- The calls of `write` put all the bytes: each puts some, and none more than it is given.
abbrev pub Enough : List Written → List ℕ → Type 0
Enough ws [] = Unit
Enough [] (b ∷ bs) = ⊥
Enough (failed ∷ ws) (b ∷ bs) = ⊥
Enough (wrote n ∷ ws) (b ∷ bs) = (1 ≤ n) × (n ≤ length (b ∷ bs)) × Enough ws (drop n (b ∷ bs))

-- The calls for a block: `lseek` if it is zeros, `write` if not.
abbrev pub Served : Bool → Bool → List Written → List ℕ → Type 0
Served true seeks ws bs = seeks ≡ true
Served false seeks ws bs = Enough ws bs

-- No call fails, and no block is empty.
abbrev pub Steady : List Event → Type 0
Steady [] = Unit
Steady (block bs seeks ws ∷ es) = (bs ≢ []) × Served (all_zero_bytes bs) seeks ws bs × Steady es
Steady (read_error ∷ es) = ⊥

-- The bytes that were read.
abbrev pub read_bytes : List Event → List ℕ
read_bytes [] = []
read_bytes (block bs seeks ws ∷ es) = bs ++ read_bytes es
read_bytes (read_error ∷ es) = read_bytes es

-- The length of the blocks of zeros at the end, after a gap.
abbrev pub zeros_after : ℕ → List Event → ℕ
zeros_after gap [] = gap
zeros_after gap (block bs seeks ws ∷ es) =
    zeros_after (if all_zero_bytes bs then gap + length bs else 0) es
zeros_after gap (read_error ∷ es) = zeros_after gap es

first-drop : (n : ℕ) (bs : List ℕ) → first n bs ++ drop n bs ≡ bs
first-drop zero bs = refl
first-drop (suc n) [] = refl
first-drop (suc n) (b ∷ bs) = ap (λ z. b ∷ z) (first-drop n bs)

first-ne-nil : (n b : ℕ) (bs : List ℕ) → 1 ≤ n → first n (b ∷ bs) ≢ []
first-ne-nil zero b bs h = absurd (omega arith)
first-ne-nil (suc n) b bs h = λ e. cc

-- Behind the end of the destination, which has no gap then.
write_left-Holds :
    (ws : List Written) (bs : List ℕ) (f : File) (read : List ℕ)
    → Holds f 0 read
    → Enough ws bs
    → (f' : File) × (write_all ws bs f ≡ done (true, f'))
      × Holds f' 0 (read ++ bs)
      × (f'.mode ≡ f.mode)
unfolding write_all
write_left-Holds ws [] f read h enough =
    (f, refl, subst (Holds f 0) (sym (append-nil read)) h, refl)
write_left-Holds [] (b ∷ bs) f read h enough = absurd enough
write_left-Holds (failed ∷ ws) (b ∷ bs) f read h enough = absurd enough
write_left-Holds (wrote n ∷ ws) (b ∷ bs) f read h enough =
    let part = first n (b ∷ bs) in
    let left = drop n (b ∷ bs) in
    let put = write-Holds part f 0 read h (first-ne-nil n b bs enough.0) in
    let (f', runs, holds, mode) =
      write_left-Holds ws left (write part f) (read ++ part) put enough.2 in
    (
      f',
      runs,
      subst (Holds f' 0) (append_assoc read part left ∙ ap (λ z. read ++ z) (first-drop n (b ∷ bs)))
          holds,
      mode,
    )

-- The loop round `write` puts the whole block, however the calls divide it.
write_all-Holds :
    (ws : List Written) (bs : List ℕ) (f : File) (gap : ℕ) (read : List ℕ)
    → Holds f gap read
    → bs ≢ []
    → Enough ws bs
    → (f' : File) × (write_all ws bs f ≡ done (true, f'))
      × Holds f' 0 (read ++ bs)
      × (f'.mode ≡ f.mode)
unfolding write_all
write_all-Holds ws [] f gap read h ne enough = absurd (ne refl)
write_all-Holds [] (b ∷ bs) f gap read h ne enough = absurd enough
write_all-Holds (failed ∷ ws) (b ∷ bs) f gap read h ne enough = absurd enough
write_all-Holds (wrote n ∷ ws) (b ∷ bs) f gap read h ne enough =
    let part = first n (b ∷ bs) in
    let left = drop n (b ∷ bs) in
    let put = write-Holds part f gap read h (first-ne-nil n b bs enough.0) in
    let (f', runs, holds, mode) =
      write_left-Holds ws left (write part f) (read ++ part) put enough.2 in
    (
      f',
      runs,
      subst (Holds f' 0) (append_assoc read part left ∙ ap (λ z. read ++ z) (first-drop n (b ∷ bs)))
          holds,
      mode,
    )

copy_all-Holds :
    (es : List Event) (f : File) (gap : ℕ) (read : List ℕ)
    → Holds f gap read
    → Steady es
    → (f' : File) × (copy_all es f ≡ done (pos 0, f'))
      × Holds f' (zeros_after gap es) (read ++ read_bytes es)
      × (f'.mode ≡ f.mode)
unfolding copy_all
copy_all-Holds [] f gap read h steady =
    (f, refl, subst (Holds f gap) (sym (append-nil read)) h, refl)
copy_all-Holds (read_error ∷ es) f gap read h steady = absurd steady
copy_all-Holds (block bs seeks ws ∷ es) f gap read h (ne, served, steady) =
    elim (Bool-cases (all_zero_bytes bs)) [
      | inl e ↦
          let ok : seeks ≡ true = subst (λ z. Served z seeks ws bs) e served in
          let (f', runs, holds, mode) =
            copy_all-Holds es (seek_by (length bs) f) (gap + length bs) (read ++ bs)
              (seek_by-Holds bs f gap read h e) steady in
          (
            f',
            rw (e, ok) runs,
            rw e (
                subst (Holds f' (zeros_after (gap + length bs) es))
                  (append_assoc read bs (read_bytes es)) holds),
            mode,
          )
      | inr e ↦
          let enough : Enough ws bs = subst (λ z. Served z seeks ws bs) e served in
          let (g, writes, put, kept) = write_all-Holds ws bs f gap read h ne enough in
          let (f', runs, holds, mode) = copy_all-Holds es g 0 (read ++ bs) put steady in
          (
            f',
            rw (e, writes) runs,
            rw e (subst (Holds f' (zeros_after 0 es)) (append_assoc read bs (read_bytes es)) holds),
            mode ∙ kept,
          )
    ]

-- The system does its part.
pub record Serves (sys : Calls) (mode : ℕ) : Type 0 where
  pub opens : sys.src_opens ≡ true
  pub stats : sys.src_mode ≡ some mode
  pub creates : sys.dst_opens ≡ true
  pub allocates : sys.has_memory ≡ true
  pub steady : Steady sys.events

-- In sol.c, if no call fails and each call of write puts some bytes, however few, and all are put in the
-- end, doCopy returns 0 and releases what it has opened; the source is what the destination holds
-- followed by zeros for the blocks of zeros at the end, and the destination has the mode of the source
-- if fchmod works, and mode 0666 less the umask if not.
pub copy_file-Holds :
    (sys : Calls) (mode : ℕ) (p : Process)
    → Serves sys mode
    → (f : File) × (p' : Process) × (copy_file false sys p ≡ done (pos 0, p'))
      × (p'.dst ≡ some f)
      × (f.bytes ++ blanks (zeros_after 0 sys.events) ≡ read_bytes sys.events)
      × (f.mode ≡ (if sys.chmod_works then mode else permissions 9 438 p.umask))
      × (p'.descriptors ≡ p.descriptors)
      × (p'.buffers ≡ p.buffers)
unfolding copy_file
copy_file-Holds sys mode p serves =
    let (f, runs, holds, kept) =
      copy_all-Holds sys.events (open_file p.umask) 0 [] (record { offset = refl; same = refl })
        serves.steady in
    let ended = λ (g : File). cleanup (record {
      descriptors = p.descriptors + 1 + 1;
      buffers = p.buffers + 1;
      umask = p.umask;
      dst = some g;
    }) in
    elim (Bool-cases sys.chmod_works) [
      | inl e ↦ (
        record f { mode = mode },
        ended (record f { mode = mode }),
        rw (serves.opens, serves.stats, serves.creates, serves.allocates, runs, e) refl,
        refl,
        holds.same,
        rw e refl,
        omega arith,
        omega arith,
      )
      | inr e ↦ (
        f,
        ended f,
        rw (serves.opens, serves.stats, serves.creates, serves.allocates, runs, e) refl,
        refl,
        holds.same,
        rw e kept,
        omega arith,
        omega arith,
      )
    ]
