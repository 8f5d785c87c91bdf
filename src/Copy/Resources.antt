-- ===== src/Copy/Resources.antt =====
-- `doCopy` of copy.c as a whole.
use sty_linux.Base.{
  ℕ, ◌+◌, ◌≤◌, ◌≡◌, refl, sym, ap, if◌then◌else◌, Bool, true, false, List, [], ◌∷◌, ◌++◌, length,
  length-append, arith, some, pos, Bool-cases, inl, inr,
}
use mathlib.Core.Path.{subst}
use sty_linux.Copy.{
  succeeds, Event, block, read_error, File, Process, System, all_zero_bytes, new_file, permissions,
  do_copy, cleanup,
}
use sty_linux.Copy.Content.{contents, Smooth, gap_after, blanks, length-blanks, copy_loop-Holds}

-- However doCopy ends, every descriptor that it opens is closed and its buffer is freed.
pub do_copy-released :
    (args_null : Bool) (sys : System) (p : Process)
    → ((do_copy args_null sys p).1.descriptors ≡ p.descriptors)
      × ((do_copy args_null sys p).1.buffers ≡ p.buffers)
unfolding do_copy
do_copy-released args_null sys p = (ground arith, ground arith)

-- The process after `cleanup`, with this destination.
abbrev finished : Process → File → Process
finished p f = cleanup (record {
  descriptors = p.descriptors + 1 + 1;
  buffers = p.buffers + 1;
  umask = p.umask;
  dst = some f;
})

-- The system does its part.
pub record Works (sys : System) (mode : ℕ) : Type 0 where
  pub opens : sys.src_opens ≡ true
  pub stats : sys.src_mode ≡ some mode
  pub creates : sys.dst_opens ≡ true
  pub allocates : sys.has_memory ≡ true
  pub smooth : Smooth sys.events

-- If no call fails or writes less than it is given, doCopy returns 0, and the source is what the
-- destination holds followed by zeros for the blocks of zeros at the end, which are not in it. The
-- destination has the mode of the source if fchmod works, and mode 0644 less the umask if not.
pub do_copy-Holds :
    (sys : System) (mode : ℕ) (p : Process)
    → Works sys mode
    → (f : File) × (p' : Process) × (do_copy false sys p ≡ (pos 0, p'))
      × (p'.dst ≡ some f)
      × (f.bytes ++ blanks (gap_after 0 sys.events) ≡ contents sys.events)
      × (f.mode ≡ (if sys.chmod_works then mode else permissions 9 420 p.umask))
unfolding do_copy
do_copy-Holds sys mode p works =
    let (f, runs, holds, kept) =
      copy_loop-Holds sys.events (new_file p.umask) 0 [] (record { offset = refl; same = refl })
        works.smooth in
    elim (Bool-cases sys.chmod_works) [
      | inl e ↦ (
        record f { mode = mode },
        finished p (record f { mode = mode }),
        rw (works.opens, works.stats, works.creates, works.allocates, runs, e) refl,
        refl,
        holds.same,
        rw e refl,
      )
      | inr e ↦ (
        f,
        finished p f,
        rw (works.opens, works.stats, works.creates, works.allocates, runs, e) refl,
        refl,
        holds.same,
        rw e kept,
      )
    ]

gap_after-last :
    (gap : ℕ) (es : List Event) (bs : List ℕ)
    → all_zero_bytes bs ≡ true
    → length bs ≤ gap_after gap (es ++ block bs succeeds ∷ [])
gap_after-last gap [] bs e = rw e (omega arith)
gap_after-last gap (block cs o ∷ es) bs e =
    gap_after-last (if all_zero_bytes cs then gap + length cs else 0) es bs e
gap_after-last gap (read_error ∷ es) bs e = gap_after-last gap es bs e

-- A source whose last block is zeros is copied to a shorter file, though doCopy returns 0, if no call
-- fails or writes less than it is given: the destination lacks at least that block.
pub do_copy-truncated :
    (sys : System) (mode : ℕ) (p : Process) (es : List Event) (bs : List ℕ)
    → Works sys mode
    → sys.events ≡ es ++ block bs succeeds ∷ []
    → all_zero_bytes bs ≡ true
    → (f : File) × (p' : Process) × (do_copy false sys p ≡ (pos 0, p'))
      × (p'.dst ≡ some f)
      × (length f.bytes + length bs ≤ length (contents sys.events))
do_copy-truncated sys mode p es bs works last zero_block =
    let (f, p', runs, dst, same, kept) = do_copy-Holds sys mode p works in
    let gap : length bs ≤ gap_after 0 sys.events =
      subst (λ z. length bs ≤ gap_after 0 z) (sym last) (gap_after-last 0 es bs zero_block) in
    (
      f,
      p',
      runs,
      dst,
      omega (
        arith,
        gap,
        length-append f.bytes (blanks (gap_after 0 sys.events)),
        length-blanks (gap_after 0 sys.events),
        ap (λ (z : List ℕ). length z) same,
      ),
    )
