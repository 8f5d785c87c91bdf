-- ===== src/Listing/Lines.antt =====
-- Which lines ls.c prints.
use sty_linux.Base.{
  ℕ, ◌≡◌, refl, ◌==◌, if◌then◌else◌, Bool, true, false, ◌&&◌, List, [], ◌∷◌, ◌++◌, Option, none,
  some, ℤ, pos, done, Bool-cases, inl, inr,
}
use mathlib.Core.List.Memᴰ
use sty_linux.MemoryDump.{Text}
use sty_linux.Listing.{
  Info, FileLine, DirEntries, none_left, entry, file_type, directory_type, type_text, is_dot, join,
  line_of, open_dir, list_entries, list,
}
use sty_linux.Listing.Found.{Tame, Prints, type_text-done, skipped, Below-run, printed}

module _ (executes : ℕ → Bool) (recursive : Bool) where
  module _ (path name : Text) (memory readable : Bool) (contents rest : DirEntries)
      (lines : List FileLine) (room : memory ≡ true)
      (run : list_entries executes recursive path rest ≡ done (pos 0, lines)) where
    dot_run :
        (stat : Option Info)
        → is_dot name ≡ true
        → list_entries executes recursive path (entry name memory stat readable contents rest)
          ≡ done (pos 0, lines)
    unfolding list_entries
    dot_run stat dot = rw dot run

    unknown_run :
        is_dot name ≡ false
        → list_entries executes recursive path (entry name memory none readable contents rest)
          ≡ done (pos 0, lines)
    unfolding list_entries
    unknown_run dot = rw (dot, room) run

    known_run :
        (i : Info) (kind : Text) (r : ℤ) (b : List FileLine)
        → is_dot name ≡ false
        → type_text executes i ≡ done kind
        → (if recursive && file_type i.mode == directory_type
            then open_dir executes recursive readable
                (list_entries executes recursive (join path name) contents)
            else done (pos 0, []))
          ≡ done (r, b)
        → list_entries executes recursive path (entry name memory (some i) readable contents rest)
          ≡ done (pos 0, line_of (join path name) i kind ∷ b ++ lines)
    unfolding list_entries
    known_run i kind r b dot typed below = rw (dot, room, typed, below, run) refl

  list_entries-Prints :
      (es : DirEntries) (path : Text)
      → Tame es
      → (lines : List FileLine) × (list_entries executes recursive path es ≡ done (pos 0, lines))
        × Prints executes recursive path es lines
  unfolding list_entries
  list_entries-Prints none_left path tame = (
    [],
    refl,
    record { sound = λ l m. absurd (Memᴰ.not-nil m); complete = λ p i kind f t. elim f [ ] },
  )
  list_entries-Prints (entry name memory none readable contents rest) path (room, short, _, after) =
      let (lines, run, h) = list_entries-Prints rest path after in
      elim (Bool-cases (is_dot name)) [
        | inl dot ↦ (
          lines,
          dot_run path name memory readable contents rest lines room run none dot,
          skipped executes recursive path name memory readable none contents rest lines (inl dot) h,
        )
        | inr dot ↦ (
          lines,
          unknown_run path name memory readable contents rest lines room run dot,
          skipped executes recursive path name memory readable none contents rest lines (inr refl)
              h,
        )
      ]
  list_entries-Prints (entry name memory (some i) readable contents rest) path
        (room, short, within, after) =
      let (lines, run, h) = list_entries-Prints rest path after in
      let (inner, run', h') = list_entries-Prints contents (join path name) within in
      let (kind, typed) = type_text-done executes recursive i short in
      let (r, b, ran, below) =
        Below-run executes recursive (recursive && file_type i.mode == directory_type) readable
          (list_entries executes recursive (join path name) contents) inner run' in
      elim (Bool-cases (is_dot name)) [
        | inl dot ↦ (
          lines,
          dot_run path name memory readable contents rest lines room run (some i) dot,
          skipped executes recursive path name memory readable (some i) contents rest lines
              (inl dot) h,
        )
        | inr dot ↦ (
          line_of (join path name) i kind ∷ b ++ lines,
          known_run path name memory readable contents rest lines room run i kind r b dot typed ran,
          printed executes recursive path name memory readable i contents rest kind inner b lines
              dot typed below h' h,
        )
      ]

  -- If malloc has memory for every path, and every link's target is shorter than 1020 bytes, list returns 0 for
  -- a directory that can be read, and prints a line for exactly the files that are found: those in the
  -- directory but "." and "..", and in a recursive listing those below its directories that can be read.
  pub list-Prints :
      (path : Text) (es : DirEntries)
      → Tame es
      → (lines : List FileLine) × (list executes recursive path true es ≡ done (pos 0, lines))
        × Prints executes recursive path es lines
  unfolding list
  list-Prints path es tame = list_entries-Prints es path tame
