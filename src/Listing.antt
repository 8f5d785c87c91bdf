-- ===== src/Listing.antt =====
-- `list` of STY25/vika10/assignment10-templates/p1/ls.c, which prints a directory. What opendir, readdir, malloc,
-- lstat and readlinkat answer for a directory and what is below it is a value, `DirEntries`. Its variant
-- testing2.c has another test for the mark of a program.
pub mod Modes
pub mod Found
pub mod Lines
mod Tests
mod Witnesses
use Prim.Native.Char.{code}
use Prim.Native.String.{String}
use sty_linux.Base.{
  ℕ, zero, suc, ◌+◌, ◌*◌, ◌/◌, ◌%◌, ◌^◌, ◌==◌, ltb, if◌then◌else◌, Bool, true, false, ◌&&◌, ◌||◌,
  List, [], ◌∷◌, ◌++◌, length, Option, none, some, ℤ, pos, negsuc, Run, done, fault, ◌>>=◌,
}
use sty_linux.Base.Bits.{has_bit}
use sty_linux.MemoryDump.{Text, codes, same_text}

-- What `lstat` finds, and what `readlinkat` puts behind " -> " of a link.
pub record Info : Type 0 where
  pub mode : ℕ
  pub size : ℕ
  pub target : Text

-- What printLine is called with.
pub record FileLine : Type 0 where
  pub size : ℕ
  pub mode : Text
  pub name : Text
  pub kind : Text

-- What `readdir` gives: a name, whether malloc has memory for its path, what lstat finds, and what is in it,
-- if it is a directory that opendir can open.
pub data DirEntries : Type 0 where
  none_left : DirEntries
  entry :
      (name : Text) (memory : Bool) (stat : Option Info) (readable : Bool)
      (contents rest : DirEntries)
      → DirEntries

-- `st_mode & S_IFMT`, as a digit.
abbrev pub file_type : ℕ → ℕ
file_type mode = mode / 2 ^ 12 % 2 ^ 4

abbrev pub fifo : ℕ
fifo = 1

abbrev pub directory_type : ℕ
directory_type = 4

abbrev pub regular : ℕ
regular = 8

abbrev pub link : ℕ
link = 10

abbrev pub type_letter : ℕ → ℕ
type_letter mode =
    if file_type mode == fifo
    then b'p'
    else if file_type mode == directory_type
    then b'd'
    else if file_type mode == link
    then b'l'
    else b'-'

abbrev pub letter : (c mask mode : ℕ) → ℕ
letter c mask mode = if has_bit mask mode then c else b'-'

unfoldable pub mode_text : ℕ → Text
mode_text mode =
    type_letter mode
    ∷ letter b'r' 256 mode
    ∷ letter b'w' 128 mode
    ∷ letter b'x' 64 mode
    ∷ letter b'r' 32 mode
    ∷ letter b'w' 16 mode
    ∷ letter b'x' 8 mode
    ∷ letter b'r' 4 mode
    ∷ letter b'w' 2 mode
    ∷ letter b'x' 1 mode
    ∷ []

-- The test for a program in ls.c, and in testing2.c.
abbrev pub owner_executes : ℕ → Bool
owner_executes mode = has_bit 64 mode

abbrev pub anyone_executes : ℕ → Bool
anyone_executes mode =
    file_type mode == regular && (has_bit 64 mode || (has_bit 8 mode || has_bit 1 mode))

-- `readlinkat` puts 1020 bytes at most into the buffer; as many leave no room for the NUL that printf looks for.
abbrev pub link_text : Text → Run Text
link_text target = if ltb (length target) 1020 then done (codes " -> " ++ target) else fault

unfoldable pub type_text : (executes : ℕ → Bool) → Info → Run Text
type_text executes i =
    if file_type i.mode == fifo
    then done (codes "|")
    else if file_type i.mode == directory_type
    then done (codes "/")
    else if file_type i.mode == link
    then link_text i.target
    else if executes i.mode
    then done (codes "*")
    else done []

-- "." and ".."
abbrev pub is_dot : Text → Bool
is_dot name = same_text name (codes ".") || same_text name (codes "..")

abbrev pub join : Text → Text → Text
join path name = path ++ codes "/" ++ name

abbrev pub line_of : Text → Info → Text → FileLine
line_of path i kind = record { size = i.size; mode = mode_text i.mode; name = path; kind = kind }

module _ (executes : ℕ → Bool) (recursive : Bool) where
  -- An entry that lstat knows, and what `list` prints for its directory; the result of that is dropped.
  abbrev pub list_one :
      Option Info → Text → (below rest : Run (ℤ × List FileLine)) → Run (ℤ × List FileLine)
  list_one none path below rest = rest
  list_one (some i) path below rest =
      let descends = recursive && file_type i.mode == directory_type in
      type_text executes i >>= λ kind.
      (if descends then below else done (pos 0, [])) >>= λ (dropped, lines).
      rest >>= λ (result, others). done (result, line_of path i kind ∷ lines ++ others)

  -- `opendir`
  abbrev pub open_dir : Bool → Run (ℤ × List FileLine) → Run (ℤ × List FileLine)
  open_dir readable run = if readable then run else done (negsuc 0, [])

  unfoldable pub list_entries : Text → DirEntries → Run (ℤ × List FileLine)
  list_entries path none_left = done (pos 0, [])
  list_entries path (entry name memory stat readable contents rest) =
      let others = list_entries path rest in
      let below = list_entries (join path name) contents in
      if is_dot name
      then others
      else if memory
      then list_one stat (join path name) (open_dir readable below) others
      else done (negsuc 0, [])

  unfoldable pub list : Text → (readable : Bool) → DirEntries → Run (ℤ × List FileLine)
  list path readable entries = open_dir readable (list_entries path entries)
