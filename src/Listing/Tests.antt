-- ===== src/Listing/Tests.antt =====
-- Runs of ls.c.
use sty_linux.Base.{
  ℕ, zero, suc, ◌≡◌, refl, true, false, [], ◌∷◌, none, some, pos, negsuc, done, fault,
}
use sty_linux.MemoryDump.{Text, codes}
use sty_linux.Listing.{
  Info, FileLine, DirEntries, none_left, entry, mode_text, owner_executes, anyone_executes,
  type_text, link_text, list_entries, list,
}

abbrev file : Info
file = record { mode = 0o100644; size = 5; target = [] }

abbrev folder : Info
folder = record { mode = 0o040755; size = 64; target = [] }

abbrev pipe : Info
pipe = record { mode = 0o010600; size = 0; target = [] }

abbrev to_file : Info
to_file = record { mode = 0o120777; size = 1; target = codes "a" }

abbrev within : DirEntries
within =
    entry (codes "..") true (some folder) true none_left
      (entry (codes "p") true (some pipe) false none_left none_left)

-- Two files, of which lstat does not know one, a directory, and a link.
abbrev pub sample : DirEntries
sample = entry (codes ".") true (some folder) true none_left (
    entry (codes "a") true (some file) false none_left (
      entry (codes "x") true none false none_left (
        entry (codes "s") true (some folder) true within
          (entry (codes "l") true (some to_file) false none_left none_left))))

abbrev line : ℕ → Text → Text → Text → FileLine
line n m p k = record { size = n; mode = m; name = p; kind = k }

all_printed :
    list owner_executes true (codes "d") true sample
    ≡ done (
      pos 0,
      line 5 (codes "-rw-r--r--") (codes "d/a") []
          ∷ line 64 (codes "drwxr-xr-x") (codes "d/s") (codes "/")
          ∷ line 0 (codes "prw-------") (codes "d/s/p") (codes "|")
          ∷ line 1 (codes "lrwxrwxrwx") (codes "d/l") (codes " -> a")
          ∷ [],
    )
unfolding list list_entries type_text mode_text
all_printed = refl

unreadable : list owner_executes true (codes "d") false sample ≡ done (negsuc 0, [])
unfolding list
unreadable = refl

-- A device with the execute bit.
abbrev device : Info
device = record { mode = 0o020755; size = 0; target = [] }

marked : type_text owner_executes device ≡ done (codes "*")
unfolding type_text
marked = refl

unmarked : type_text anyone_executes device ≡ done []
unfolding type_text
unmarked = refl

-- A target of 1020 bytes.
abbrev long : ℕ → Text
long zero = []
long (suc n) = 97 ∷ long n

too_long : link_text (long 1020) ≡ fault
too_long = refl
