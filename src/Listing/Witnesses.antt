-- ===== src/Listing/Witnesses.antt =====
-- The theorems on ls.c at the directory of the tests.
use sty_linux.Base.{◌≡◌, ◌%◌, refl, true, List, pos, done, arith}
use sty_linux.MemoryDump.{codes}
use sty_linux.Listing.{FileLine, mode_text, owner_executes, list}
use sty_linux.Listing.Modes.{permissions, mode_text-permissions}
use sty_linux.Listing.Found.{Prints}
use sty_linux.Listing.Lines.{list-Prints}
use sty_linux.Listing.Tests.{sample}

mode_text-permissions_example : permissions (mode_text 0o120751) ≡ 0o120751 % 512
mode_text-permissions_example = mode_text-permissions 0o120751

list-Prints_example :
    (lines : List FileLine) × (list owner_executes true (codes "d") true sample
      ≡ done (pos 0, lines))
    × Prints owner_executes true (codes "d") sample lines
list-Prints_example = list-Prints owner_executes true (codes "d") sample (
  refl,
  omega arith,
  tt,
  (
    refl,
    omega arith,
    tt,
    (
      refl,
      tt,
      tt,
      (
        refl,
        omega arith,
        (refl, omega arith, tt, (refl, omega arith, tt, tt)),
        (refl, omega arith, tt, tt),
      ),
    ),
  ),
)
