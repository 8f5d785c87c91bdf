-- ===== src/MemoryDump/Witnesses.antt =====
-- The theorems on the program of vika7 p2, at the dump of the tests.
use sty_linux.Base.{◌≡◌, refl, done, arith}
use sty_linux.MemoryDump.{slice, print_range}
use sty_linux.MemoryDump.Words.{words, print_range-words}
use sty_linux.MemoryDump.Tests.{sample, has_memory}

print_range-words_example : print_range has_memory sample 1 7 ≡ done (words (slice sample 6 1))
print_range-words_example =
    print_range-words sample has_memory (λ n. refl) 1 6 (omega arith) (omega arith)
