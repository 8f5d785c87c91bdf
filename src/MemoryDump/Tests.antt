-- ===== src/MemoryDump/Tests.antt =====
-- Runs of the program of vika7 p2.
use sty_linux.Base.{
  ℕ, zero, suc, ◌≡◌, refl, true, false, List, [], ◌∷◌, Option, none, some, Bool, done,
}
use sty_linux.MemoryDump.{
  Text, codes, same_text, Dump, slice, skip_text, skip_nulls, print_string, range_loop, print_range,
  translate,
}
use sty_linux.MemoryDump.Main.{
  Analysis, unwritten, nothing, usage, address, lines, run_translate, run_print, dump_main,
}
use sty_linux.MemoryDump.Words.{words}

-- The bytes "ab", null, null, "c", null, "d".
abbrev bytes : List ℕ → ℕ → ℕ
bytes [] n = 0
bytes (b ∷ bs) zero = b
bytes (b ∷ bs) (suc n) = bytes bs n

abbrev pub sample : Dump
sample = record { byte = bytes (97 ∷ 98 ∷ 0 ∷ 0 ∷ 99 ∷ 0 ∷ 100 ∷ []); size = 7 }

abbrev pub has_memory : ℕ → Bool
has_memory n = true

abbrev pub number : Text → ℕ
number text = 1

abbrev pub opened : Text → Option Dump
opened [] = none
opened (c ∷ cs) = some sample

-- A translation that adds 1.
abbrev plus_one : Analysis
plus_one = record {
  translates = λ d pgd vaddr. suc vaddr;
  finds_pgd = λ d kernel_pgd pcb mm pgd. pcb;
  counts = unwritten.counts;
}

range_found : print_range has_memory sample 1 7 ≡ done ((98 ∷ []) ∷ (99 ∷ []) ∷ (100 ∷ []) ∷ [])
unfolding print_range range_loop skip_text skip_nulls
range_found = refl

range_refused : print_range has_memory sample 1 8 ≡ done []
unfolding print_range range_loop skip_text skip_nulls
range_refused = refl

words_found : words (slice sample 7 0) ≡ (97 ∷ 98 ∷ []) ∷ (99 ∷ []) ∷ (100 ∷ []) ∷ []
words_found = refl

string_found : print_string has_memory sample 0 ≡ done ((97 ∷ 98 ∷ []) ∷ [])
unfolding print_string skip_text
string_found = refl

no_memory : print_string (λ n. false) sample 0 ≡ done []
unfolding print_string skip_text
no_memory = refl

same_command : same_text (codes "print") (codes "print") ≡ true
same_command = refl

other_command : same_text (codes "print") (codes "printf") ≡ false
other_command = refl

translated :
    dump_main number has_memory opened plus_one
      (codes "d" ∷ codes "translate" ∷ codes "1" ∷ codes "1" ∷ [])
    ≡ done (record { success = true; output = address 2 })
unfolding dump_main run_translate
translated = refl

printed :
    dump_main number has_memory opened plus_one
      (codes "d" ∷ codes "print" ∷ codes "1" ∷ codes "1" ∷ [])
    ≡ done (record { success = true; output = lines ([] ∷ []) })
unfolding dump_main run_print print_string skip_text
printed = refl

untranslated :
    dump_main number has_memory opened unwritten
      (codes "d" ∷ codes "translate" ∷ codes "1" ∷ codes "1" ∷ [])
    ≡ done (record { success = false; output = nothing })
unfolding dump_main run_translate translate
untranslated = refl

unknown :
    dump_main number has_memory opened unwritten (codes "d" ∷ codes "help" ∷ [])
    ≡ done (record { success = false; output = usage })
unfolding dump_main
unknown = refl
