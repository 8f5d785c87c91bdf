-- ===== src/MemoryDump/Main.antt =====
-- `main` of STY25/vika7/P7/assignment07-templates/p2/main.c. The three functions of analyse-mem.c are an
-- interface, which that file fills with functions that are not written yet.
use sty_linux.Base.{
  ℕ, ◌==◌, ltb, if◌then◌else◌, Bool, true, false, ◌||◌, List, [], ◌∷◌, Option, none, some, Run,
  done, fault, ◌>>=◌,
}
use sty_linux.MemoryDump.{
  Text, codes, same_text, Dump, Lines, print_string, print_range, addr_error, translate, pcb_to_pgd,
  MappedPages, calculate_mapped_memory,
}

-- The functions of analyse-mem.h; the dump is the global that they read.
pub record Analysis : Type 0 where
  pub translates : Dump → (pgd vaddr : ℕ) → ℕ
  pub finds_pgd : Dump → (kernel_pgd pcb_vaddr offset_mm offset_pgd : ℕ) → ℕ
  pub counts : Dump → (pgd : ℕ) → (kernel_only : Bool) → MappedPages

-- analyse-mem.c as it stands.
abbrev pub unwritten : Analysis
unwritten = record {
  translates = λ d. translate;
  finds_pgd = λ d. pcb_to_pgd;
  counts = λ d. calculate_mapped_memory;
}

pub data Output : Type 0 where
  nothing : Output
  usage : Output
  address : ℕ → Output
  pages : (kernel_only : Bool) → MappedPages → Output
  lines : Lines → Output

-- How the program ends: whether with EXIT_SUCCESS, what it has printed.
pub record Exit : Type 0 where
  pub success : Bool
  pub output : Output

abbrev exit : Bool → Output → Run Exit
exit b o = done (record { success = b; output = o })

abbrev usage_exit : Run Exit
usage_exit = exit false usage

-- The option `k` or `u`, by its first character.
abbrev pub space_of : Text → Option Bool
space_of [] = none
space_of (c ∷ cs) = if c == b'k' then some true else if c == b'u' then some false else none

module _ (number : Text → ℕ) (has_memory : ℕ → Bool) (opened : Text → Option Dump)
    (an : Analysis) where
  -- `initdump`, which exits itself when the dump cannot be mapped.
  abbrev pub with_dump : Text → (Dump → Run Exit) → Run Exit
  with_dump file k = elim (opened file) [ none ↦ exit false nothing | some d ↦ k d ]

  unfoldable pub run_translate : Text → List Text → Run Exit
  run_translate file (pgd ∷ vaddr ∷ []) = with_dump file (λ d.
      let phys = an.translates d (number pgd) (number vaddr) in
      if phys == addr_error then exit false nothing else exit true (address phys))
  run_translate file args = usage_exit

  unfoldable pub run_pcb_to_pgd : Text → List Text → Run Exit
  run_pcb_to_pgd file (kernel_pgd ∷ pcb ∷ mm ∷ pgd ∷ []) = with_dump file (λ d.
      let found = an.finds_pgd d (number kernel_pgd) (number pcb) (number mm) (number pgd) in
      if found == addr_error then exit false nothing else exit true (address found))
  run_pcb_to_pgd file args = usage_exit

  unfoldable pub run_count_pages : Text → List Text → Run Exit
  run_count_pages file (pgd ∷ []) =
      with_dump file (λ d. exit true (pages false (an.counts d (number pgd) false)))
  run_count_pages file (pgd ∷ space ∷ []) = elim (space_of space) [
    | none ↦ exit false nothing
    | some kernel_only ↦
        with_dump file (λ d. exit true (pages kernel_only (an.counts d (number pgd) kernel_only)))
  ]
  run_count_pages file args = usage_exit

  -- The dump is mapped, and the first argument read, before they are counted.
  unfoldable pub run_print : Text → List Text → Run Exit
  run_print file [] = with_dump file (λ d. fault)
  run_print file (pgd ∷ vaddr ∷ []) = with_dump file (λ d.
      let phys = an.translates d (number pgd) (number vaddr) in
      let print = print_string has_memory d phys >>= λ out. exit true (lines out) in
      if phys == addr_error then exit false nothing else print)
  run_print file (pgd ∷ first ∷ last ∷ []) = with_dump file (λ d.
      let start = an.translates d (number pgd) (number first) in
      let end = an.translates d (number pgd) (number last) in
      let print = print_range has_memory d start end >>= λ out. exit true (lines out) in
      if start == addr_error || end == addr_error
      then exit false nothing
      else if ltb end start
      then exit false nothing
      else print)
  run_print file args = with_dump file (λ d. usage_exit)

  -- `main`, with the arguments behind the program's name.
  unfoldable pub dump_main : List Text → Run Exit
  dump_main [] = usage_exit
  dump_main (file ∷ []) = usage_exit
  dump_main (file ∷ command ∷ args) =
      if same_text command (codes "translate")
      then run_translate file args
      else if same_text command (codes "pcb-to-pgd")
      then run_pcb_to_pgd file args
      else if same_text command (codes "count-pages")
      then run_count_pages file args
      else if same_text command (codes "print")
      then run_print file args
      else usage_exit
