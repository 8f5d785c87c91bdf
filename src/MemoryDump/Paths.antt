-- ===== src/MemoryDump/Paths.antt =====
-- How main.c ends with the functions of analyse-mem.c as they stand.
use sty_linux.Base.{
  ℕ, ◌≡◌, refl, ap, if◌then◌else◌, Bool, true, false, List, [], ◌∷◌, Option, none, some, Run, done,
  fault, out_of_fuel,
}
use sty_linux.MemoryDump.{
  Text, codes, same_text, Dump, translate, pcb_to_pgd, calculate_mapped_memory,
}
use sty_linux.MemoryDump.Main.{
  Analysis, unwritten, Output, nothing, usage, pages, Exit, with_dump, space_of, run_translate,
  run_pcb_to_pgd, run_count_pages, run_print, dump_main,
}

-- The program fails, reads through NULL, or reports no page at all.
abbrev pub Useless : Run Exit → Type 0
Useless (done e) =
    (e.success ≡ true)
    → (kernel_only : Bool) × (e.output
        ≡ pages kernel_only (record { pages4k = 0; pages2m = 0; pages1g = 0 }))
Useless fault = Unit
Useless out_of_fuel = ⊥

failed : (o : Output) → Useless (done (record { success = false; output = o }))
failed o e = absurd (cc)

if-Useless : (b : Bool) (x y : Run Exit) → Useless x → Useless y → Useless (if b then x else y)
if-Useless true x y h k = h
if-Useless false x y h k = k

module _ (number : Text → ℕ) (has_memory : ℕ → Bool) (opened : Text → Option Dump) where
  with_dump-Useless :
      (file : Text) (k : Dump → Run Exit)
      → ((d : Dump) → Useless (k d))
      → Useless (with_dump number has_memory opened unwritten file k)
  with_dump-Useless file k h = go (opened file)
    where
      go :
          (o : Option Dump)
          → Useless
              (elim o [ none ↦ done (record { success = false; output = nothing }) | some d ↦ k d ])
      go none = failed nothing
      go (some d) = h d

  run_translate-Useless :
      (file : Text) (args : List Text)
      → Useless (run_translate number has_memory opened unwritten file args)
  unfolding run_translate translate
  run_translate-Useless file [] = failed usage
  run_translate-Useless file (a ∷ []) = failed usage
  run_translate-Useless file (a ∷ b ∷ []) = with_dump-Useless file _ (λ d. failed nothing)
  run_translate-Useless file (a ∷ b ∷ c ∷ args) = failed usage

  run_pcb_to_pgd-Useless :
      (file : Text) (args : List Text)
      → Useless (run_pcb_to_pgd number has_memory opened unwritten file args)
  unfolding run_pcb_to_pgd pcb_to_pgd
  run_pcb_to_pgd-Useless file [] = failed usage
  run_pcb_to_pgd-Useless file (a ∷ []) = failed usage
  run_pcb_to_pgd-Useless file (a ∷ b ∷ []) = failed usage
  run_pcb_to_pgd-Useless file (a ∷ b ∷ c ∷ []) = failed usage
  run_pcb_to_pgd-Useless file (a ∷ b ∷ c ∷ e ∷ []) = with_dump-Useless file _ (λ d. failed nothing)
  run_pcb_to_pgd-Useless file (a ∷ b ∷ c ∷ e ∷ g ∷ args) = failed usage

  run_count_pages-Useless :
      (file : Text) (args : List Text)
      → Useless (run_count_pages number has_memory opened unwritten file args)
  unfolding run_count_pages calculate_mapped_memory
  run_count_pages-Useless file [] = failed usage
  run_count_pages-Useless file (a ∷ []) = with_dump-Useless file _ (λ d e. (false, refl))
  run_count_pages-Useless file (a ∷ b ∷ []) = go (space_of b)
    where
      go :
          (o : Option Bool)
          → Useless (elim o [
            | none ↦ done (record { success = false; output = nothing })
            | some kernel_only ↦ with_dump number has_memory opened unwritten file (λ d.
                done (record {
                  success = true;
                  output = pages kernel_only (calculate_mapped_memory (number a) kernel_only);
                }))
          ])
      go none = failed nothing
      go (some kernel_only) = with_dump-Useless file _ (λ d e. (kernel_only, refl))
  run_count_pages-Useless file (a ∷ b ∷ c ∷ args) = failed usage

  run_print-Useless :
      (file : Text) (args : List Text)
      → Useless (run_print number has_memory opened unwritten file args)
  unfolding run_print translate
  run_print-Useless file [] = with_dump-Useless file _ (λ d. tt)
  run_print-Useless file (a ∷ []) = with_dump-Useless file _ (λ d. failed usage)
  run_print-Useless file (a ∷ b ∷ []) = with_dump-Useless file _ (λ d. failed nothing)
  run_print-Useless file (a ∷ b ∷ c ∷ []) = with_dump-Useless file _ (λ d. failed nothing)
  run_print-Useless file (a ∷ b ∷ c ∷ e ∷ args) = with_dump-Useless file _ (λ d. failed usage)

  -- With analyse-mem.c as it stands, main ends for all arguments, and whatever they are it fails, reads
  -- through NULL, or reports that no page is mapped: no address is ever translated and no text printed.
  pub dump_main-Useless :
      (args : List Text) → Useless (dump_main number has_memory opened unwritten args)
  unfolding dump_main
  dump_main-Useless [] = failed usage
  dump_main-Useless (file ∷ []) = failed usage
  dump_main-Useless (file ∷ command ∷ args) =
      let usage_exit = done (record { success = false; output = usage }) in
      let translating = run_translate number has_memory opened unwritten file args in
      let finding = run_pcb_to_pgd number has_memory opened unwritten file args in
      let counting = run_count_pages number has_memory opened unwritten file args in
      let printing = run_print number has_memory opened unwritten file args in
      let is_print = same_text command (codes "print") in
      let is_count = same_text command (codes "count-pages") in
      let is_find = same_text command (codes "pcb-to-pgd") in
      let third = if is_print then printing else usage_exit in
      let second = if is_count then counting else third in
      if-Useless (same_text command (codes "translate")) translating
        (if is_find then finding else second) (run_translate-Useless file args)
        (if-Useless is_find finding second (run_pcb_to_pgd-Useless file args) (
          if-Useless is_count counting third (run_count_pages-Useless file args)
            (if-Useless is_print printing usage_exit (run_print-Useless file args) (failed usage))))

-- `print` without a page table reads the number through NULL, whatever analyse-mem.c does.
pub dump_main-print :
    (number : Text → ℕ) (has_memory : ℕ → Bool) (opened : Text → Option Dump) (an : Analysis)
    (file : Text) (d : Dump)
    → opened file ≡ some d
    → dump_main number has_memory opened an (file ∷ codes "print" ∷ []) ≡ fault
unfolding dump_main run_print
dump_main-print number has_memory opened an file d e =
    let ends : Option Dump → Run Exit = λ o. elim o [
      | none ↦ done (record { success = false; output = nothing })
      | some d' ↦ fault
    ] in
    ap ends e
