-- ===== src/PageTable/Witnesses.antt =====
-- The theorems on page_table.c at concrete page tables.
use sty_linux.Base.{
  ℕ, ◌+◌, ◌≡◌, refl, sym, ◌∙◌, inl, inr, arith, done, none, some, ◌==◌, pos, update, Bool-cases,
  ==→eq, true, false,
}
use mathlib.Core.Path.{subst}
use sty_linux.PageTable.{
  Paging, Entries, is_present, address_bits, make_pte, map_page, translate_page_table, unmap_page,
  access_read, access_write, user_mode,
}
use sty_linux.PageTable.View.{IsPaging}
use sty_linux.PageTable.Map.{Mapped, map_page-Mapped}
use sty_linux.PageTable.Translate.{Translated, translate_page_table-Translated, map_page-translate}
use sty_linux.PageTable.Unmap.{Unmapped, unmap_page-Unmapped}

-- One table at 0x2000, with a page that users may write and one that they may only read.
abbrev table : Entries
table = update (update (λ _. 0) 0 (33554432 + 7)) 2 (33554432 + 8192 + 5)

abbrev directory : Entries
directory = update (λ _. 0) 0 8193

abbrev sample : Paging
sample = record {
  cr3 = 4096;
  directories = λ _. directory;
  tables = update (λ _. none) 8192 (some table);
}

only_first : (d : ℕ) → is_present (directory d) ≡ true → d ≡ 0
only_first d p = elim (Bool-cases (d == 0)) [
  | inl e ↦ ==→eq d 0 e
  | inr e ↦ (let absent : is_present (directory d) ≡ false = rw e refl in absurd (cc))
]

sample-IsPaging : IsPaging sample
sample-IsPaging = record {
  has_directory = λ e. omega arith;
  paged = record {
    leads = λ d b p.
        subst (λ z. (t : Entries) × (sample.tables (address_bits (directory z)) ≡ some t))
          (sym (only_first d p)) (table, refl);
    apart = λ d e db eb ne p q. absurd (ne (only_first d p ∙ sym (only_first e q)));
  };
}

map_page-Mapped_example :
    Mapped 4194304
      (make_pte 20480 access_write user_mode)
      sample
      (map_page (some 16384) 4194304 20480 access_write user_mode sample)
map_page-Mapped_example =
    map_page-Mapped 16384 4194304 20480 access_write user_mode sample sample-IsPaging (omega arith)
      refl refl refl refl

translate_page_table-Translated_example :
    Translated sample 8195 access_read user_mode
      (translate_page_table 8195 access_read user_mode sample)
translate_page_table-Translated_example =
    translate_page_table-Translated 8195 access_read user_mode sample sample-IsPaging (omega arith)

map_page-translate_example :
    (s1 : Paging) × (s2 : Paging) × (map_page
        (some 16384)
        4194304
        20480
        access_read
        user_mode
        sample
      ≡ done (pos 0, s1))
    × (translate_page_table 4194311 access_read user_mode s1 ≡ done (20487, s2))
map_page-translate_example =
    map_page-translate 16384 4194304 20480 7 access_read user_mode access_read user_mode sample
      sample-IsPaging (omega arith) (omega arith) refl refl (omega arith) refl refl

unmap_page-Unmapped_example : Unmapped 8192 sample (unmap_page 8192 sample)
unmap_page-Unmapped_example =
    unmap_page-Unmapped 8192 (33554432 + 8192 + 5) sample sample-IsPaging (omega arith) refl refl
