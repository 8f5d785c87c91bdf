-- ===== src/PageTable/Unmap.antt =====
-- `unmapPage` of page_table.c.
use sty_linux.Base.{
  ℕ, zero, suc, ◌<◌, ◌≤◌, ◌+◌, ◌^◌, ◌≡◌, ◌≢◌, refl, sym, ap, ◌∙◌, inl, inr, Bool-cases, ==→eq,
  ==→ne, ==_self, ne→==, ◌==◌, if◌then◌else◌, true, false, ◌&&◌, none, some, ◌⊎◌, Run, done, ℤ, pos,
  negsuc, arith, update,
}
use mathlib.Core.Path.{subst}
use sty_linux.Base.Bits.{clear_bit}
use sty_linux.Memory.{null}
use sty_linux.PageTable.{
  Entries, Paging, current, set_pde, is_present, address_bits, entries_per_table, all_unmapped,
  unmap_page, page_directory_index, page_table_index, offset,
}
use sty_linux.PageTable.Bits.{clear_present}
use sty_linux.PageTable.View.{
  walk, mapping, shown, Paged, IsPaging, Changed, write-Paged, write-Changed,
}
use sty_linux.PageTable.Tables.{less-Paged, less-walk}
use sty_linux.PageTable.Map.{current-set_pde}

-- The loop finds an entry that is present, or none is.
all_unmapped_lem :
    (n i : ℕ) (t : Entries)
    → ((all_unmapped n i t ≡ true) × ((j : ℕ) → i ≤ j → j < i + n → is_present (t j) ≡ false))
      ⊎ ((all_unmapped n i t ≡ false)
          × ((j : ℕ) × (i ≤ j) × (j < i + n) × (is_present (t j) ≡ true)))
unfolding all_unmapped
all_unmapped_lem zero i t = inl (refl, λ j from below. absurd (omega arith))
all_unmapped_lem (suc n) i t = elim (Bool-cases (is_present (t i))) [
  | inl e ↦ inr (rw e refl, (i, omega arith, omega arith, e))
  | inr e ↦ elim (all_unmapped_lem n (suc i) t) [
    | inl (all, gone) ↦ inl (
      rw e all,
      λ j from below. elim (Bool-cases (j == i)) [
        | inl same ↦ subst (λ z. is_present (t z) ≡ false) (sym (==→eq j i same)) e
        | inr ne ↦ gone j (let x = ==→ne j i ne in omega arith) (omega arith)
      ],
    )
    | inr (some_left, (j, from, below, p)) ↦ inr (rw e some_left, (j, omega arith, omega arith, p))
  ]
]

-- The call succeeds and this page alone is no longer mapped; its table is kept only for another page.
abbrev pub Unmapped : ℕ → Paging → Run (ℤ × Paging) → Type 0
Unmapped virtual s r =
    (s' : Paging) × (r ≡ done (pos 0, s'))
    × IsPaging s'
    × Changed (mapping s) (page_directory_index virtual) (page_table_index virtual) none
        (mapping s')
    × ((is_present (current s' (page_directory_index virtual)) ≡ false)
        ⊎ ((j : ℕ) × (j < entries_per_table)
            × (mapping s' (page_directory_index virtual) j ≢ none)))

module _ (s : Paging) (is : IsPaging s) (d i : ℕ) (bound : d < entries_per_table)
    (i_bound : i < entries_per_table) (t : Entries) (present : is_present (current s d) ≡ true)
    (here : s.tables (address_bits (current s d)) ≡ some t) where
  abbrev cleared : Entries
  cleared = update t i (clear_bit 1 (t i))

  abbrev table_of : ℕ
  table_of = address_bits (current s d)

  -- The state when the entry is cleared.
  abbrev without_page : Paging
  without_page = record s { tables = update s.tables table_of (some cleared) }

  -- The state when the table is freed as well.
  abbrev without_table : Paging
  without_table =
      set_pde d (clear_bit 1 (current s d))
        (record s { tables = update without_page.tables table_of none })

  without_page-IsPaging : IsPaging without_page
  without_page-IsPaging = record {
    has_directory = is.has_directory;
    paged = write-Paged (current s) s.tables is.paged d bound t present here i (clear_bit 1 (t i));
  }

  without_page-Changed : Changed (mapping s) d i none (mapping without_page)
  without_page-Changed =
      let nothing : shown (clear_bit 1 (t i)) ≡ none = rw (clear_present (t i)) refl in
      subst (λ z. Changed (mapping s) d i z (mapping without_page)) nothing
        (write-Changed (current s) s.tables is.paged d bound t present here i (clear_bit 1 (t i)))

  -- What is left of the table.
  left : (j : ℕ) → mapping without_page d j ≡ shown (cleared j)
  left j = rw (present, ==_self table_of) refl

  path : update (current s) d (clear_bit 1 (current s d)) ≡ current without_table
  path = sym (
      current-set_pde d (clear_bit 1 (current s d))
        (record s { tables = update without_page.tables table_of none }))

  without_table-IsPaging : IsPaging without_table
  without_table-IsPaging = record {
    has_directory = is.has_directory;
    paged =
        subst (λ z. Paged z without_table.tables) path
          (less-Paged (current s) without_page.tables without_page-IsPaging.paged d bound present);
  }

  without_table-Changed :
      ((j : ℕ) → j < entries_per_table → is_present (cleared j) ≡ false)
      → Changed (mapping s) d i none (mapping without_table)
  without_table-Changed gone e b j j_b =
      subst
        (λ z. walk z without_table.tables e j ≡ (if e == d && j == i then none else mapping s e j))
        path
        (less-walk (current s) without_page.tables without_page-IsPaging.paged d bound present e b j
          ∙ elim (Bool-cases (e == d)) [
            | inl same ↦
                let nothing : mapping without_page e j ≡ none =
                  subst (λ z. mapping without_page z j ≡ none) (sym (==→eq e d same))
                    (left j ∙ rw (gone j j_b) refl) in
                ap (λ z. if z then none else mapping without_page e j) same
                ∙ sym nothing
                ∙ without_page-Changed e b j j_b
            | inr ne ↦
                ap (λ z. if z then none else mapping without_page e j) ne
                ∙ without_page-Changed e b j j_b
          ])

  table_gone : is_present (current without_table d) ≡ false
  table_gone =
      subst (λ z. is_present (z d) ≡ false) path (rw (==_self d) (clear_present (current s d)))

  page_left : (j : ℕ) → is_present (cleared j) ≡ true → mapping without_page d j ≢ none
  page_left j p e =
      (let shows : shown (cleared j) ≡ some (cleared j) = rw p refl in cc (left j, e, shows))

-- For an aligned page that is mapped, unmapPage returns 0 and ends in well-formed page tables where
-- this page alone is no longer mapped; the directory keeps its table only if another page of it is.
pub unmap_page-Unmapped :
    (virtual pte : ℕ) (s : Paging)
    → IsPaging s
    → virtual < 2 ^ 32
    → offset virtual ≡ 0
    → mapping s (page_directory_index virtual) (page_table_index virtual) ≡ some pte
    → Unmapped virtual s (unmap_page virtual s)
unfolding unmap_page
unmap_page-Unmapped virtual pte s is word v_ok maps =
    let d = page_directory_index virtual in
    let i = page_table_index virtual in
    let bound : d < entries_per_table = omega arith in
    let i_bound : i < entries_per_table = omega arith in
    let aligned : (offset virtual == 0) ≡ true = rw v_ok refl in
    let there = ne→== s.cr3 null is.has_directory in
    elim (Bool-cases (is_present (current s d))) [
      | inr absent ↦ (let none_at : mapping s d i ≡ none = rw absent refl in absurd (cc))
      | inl present ↦
          let (t, here) = is.paged.leads d bound present in
          elim (Bool-cases (is_present (t i))) [
            | inr absent ↦
                (let none_at : mapping s d i ≡ none = rw (present, here, absent) refl in
                  absurd (cc))
            | inl shows ↦
                elim (all_unmapped_lem entries_per_table 0
                  (cleared s is d i bound i_bound t present here)) [
                    | inl (all, gone) ↦ (
                      without_table s is d i bound i_bound t present here,
                      rw (aligned, there, present, here, all, shows) refl,
                      without_table-IsPaging s is d i bound i_bound t present here,
                      without_table-Changed s is d i bound i_bound t present here
                          (λ j b. gone j (omega arith) (omega arith)),
                      inl (table_gone s is d i bound i_bound t present here),
                    )
                    | inr (all, (j, from, below, p)) ↦ (
                      without_page s is d i bound i_bound t present here,
                      rw (aligned, there, present, here, all, shows) refl,
                      without_page-IsPaging s is d i bound i_bound t present here,
                      without_page-Changed s is d i bound i_bound t present here,
                      inr (j, omega arith, page_left s is d i bound i_bound t present here j p),
                    )
                  ]
          ]
    ]

-- For an aligned page that is not mapped, unmapPage returns -1 and changes nothing.
pub unmap_page-refused :
    (virtual : ℕ) (s : Paging)
    → IsPaging s
    → virtual < 2 ^ 32
    → offset virtual ≡ 0
    → mapping s (page_directory_index virtual) (page_table_index virtual) ≡ none
    → unmap_page virtual s ≡ done (negsuc 0, s)
unfolding unmap_page
unmap_page-refused virtual s is word v_ok maps =
    let d = page_directory_index virtual in
    let i = page_table_index virtual in
    let bound : d < entries_per_table = omega arith in
    let aligned : (offset virtual == 0) ≡ true = rw v_ok refl in
    let there = ne→== s.cr3 null is.has_directory in
    elim (Bool-cases (is_present (current s d))) [
      | inr absent ↦ rw (aligned, there, absent) refl
      | inl present ↦
          let (t, here) = is.paged.leads d bound present in
          elim (Bool-cases (is_present (t i))) [
            | inr absent ↦ rw (aligned, there, present, here, absent) refl
            | inl shows ↦
                (let some_at : mapping s d i ≡ some (t i) = rw (present, here, shows) refl in
                  absurd (cc))
          ]
    ]
