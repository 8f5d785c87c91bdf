-- ===== src/PageTable/Map.antt =====
-- `mapPage` of page_table.c.
use sty_linux.Base.{
  ℕ, ◌<◌, ◌%◌, ◌^◌, ◌≡◌, refl, sym, ap, ◌∙◌, inl, inr, Bool-cases, ==_self, ne→==, ◌==◌,
  if◌then◌else◌, true, false, ◌&&◌, none, some, update, update_self, ◌⊎◌, Run, done, ℤ, pos, negsuc,
  arith,
}
use mathlib.Core.Path.{subst}
use sty_linux.Base.Bits.{set_bit}
use sty_linux.Memory.{null}
use sty_linux.PageTable.{
  Entries, Paging, current, set_pde, is_present, address_bits, entries_per_table, write_entry,
  make_pte, map_page, ReadWrite, PrivilegeLevel, page_directory_index, page_table_index, offset,
}
use sty_linux.PageTable.Bits.{present_table, make_pte_lem}
use sty_linux.PageTable.View.{
  walk, mapping, shown, Paged, IsPaging, Changed, write-Paged, write-Changed,
}
use sty_linux.PageTable.Tables.{new-Paged, new-walk}

-- A write to the table of directory entry `d`.
pub write_entry-Changed :
    (s : Paging) (d a i v : ℕ) (t : Entries)
    → IsPaging s
    → d < entries_per_table
    → is_present (current s d) ≡ true
    → address_bits (current s d) ≡ a
    → s.tables a ≡ some t
    → (s' : Paging) × (write_entry a i v s ≡ done s')
      × IsPaging s'
      × Changed (mapping s) d i (shown v) (mapping s')
unfolding write_entry
write_entry-Changed s d a i v t is bound present at here =
    let there : s.tables (address_bits (current s d)) ≡ some t =
      subst (λ z. s.tables z ≡ some t) (sym at) here in
    let tables' = update s.tables a (some (update t i v)) in
    (
      record s { tables = tables' },
      rw (here, write_entry) refl,
      record {
        has_directory = is.has_directory;
        paged =
            subst (λ z. Paged (current s) (update s.tables z (some (update t i v)))) at
              (write-Paged (current s) s.tables is.paged d bound t present there i v);
      },
      subst
          (λ z.
            Changed (mapping s) d i (shown v)
              (walk (current s) (update s.tables z (some (update t i v)))))
          at (write-Changed (current s) s.tables is.paged d bound t present there i v),
    )

pub current-set_pde : (d v : ℕ) (s : Paging) → current (set_pde d v s) ≡ update (current s) d v
current-set_pde d v s = rw (==_self s.cr3) refl

-- The state of mapPage when it has put the new table `a` into the directory.
abbrev with_table : ℕ → ℕ → Paging → Paging
with_table d a s = set_pde d (set_bit 1 a) (record s { tables = update s.tables a (some (λ _. 0)) })

with_table-IsPaging :
    (s : Paging) (d a : ℕ)
    → IsPaging s
    → d < entries_per_table
    → is_present (current s d) ≡ false
    → a % 2 ^ 12 ≡ 0
    → s.tables a ≡ none
    → IsPaging (with_table d a s)
      × ((e : ℕ) → e < entries_per_table → (j : ℕ) → mapping (with_table d a s) e j ≡ mapping s e j)
      × (current (with_table d a s) d ≡ set_bit 1 a)
with_table-IsPaging s d a is bound absent aligned free =
    let s1 : Paging = record s { tables = update s.tables a (some (λ _. 0)) } in
    let path = sym (current-set_pde d (set_bit 1 a) s1) in
    (
      record {
        has_directory = is.has_directory;
        paged =
            subst (λ z. Paged z s1.tables) path
              (new-Paged (current s) s.tables is.paged d bound a aligned free absent);
      },
      λ e b j.
          subst (λ z. walk z s1.tables e j ≡ mapping s e j) path
            (new-walk (current s) s.tables is.paged d bound a aligned free absent e b j),
      ap (λ z. z d) (current-set_pde d (set_bit 1 a) s1) ∙ update_self (current s) d (set_bit 1 a),
    )

shown_pte :
    (p : ℕ) (mode : ReadWrite) (privileges : PrivilegeLevel)
    → offset p ≡ 0
    → shown (make_pte p mode privileges) ≡ some (make_pte p mode privileges)
shown_pte p mode privileges aligned = rw (make_pte_lem p mode privileges aligned).0 refl

-- The call succeeds, and only this page is mapped anew.
abbrev pub Mapped : (virtual pte : ℕ) → Paging → Run (ℤ × Paging) → Type 0
Mapped virtual pte s r =
    (s' : Paging) × (r ≡ done (pos 0, s'))
    × IsPaging s'
    × Changed (mapping s) (page_directory_index virtual) (page_table_index virtual) (some pte)
        (mapping s')

-- For aligned addresses, if posix_memalign gives an aligned address that is not in use, mapPage returns
-- 0, maps the page by an entry for the frame and the rights, leaves every other page as it was, and
-- keeps the page tables well formed, whether the page has a table yet or not.
pub map_page-Mapped :
    (a virtual physical : ℕ) (mode : ReadWrite) (privileges : PrivilegeLevel) (s : Paging)
    → IsPaging s
    → virtual < 2 ^ 32
    → offset virtual ≡ 0
    → offset physical ≡ 0
    → a % 2 ^ 12 ≡ 0
    → s.tables a ≡ none
    → Mapped virtual
        (make_pte physical mode privileges)
        s
        (map_page (some a) virtual physical mode privileges s)
unfolding map_page
map_page-Mapped a virtual physical mode privileges s is word v_ok p_ok aligned free =
    let d = page_directory_index virtual in
    let i = page_table_index virtual in
    let pte = make_pte physical mode privileges in
    let bound : d < entries_per_table = omega arith in
    let tests : (offset virtual == 0 && offset physical == 0) ≡ true = rw (v_ok, p_ok) refl in
    elim (Bool-cases (is_present (current s d))) [
      | inl present ↦
          let (t, here) = is.paged.leads d bound present in
          let (s', runs, is', changed) =
            write_entry-Changed s d (address_bits (current s d)) i pte t is bound present refl
              here in
          (
            s',
            rw (tests, ne→== s.cr3 null is.has_directory, present, runs) refl,
            is',
            subst (λ z. Changed (mapping s) d i z (mapping s'))
                (shown_pte physical mode privileges p_ok) changed,
          )
      | inr absent ↦
          let s1 = with_table d a s in
          let (is1, same, at) = with_table-IsPaging s d a is bound absent aligned free in
          let fact = present_table a aligned in
          let (s', runs, is', changed) =
            write_entry-Changed s1 d a i pte (λ _. 0) is1 bound
              (subst (λ z. is_present z ≡ true) (sym at) fact.0)
              (subst (λ z. address_bits z ≡ a) (sym at) fact.1)
              (update_self s.tables a (some (λ _. 0))) in
          (
            s',
            rw (tests, ne→== s.cr3 null is.has_directory, absent, runs) refl,
            is',
            λ e b j j_b.
                changed e b j j_b
                ∙ ap (λ z. if e == d && j == i then z else mapping s1 e j)
                    (shown_pte physical mode privileges p_ok)
                ∙ ap (λ z. if e == d && j == i then some pte else z) (same e b j),
          )
    ]

-- For aligned addresses and without memory, mapPage succeeds in the same way if the page's table is
-- there, and returns -1 and changes nothing if it is not.
pub map_page-none :
    (virtual physical : ℕ) (mode : ReadWrite) (privileges : PrivilegeLevel) (s : Paging)
    → IsPaging s
    → virtual < 2 ^ 32
    → offset virtual ≡ 0
    → offset physical ≡ 0
    → let r = map_page none virtual physical mode privileges s in
      ((is_present (current s (page_directory_index virtual)) ≡ true)
        × Mapped virtual (make_pte physical mode privileges) s r)
      ⊎ ((is_present (current s (page_directory_index virtual)) ≡ false) × (r ≡ done (negsuc 0, s)))
unfolding map_page
map_page-none virtual physical mode privileges s is word v_ok p_ok =
    let d = page_directory_index virtual in
    let i = page_table_index virtual in
    let pte = make_pte physical mode privileges in
    let bound : d < entries_per_table = omega arith in
    let tests : (offset virtual == 0 && offset physical == 0) ≡ true = rw (v_ok, p_ok) refl in
    elim (Bool-cases (is_present (current s d))) [
      | inl present ↦
          let (t, here) = is.paged.leads d bound present in
          let (s', runs, is', changed) =
            write_entry-Changed s d (address_bits (current s d)) i pte t is bound present refl
              here in
          inl (
            present,
            (
              s',
              rw (tests, ne→== s.cr3 null is.has_directory, present, runs) refl,
              is',
              subst (λ z. Changed (mapping s) d i z (mapping s'))
                  (shown_pte physical mode privileges p_ok) changed,
            ),
          )
      | inr absent ↦ inr (absent, rw (tests, ne→== s.cr3 null is.has_directory, absent) refl)
    ]
