-- ===== src/PageTable/Tables.antt =====
-- How tables of page_table.c come and go.
use sty_linux.Base.{
  ℕ, ◌<◌, ◌%◌, ◌^◌, ◌≡◌, ◌≢◌, refl, sym, ◌∙◌, inl, inr, Bool-cases, ==→eq, ==→ne, ==_self, ne→==,
  ◌==◌, if◌then◌else◌, true, false, Option, none, some, update,
}
use mathlib.Core.Path.{subst}
use sty_linux.Base.Bits.{set_bit, clear_bit}
use sty_linux.PageTable.{Entries, is_present, address_bits, entries_per_table}
use sty_linux.PageTable.Bits.{present_table, clear_present}
use sty_linux.PageTable.View.{walk, Paged}

module _ (dir : Entries) (tables : ℕ → Option Entries) (is : Paged dir tables) (d : ℕ)
    (bound : d < entries_per_table) where
  -- A new table, all of whose entries are 0.
  module _ (a : ℕ) (aligned : a % 2 ^ 12 ≡ 0) (free : tables a ≡ none)
      (absent : is_present (dir d) ≡ false) where
    abbrev dir_new : Entries
    dir_new = update dir d (set_bit 1 a)

    abbrev tables_new : ℕ → Option Entries
    tables_new = update tables a (some (λ _. 0))

    in_use :
        (e : ℕ)
        → e < entries_per_table
        → is_present (dir e) ≡ true
        → (address_bits (dir e) == a) ≡ false
    in_use e b p =
        let (t, at) = is.leads e b p in
        ne→== (address_bits (dir e)) a
          (λ same. let clash : tables a ≡ some t = subst (λ z. tables z ≡ some t) same at in cc)

    pub new-Paged : Paged dir_new tables_new
    new-Paged = record {
      leads = λ e b. elim (Bool-cases (e == d)) [
        | inl same ↦ rw (same, (present_table a aligned).1) (λ p. ((λ _. 0), rw (==_self a) refl))
        | inr ne ↦ rw ne (λ p. let (t, at) = is.leads e b p in (t, rw (in_use e b p) at))
      ];
      apart = λ e f be bf ne. elim (Bool-cases (e == d)) [
        | inl e_d ↦ elim (Bool-cases (f == d)) [
          | inl f_d ↦ absurd (ne (==→eq e d e_d ∙ sym (==→eq f d f_d)))
          | inr f_ne ↦
              rw (e_d, f_ne, (present_table a aligned).1)
                (λ p q same. ==→ne (address_bits (dir f)) a (in_use f bf q) (sym same))
        ]
        | inr e_ne ↦ elim (Bool-cases (f == d)) [
          | inl f_d ↦
              rw (e_ne, f_d, (present_table a aligned).1)
                (λ p q same. ==→ne (address_bits (dir e)) a (in_use e be p) same)
          | inr f_ne ↦ rw (e_ne, f_ne) (is.apart e f be bf ne)
        ]
      ];
    }

    -- It maps no page yet.
    pub new-walk :
        (e : ℕ)
        → e < entries_per_table
        → (j : ℕ) → walk dir_new tables_new e j ≡ walk dir tables e j
    new-walk e b j = elim (Bool-cases (e == d)) [
      | inl same ↦
          let was : is_present (dir e) ≡ false =
            subst (λ z. is_present (dir z) ≡ false) (sym (==→eq e d same)) absent in
          let p = present_table a aligned in rw (was, same, p.0, p.1, ==_self a) refl
      | inr ne ↦ elim (Bool-cases (is_present (dir e))) [
        | inl p ↦ rw (ne, p, in_use e b p) refl
        | inr p ↦ rw (ne, p) refl
      ]
    ]

  -- A table that is given back.
  module _ (present : is_present (dir d) ≡ true) where
    abbrev dir_less : Entries
    dir_less = update dir d (clear_bit 1 (dir d))

    abbrev tables_less : ℕ → Option Entries
    tables_less = update tables (address_bits (dir d)) none

    other :
        (e : ℕ)
        → e < entries_per_table
        → e ≢ d
        → is_present (dir e) ≡ true
        → (address_bits (dir e) == address_bits (dir d)) ≡ false
    other e b ne p =
        ne→== (address_bits (dir e)) (address_bits (dir d)) (is.apart e d b bound ne p present)

    pub less-Paged : Paged dir_less tables_less
    less-Paged = record {
      leads = λ e b. elim (Bool-cases (e == d)) [
        | inl same ↦ rw (same, clear_present (dir d)) (λ p. cc)
        | inr ne ↦
            rw ne (λ p. let (t, at) = is.leads e b p in (t, rw (other e b (==→ne e d ne) p) at))
      ];
      apart = λ e f be bf ne. elim (Bool-cases (e == d)) [
        | inl e_d ↦ rw (e_d, clear_present (dir d)) (λ p. cc)
        | inr e_ne ↦ elim (Bool-cases (f == d)) [
          | inl f_d ↦ rw (e_ne, f_d, clear_present (dir d)) (λ p q. cc)
          | inr f_ne ↦ rw (e_ne, f_ne) (is.apart e f be bf ne)
        ]
      ];
    }

    pub less-walk :
        (e : ℕ)
        → e < entries_per_table
        → (j : ℕ) → walk dir_less tables_less e j ≡ (if e == d then none else walk dir tables e j)
    less-walk e b j = elim (Bool-cases (e == d)) [
      | inl same ↦ rw (same, clear_present (dir d)) refl
      | inr ne ↦ elim (Bool-cases (is_present (dir e))) [
        | inl p ↦ rw (ne, p, other e b (==→ne e d ne) p) refl
        | inr p ↦ rw (ne, p) refl
      ]
    ]
