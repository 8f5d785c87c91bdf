-- ===== src/Marked/Search.antt =====
-- The search loop of savesolmalloc.c next to the one of vika4.
use sty_linux.Base.{
  ℕ, zero, suc, ◌≡◌, ◌≢◌, refl, ◌⊎◌, inl, inr, ◌==◌, ltb, leb, if◌then◌else◌, Bool, true, false,
  ◌&&◌, ◌||◌, Run, done, ◌>>=◌, Bool-cases, ==→ne, ne→==,
}
use sty_linux.Memory.{Memory, null}
use sty_linux.BestFit.{Link, next_of, link_to, better, search_best}
use sty_linux.Marked.{search_smallest}

-- `bestSize` is the size of the best block, if there is one.
abbrev pub Recorded : Memory → ℕ → ℕ → Type 0
Recorded m size best = (best ≡ null) ⊎ (size ≡ (m best).size)

abbrev pub found_of : ℕ × Link × Link → Run (ℕ × Link)
found_of (best, link, last) = done (best, link)

module _ (m : Memory) (want : ℕ) where
  same_test :
      (current size best : ℕ)
      → Recorded m size best
      → (leb want (m current).size && (best == null || ltb (m current).size size))
        ≡ better m want best current
  same_test current size best (inl none_yet) = rw none_yet refl
  same_test current size best (inr recorded) = rw recorded refl

  Recorded-step :
      (current size best : ℕ) (found : Bool)
      → Recorded m size best
      → Recorded m (if found then (m current).size else size) (if found then current else best)
  Recorded-step current size best true r = inr refl
  Recorded-step current size best false r = r

  pub link_to-next : (p : ℕ) → p ≢ null → link_to p ≡ next_of p
  link_to-next p ne = rw (ne→== p null ne) refl

  -- From the same start the loop of savesolmalloc.c, which keeps the size of the best block and the link to
  -- the current one, finds the block and the link that the loop of vika4 finds, whatever the list.
  pub search_smallest-search_best :
      (f prev current size best : ℕ) (link : Link)
      → Recorded m size best
      → (search_smallest f m want (link_to prev) current size best link >>= found_of)
        ≡ search_best f m want prev current best link
  unfolding search_smallest search_best
  search_smallest-search_best zero prev current size best link r = refl
  search_smallest-search_best (suc f) prev current size best link r =
      elim (Bool-cases (current == null)) [
        | inl e ↦ rw e refl
        | inr e ↦
            let same = same_test current size best r in
            let found = better m want best current in
            let rest =
              search_smallest-search_best f current (m current).next
                (if found then (m current).size else size) (if found then current else best)
                (if found then link_to prev else link) (Recorded-step current size best found r) in
            rw (e, same) (rw (link_to-next current (==→ne current null e)) at rest)
      ]
