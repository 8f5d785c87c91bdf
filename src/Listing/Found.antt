-- ===== src/Listing/Found.antt =====
-- The files that a listing of ls.c is to show, and the line for each of them.
use sty_linux.Base.{
  ℕ, ◌<◌, ◌≡◌, refl, sym, ap, ◌∙◌, ◌==◌, if◌then◌else◌, Bool, true, false, ◌&&◌, List, [], ◌∷◌,
  ◌++◌, length, Option, none, some, ℤ, pos, negsuc, Run, done, lt→ltb, inl, inr, ◌⊎◌,
  done-injective,
}
use mathlib.Core.Path.{subst}
use mathlib.Core.List.Memᴰ
use mathlib.Core.List.{Memᴰ}
use sty_linux.MemoryDump.{Text, codes}
use sty_linux.Listing.{
  Info, FileLine, DirEntries, none_left, entry, file_type, fifo, directory_type, link, link_text,
  type_text, is_dot, join, line_of, open_dir,
}

-- malloc has memory for every path, and the buffer holds every target.
abbrev pub Short : Option Info → Type 0
Short none = Unit
Short (some i) = length i.target < 1020

abbrev pub Tame : DirEntries → Type 0
Tame none_left = Unit
Tame (entry name memory stat readable contents rest) =
    (memory ≡ true) × Short stat × Tame contents × Tame rest

module _ (executes : ℕ → Bool) (recursive : Bool) where
  -- The file at `p` is one of the entries, or below a directory among them that can be read, if the listing is
  -- recursive; lstat knows it and every directory on the way.
  pub data IsFound : Text → DirEntries → Text → Info → Type 0 where
    here :
        {path name p : Text} {memory readable : Bool} {stat : Option Info} {i : Info}
        {contents rest : DirEntries}
        → is_dot name ≡ false
        → stat ≡ some i
        → p ≡ join path name
        → IsFound path (entry name memory stat readable contents rest) p i
    inside :
        {path name p : Text} {memory readable : Bool} {stat : Option Info} {i j : Info}
        {contents rest : DirEntries}
        → is_dot name ≡ false
        → stat ≡ some j
        → recursive ≡ true
        → (file_type j.mode == directory_type) ≡ true
        → readable ≡ true
        → IsFound (join path name) contents p i
        → IsFound path (entry name memory stat readable contents rest) p i
    behind :
        {path name p : Text} {memory readable : Bool} {stat : Option Info} {i : Info}
        {contents rest : DirEntries}
        → IsFound path rest p i
        → IsFound path (entry name memory stat readable contents rest) p i

  -- The lines are those of the files that are found.
  pub record Prints (path : Text) (es : DirEntries) (lines : List FileLine) : Type 0 where
    pub sound :
        (l : FileLine)
        → Memᴰ l lines
        → (p : Text) × (i : Info) × (kind : Text) × IsFound path es p i
          × (type_text executes i ≡ done kind)
          × (l ≡ line_of p i kind)
    pub complete :
        (p : Text) (i : Info) (kind : Text)
        → IsFound path es p i
        → type_text executes i ≡ done kind
        → Memᴰ (line_of p i kind) lines

  pub type_text-done :
      (i : Info) → length i.target < 1020 → (kind : Text) × (type_text executes i ≡ done kind)
  unfolding type_text
  type_text-done i short =
      go (file_type i.mode == fifo) (file_type i.mode == directory_type) (file_type i.mode == link)
        (executes i.mode) (link_text i.target)
        (codes " -> " ++ i.target, rw (lt→ltb (length i.target) 1020 short) refl)
    where
      go :
          (b1 b2 b3 b4 : Bool) (run : Run Text)
          → (kind : Text) × (run ≡ done kind)
          → (kind : Text) × ((if b1
                then done (codes "|")
                else if b2
                then done (codes "/")
                else if b3
                then run
                else if b4
                then done (codes "*")
                else done [])
              ≡ done kind)
      go true b2 b3 b4 run e = (codes "|", refl)
      go false true b3 b4 run e = (codes "/", refl)
      go false false true b4 run e = e
      go false false false true run e = (codes "*", refl)
      go false false false false run e = ([], refl)

  -- An entry that is left out.
  pub skipped :
      (path name : Text) (memory readable : Bool) (stat : Option Info) (contents rest : DirEntries)
      (lines : List FileLine)
      → (is_dot name ≡ true) ⊎ (stat ≡ none)
      → Prints path rest lines
      → Prints path (entry name memory stat readable contents rest) lines
  skipped path name memory readable stat contents rest lines why h = record {
    sound = λ l m. let (p, i, kind, f, e, z) = h.sound l m in (p, i, kind, behind f, e, z);
    complete = only;
  }
    where
      only :
          (p : Text) (i : Info) (kind : Text)
          → IsFound path (entry name memory stat readable contents rest) p i
          → type_text executes i ≡ done kind
          → Memᴰ (line_of p i kind) lines
      only p i kind (here dot known at) e = elim why [ inl z ↦ absurd (cc) | inr z ↦ absurd (cc) ]
      only p i kind (inside dot known r d ok f) e = elim why [
        | inl z ↦ absurd (cc)
        | inr z ↦ absurd (cc)
      ]
      only p i kind (behind f) e = h.complete p i kind f e

  -- What is printed for a directory: its lines, or nothing.
  abbrev pub Below : (descends readable : Bool) (inner b : List FileLine) → Type 0
  Below descends readable inner b =
      ((descends ≡ true) × (readable ≡ true) × (b ≡ inner))
      ⊎ (¬ ((descends ≡ true) × (readable ≡ true)) × (b ≡ []))

  pub Below-run :
      (descends readable : Bool) (run : Run (ℤ × List FileLine)) (inner : List FileLine)
      → run ≡ done (pos 0, inner)
      → (r : ℤ) × (b : List FileLine) × ((if descends
            then open_dir executes recursive readable run
            else done (pos 0, []))
          ≡ done (r, b))
        × Below descends readable inner b
  Below-run true true run inner e = (pos 0, inner, e, inl (refl, refl, refl))
  Below-run true false run inner e = (negsuc 0, [], refl, inr ((λ z. absurd (cc)), refl))
  Below-run false readable run inner e = (pos 0, [], refl, inr ((λ z. absurd (cc)), refl))

  &&-parts : (x y : Bool) → (x && y) ≡ true → (x ≡ true) × (y ≡ true)
  &&-parts true y e = (refl, e)
  &&-parts false y e = absurd (cc)

  -- An entry that is printed.
  pub printed :
      (path name : Text) (memory readable : Bool) (i : Info) (contents rest : DirEntries)
      (kind : Text) (inner b lines : List FileLine)
      → is_dot name ≡ false
      → type_text executes i ≡ done kind
      → Below (recursive && file_type i.mode == directory_type) readable inner b
      → Prints (join path name) contents inner
      → Prints path rest lines
      → Prints path
          (entry name memory (some i) readable contents rest)
          (line_of (join path name) i kind ∷ b ++ lines)
  printed path name memory readable i contents rest kind inner b lines dot typed below h k =
      record { sound = sound; complete = complete }
    where
      Source : FileLine → Type 0
      Source l =
          (p : Text) × (j : Info) × (kind : Text) × IsFound path
            (entry name memory (some i) readable contents rest) p j
          × (type_text executes j ≡ done kind)
          × (l ≡ line_of p j kind)

      from_below : (l : FileLine) → Memᴰ l b → Source l
      from_below l m = elim below [
        | inl (d, r, e) ↦
            let (rec, dir) = &&-parts recursive (file_type i.mode == directory_type) d in
            let (p, j, kind', f, t, z) = h.sound l (subst (Memᴰ l) e m) in
            (p, j, kind', inside dot refl rec dir r f, t, z)
        | inr (_, e) ↦ absurd (Memᴰ.not-nil (subst (Memᴰ l) e m))
      ]

      sound : (l : FileLine) → Memᴰ l (line_of (join path name) i kind ∷ b ++ lines) → Source l
      sound l m = elim (Memᴰ.cases_cons m) [
        | inl e ↦ (join path name, i, kind, here dot refl refl, typed, e)
        | inr m' ↦ elim (Memᴰ.append_cases b m') [
          | inl m'' ↦ from_below l m''
          | inr m'' ↦ let (p, j, kind', f, t, z) = k.sound l m'' in (p, j, kind', behind f, t, z)
        ]
      ]

      complete :
          (p : Text) (j : Info) (kind' : Text)
          → IsFound path (entry name memory (some i) readable contents rest) p j
          → type_text executes j ≡ done kind'
          → Memᴰ (line_of p j kind') (line_of (join path name) i kind ∷ b ++ lines)
      complete p j kind' (here d known at) t =
          let same : i ≡ j = cc in
          let kinds : kind ≡ kind' =
            done-injective kind kind' (sym typed ∙ ap (type_text executes) same ∙ t) in
          Memᴰ.head (λ n. line_of (at n) (sym same n) (sym kinds n))
      complete p j kind' (inside {j = i'} d known rec dir r f) t = elim below [
        | inl (_, _, e) ↦ Memᴰ.tail (
            Memᴰ.append_left lines
              (subst (Memᴰ (line_of p j kind')) (sym e) (h.complete p j kind' f t)))
        | inr (closed, _) ↦
            let same : i ≡ i' = cc in
            let isdir : (file_type i.mode == directory_type) ≡ true =
              ap (λ (z : Info). file_type z.mode == directory_type) same ∙ dir in
            absurd (closed (rw (rec, isdir) refl, r))
      ]
      complete p j kind' (behind f) t = Memᴰ.tail (Memᴰ.append_right b (k.complete p j kind' f t))
