-- ===== src/Server/Laws.antt =====
-- What the server of message_queue.c prints and returns.
use sty_linux.Base.{
  ◌≡◌, ◌≢◌, refl, if◌then◌else◌, true, false, List, [], ◌∷◌, ◌++◌, done, ℤ, pos, negsuc, ◌+ℤ◌, All,
  ne→==, ◌&&◌, Bool-cases, inl, inr,
}
use sty_linux.Server.{
  Received, whole, partial, Line, fits_int, add_task, quit_task, server_loop, Queue, Calls,
  run_server, cmd_add, cmd_quit,
}

-- The messages of clients that add pairs of numbers, and the lines that they ask for.
abbrev pub adds : List (ℤ × ℤ) → List Received
adds [] = []
adds ((a, b) ∷ xs) = whole (add_task a b) ∷ adds xs

abbrev pub sums : List (ℤ × ℤ) → List Line
sums [] = []
sums ((a, b) ∷ xs) = (a, b, a +ℤ b) ∷ sums xs

abbrev pub AllFit : List (ℤ × ℤ) → Type 0
AllFit xs = All (λ c. fits_int (c.0 +ℤ c.1) ≡ true) xs

-- A message that is no command, or none at all.
abbrev pub IsBad : Received → Type 0
IsBad partial = Unit
IsBad (whole m) = (m.command ≢ cmd_add) × (m.command ≢ cmd_quit)

server_loop-quit :
    (xs : List (ℤ × ℤ)) (rest : List Received)
    → AllFit xs
    → server_loop (adds xs ++ whole quit_task ∷ rest) ≡ done (false, sums xs)
unfolding server_loop
server_loop-quit [] rest fit = refl
server_loop-quit ((a, b) ∷ xs) rest fit = rw (fit.0, server_loop-quit xs rest fit.1) refl

server_loop-IsBad :
    (xs : List (ℤ × ℤ)) (bad : Received) (rest : List Received)
    → AllFit xs
    → IsBad bad
    → server_loop (adds xs ++ bad ∷ rest) ≡ done (true, sums xs)
unfolding server_loop
server_loop-IsBad [] partial rest fit is_bad = refl
server_loop-IsBad [] (whole m) rest fit is_bad =
    rw (ne→== m.command cmd_quit is_bad.1, ne→== m.command cmd_add is_bad.0) refl
server_loop-IsBad ((a, b) ∷ xs) bad rest fit is_bad =
    rw (fit.0, server_loop-IsBad xs bad rest fit.1 is_bad) refl

-- The queue after the server, by what the calls for it answer.
abbrev pub left : Calls → Queue
left calls = record {
  is_open = if calls.closes then false else true;
  is_named = if calls.unlinks then false else true;
}

-- If the queue opens, the sums fit an int, and clients ask for sums and then to quit, the server prints
-- these sums in order and looks at no later message. It closes the queue and removes its name, and
-- returns 0 if both calls work and -1 if not.
pub run_server-quit :
    (calls : Calls) (xs : List (ℤ × ℤ)) (rest : List Received) (q : Queue)
    → calls.opens ≡ true
    → AllFit xs
    → run_server calls (adds xs ++ whole quit_task ∷ rest) q
      ≡ done ((if calls.closes && calls.unlinks then pos 0 else negsuc 0), sums xs, left calls)
unfolding run_server
run_server-quit calls xs rest q opens fit = elim (Bool-cases calls.closes) [
  | inl c ↦ elim (Bool-cases calls.unlinks) [
    | inl u ↦ rw (opens, server_loop-quit xs rest fit, c, u) refl
    | inr u ↦ rw (opens, server_loop-quit xs rest fit, c, u) refl
  ]
  | inr c ↦ elim (Bool-cases calls.unlinks) [
    | inl u ↦ rw (opens, server_loop-quit xs rest fit, c, u) refl
    | inr u ↦ rw (opens, server_loop-quit xs rest fit, c, u) refl
  ]
]

-- If the queue opens and a message is no command, or is not received whole, the server prints the sums
-- before it, if they fit an int, looks at no later message, returns -1, and closes the queue and removes
-- its name all the same.
pub run_server-IsBad :
    (calls : Calls) (xs : List (ℤ × ℤ)) (bad : Received) (rest : List Received) (q : Queue)
    → calls.opens ≡ true
    → AllFit xs
    → IsBad bad
    → run_server calls (adds xs ++ bad ∷ rest) q ≡ done (negsuc 0, sums xs, left calls)
unfolding run_server
run_server-IsBad calls xs bad rest q opens fit is_bad = elim (Bool-cases calls.closes) [
  | inl c ↦ elim (Bool-cases calls.unlinks) [
    | inl u ↦ rw (opens, server_loop-IsBad xs bad rest fit is_bad, c, u) refl
    | inr u ↦ rw (opens, server_loop-IsBad xs bad rest fit is_bad, c, u) refl
  ]
  | inr c ↦ elim (Bool-cases calls.unlinks) [
    | inl u ↦ rw (opens, server_loop-IsBad xs bad rest fit is_bad, c, u) refl
    | inr u ↦ rw (opens, server_loop-IsBad xs bad rest fit is_bad, c, u) refl
  ]
]
