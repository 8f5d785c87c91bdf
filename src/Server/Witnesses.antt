-- ===== src/Server/Witnesses.antt =====
-- The theorems on the server at a few messages.
use sty_linux.Base.{◌≡◌, refl, List, [], ◌∷◌, ◌++◌, done, ℤ, pos, negsuc, true, false}
use sty_linux.Server.{whole, partial, quit_task, Queue, Calls, run_server}
use sty_linux.Server.Laws.{adds, sums, run_server-quit, run_server-IsBad}

abbrev working : Calls
working = record { opens = true; closes = true; unlinks = true }

abbrev no_queue : Queue
no_queue = record { is_open = false; is_named = false }

abbrev pairs : List (ℤ × ℤ)
pairs = (pos 3, negsuc 4) ∷ (pos 20, pos 22) ∷ []

run_server-quit_example :
    run_server working (adds pairs ++ whole quit_task ∷ partial ∷ []) no_queue
    ≡ done (pos 0, sums pairs, no_queue)
run_server-quit_example =
    run_server-quit working pairs (partial ∷ []) no_queue refl (refl, (refl, tt))

run_server-IsBad_example :
    run_server working (adds pairs ++ partial ∷ whole quit_task ∷ []) no_queue
    ≡ done (negsuc 0, sums pairs, no_queue)
run_server-IsBad_example =
    run_server-IsBad working pairs partial (whole quit_task ∷ []) no_queue refl (refl, (refl, tt))
      tt
