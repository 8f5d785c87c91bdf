-- ===== src/Server/Tests.antt =====
-- Runs of the server with a few messages.
use sty_linux.Base.{◌≡◌, refl, [], ◌∷◌, done, pos, negsuc, true, false, out_of_fuel}
use sty_linux.Server.{whole, partial, add_task, quit_task, server_loop}

adds_two :
    server_loop (whole (add_task (pos 3) (negsuc 4)) ∷ whole quit_task ∷ [])
    ≡ done (false, (pos 3, negsuc 4, negsuc 1) ∷ [])
unfolding server_loop
adds_two = refl

stops_at_error :
    server_loop (whole (add_task (negsuc 0) (pos 9)) ∷ partial ∷ whole quit_task ∷ [])
    ≡ done (true, (negsuc 0, pos 9, pos 8) ∷ [])
unfolding server_loop
stops_at_error = refl

waits_for_more : server_loop (whole (add_task (pos 1) (pos 1)) ∷ []) ≡ out_of_fuel
unfolding server_loop
waits_for_more = refl
