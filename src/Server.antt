-- ===== src/Server.antt =====
-- The calculator of STY25/vika8/assignment08-templates/p2/message_queue.c. What the calls of the message
-- queue answer is an argument. What is printed is a list of calculations, and a sum that overflows an
-- `int`, which C leaves undefined, is a fault.
pub mod Laws
mod Tests
mod Witnesses
use sty_linux.Base.{
  ℕ, zero, suc, ◌+◌, ◌-◌, ◌^◌, ◌==◌, ltb, leb, if◌then◌else◌, Bool, true, false, ◌&&◌, ◌||◌, List,
  [], ◌∷◌, Option, none, some, Run, done, fault, out_of_fuel, ◌>>=◌, ℤ, pos, negsuc, ◌+ℤ◌,
}

-- `CmdAdd` and `CmdQuit`
abbrev pub cmd_add : ℕ
cmd_add = 0

abbrev pub cmd_quit : ℕ
cmd_quit = 1

pub record Message : Type 0 where
  pub command : ℕ
  pub parameter1 : ℤ
  pub parameter2 : ℤ

-- What `mq_receive` gives: a message of the right size, or an error or another size.
pub data Received : Type 0 where
  whole : Message → Received
  partial : Received

-- A line `Calc: a + b = c`
abbrev pub Line : Type 0
Line = ℤ × ℤ × ℤ

abbrev pub fits_int : ℤ → Bool
fits_int (pos n) = ltb n (2 ^ 31)
fits_int (negsuc n) = ltb n (2 ^ 31)

-- The messages of the clients.
abbrev pub quit_task : Message
quit_task = record { command = cmd_quit; parameter1 = pos 0; parameter2 = pos 0 }

abbrev pub add_task : ℤ → ℤ → Message
add_task a b = record { command = cmd_add; parameter1 = a; parameter2 = b }

-- The server's loop: `hadError` and the lines, the first one first. Where nothing more is received, the
-- server waits, and the loop is out of rounds.
unfoldable pub server_loop : List Received → Run (Bool × List Line)
server_loop [] = out_of_fuel
server_loop (partial ∷ rs) = done (true, [])
server_loop (whole m ∷ rs) =
    let sum = m.parameter1 +ℤ m.parameter2 in
    let rest = server_loop rs >>= λ (e, ls). done (e, (m.parameter1, m.parameter2, sum) ∷ ls) in
    if m.command == cmd_quit
    then done (false, [])
    else if m.command == cmd_add
    then (if fits_int sum then rest else fault)
    else done (true, [])

-- The server's descriptor is open, and the queue has a name.
pub record Queue : Type 0 where
  pub is_open : Bool
  pub is_named : Bool

-- What `mq_open`, `mq_close` and `mq_unlink` answer.
pub record Calls : Type 0 where
  pub opens : Bool
  pub closes : Bool
  pub unlinks : Bool

unfoldable pub run_server : Calls → List Received → Queue → Run (ℤ × List Line × Queue)
run_server calls received q =
    let opened : Queue = record { is_open = true; is_named = true } in
    if calls.opens
    then (server_loop received >>= λ (had_error, ls).
        let closed : Queue = record opened { is_open = if calls.closes then false else true } in
        let unlinked : Queue = record closed { is_named = if calls.unlinks then false else true } in
        let e1 = if calls.closes then had_error else true in
        let e2 = if calls.unlinks then e1 else true in
        done ((if e2 then negsuc 0 else pos 0), ls, unlinked))
    else done (negsuc 0, [], q)
