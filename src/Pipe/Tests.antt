-- ===== src/Pipe/Tests.antt =====
-- Runs of pipe.c, step by step.
use sty_linux.Base.{◌≡◌, refl, false, true, [], none, negsuc, pos}
use sty_linux.Pipe.{
  exited, signaled, replaced, refused, Answers, over, returned, Fork, child_step, parent_step,
  kill_child, child_moves, parent_moves, child_dies, ForkSteps, stay, more, forked, gives_up,
  execute_begin,
}

-- There is no such program: ENOENT is 2, and ECANCELED 125.
abbrev pub no_program : Answers
no_program = record { exec = refused 2; wait = none; read_works = true; canceled = 125 }

-- A program that ends with 3.
abbrev pub program : Answers
program = record { exec = replaced (exited 3); wait = none; read_works = true; canceled = 125 }

abbrev ended : Fork → Fork
ended s = record s {
  buffer = [];
  parent_read = false;
  parent_write = false;
  child_read = false;
  child_write = false;
}

abbrev pub failed : Fork
failed =
    ended (record (forked 0) { child = over (exited 0); parent = returned (negsuc 0); errno = 2 })

abbrev pub ran : Fork
ran = ended (record (forked 0) { child = over (exited 3); parent = returned (pos 3) })

abbrev dead : Fork
dead =
    ended (record (forked 0) { child = over signaled; parent = returned (negsuc 0); errno = 125 })

pub no_program-failed : ForkSteps no_program (forked 0) 9 failed
unfolding child_step parent_step
no_program-failed =
    more
      (more
        (more
          (more
            (more
              (more
                (more (more (more stay (child_moves refl)) (child_moves refl)) (parent_moves refl))
                (child_moves refl))
              (child_moves refl))
            (child_moves refl))
          (parent_moves refl))
        (parent_moves refl))
      (parent_moves refl)

pub program-ran : ForkSteps program (forked 0) 7 ran
unfolding child_step parent_step
program-ran =
    more
      (more
        (more
          (more (more (more (more stay (parent_moves refl)) (child_moves refl)) (child_moves refl))
            (child_moves refl))
          (parent_moves refl))
        (parent_moves refl))
      (parent_moves refl)

program-killed : ForkSteps program (forked 0) 6 dead
unfolding child_step parent_step kill_child
program-killed =
    more
      (more
        (more (more (more (more stay (parent_moves refl)) (child_moves refl)) (child_moves refl))
          (child_dies refl))
        (parent_moves refl))
      (parent_moves refl)

no_fork : execute_begin false true false 0 ≡ gives_up (negsuc 0) 2
unfolding execute_begin
no_fork = refl
