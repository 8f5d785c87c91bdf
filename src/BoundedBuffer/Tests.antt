-- ===== src/BoundedBuffer/Tests.antt =====
-- `main` of the bounded buffer: one produce, then one consume.
use sty_linux.Base.{ℕ, zero, suc, ◌≡◌, refl, none, some}
use sty_linux.BoundedBuffer.{Shared, init, Thread, produce, consume, waits, returns, step}

-- A call that runs for at most `n` steps without another thread.
abbrev pub alone : ℕ → Thread → Shared → Thread × Shared
alone zero t s = (t, s)
alone (suc n) t s = elim (step t s) [ none ↦ (t, s) | some (t', s') ↦ alone n t' s' ]

abbrev after_produce : Shared
after_produce = (alone 5 (produce 10 waits) (init (λ _. 0))).1

consumes_10 : (alone 5 (consume 0 waits) after_produce).0 ≡ consume 10 returns
unfolding step
consumes_10 = refl
