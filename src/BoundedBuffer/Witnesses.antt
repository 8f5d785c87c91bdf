-- ===== src/BoundedBuffer/Witnesses.antt =====
-- The theorems on the bounded buffer in short interleavings.
use sty_linux.Base.{ℕ, ◌≡◌, refl, inl, inr, List, [], ◌∷◌, true}
use sty_linux.BoundedBuffer.{
  Shared, init, Thread, produce, consume, waits, locks, accesses, step, moves, Reachable, starts,
  goes_on,
}
use sty_linux.BoundedBuffer.Invariant.{Reachable-Inv}
use sty_linux.BoundedBuffer.Counts.{Inv, inside, total}
use sty_linux.BoundedBuffer.Safety.{InBounds, Reachable-InBounds}
use sty_linux.BoundedBuffer.Progress.{SomeGoes, Reachable-SomeGoes}

abbrev zeros : ℕ → ℕ
zeros i = 0

abbrev s1 : Shared
s1 = record (init zeros) { empty = 9 }

abbrev s2 : Shared
s2 = record s1 { mutex = true }

abbrev ts0 : List Thread
ts0 = consume 0 waits ∷ produce 7 waits ∷ []

abbrev ts1 : List Thread
ts1 = consume 0 waits ∷ produce 7 locks ∷ []

abbrev ts2 : List Thread
ts2 = consume 0 waits ∷ produce 7 accesses ∷ []

-- The producer has the mutex while the consumer waits.
reaches_access : Reachable s2 ts2
unfolding step
reaches_access =
    goes_on s1 ts1
      (goes_on (init zeros) ts0 (starts zeros refl (refl, (refl, tt)))
        (moves (consume 0 waits ∷ []) (produce 7 waits) (produce 7 locks) [] refl refl refl))
      (moves (consume 0 waits ∷ []) (produce 7 locks) (produce 7 accesses) [] refl refl refl)

Reachable-Inv_example : Inv s2 ts2
Reachable-Inv_example = Reachable-Inv s2 ts2 reaches_access

Reachable-InBounds_example :
    InBounds s2 (produce 7 accesses)
    × (total inside (consume 0 waits ∷ []) ≡ 0)
    × (total inside [] ≡ 0)
Reachable-InBounds_example =
    Reachable-InBounds s2 (consume 0 waits ∷ []) (produce 7 accesses) [] reaches_access refl

Reachable-SomeGoes_example : SomeGoes s2 ts2
Reachable-SomeGoes_example =
    Reachable-SomeGoes s2 ts2 7 0 accesses waits reaches_access (inr (inl refl)) (λ e. cc)
      (inl refl) (λ e. cc)
