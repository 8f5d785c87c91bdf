-- ===== src/Threaded/Threads.antt =====
-- The calls of the threaded allocator among other threads.
use sty_linux.Base.{ℕ, ◌≡◌, ◌-◌, refl, ap, ◌==◌, done, Bool-cases, inl, inr, done-injective}
use sty_linux.Memory.{null}
use sty_linux.BestFit.{Heap, header_size, my_free}
use sty_linux.Mutex.{free, World}
use sty_linux.Mutex.Serial.{Sections, none_yet, then_one, section, section_end, Ran, section-Ran}
use sty_linux.Threaded.{Shared, Next, with_heap, free_body, free_call}
use sty_linux.Threaded.Calls.{free_body-run}

-- The same for my_free, which takes the mutex unless its address is NULL.
pub free_call-Ran :
    (address : ℕ) (k : Next) (w : World Shared) (t : ℕ) (h : Heap)
    → w.holder ≡ free
    → w.threads t ≡ free_call address k
    → my_free address w.shared.heap ≡ done h
    → (v : World Shared) × Sections w v × Ran w t k (with_heap w.shared h) v
unfolding my_free free_call
free_call-Ran address k w t h eh at e = elim (Bool-cases (address == null)) [
  | inl z ↦
      let same : w.shared.heap ≡ h = done-injective _ _ (rw z at e) in
      (
        w,
        none_yet,
        record {
          free_again = eh;
          left = ap (with_heap w.shared) same;
          goes_on = rw z at at;
          others = λ u ne. refl;
        },
      )
  | inr z ↦
      let body = free_body (address - header_size) k in
      (
        section_end w t body,
        then_one none_yet (section t body eh (rw z at at)),
        section-Ran w t body k (with_heap w.shared h) (free_body-run address 0 k w.shared h z e),
      )
]
