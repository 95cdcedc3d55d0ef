-- ===== src/Semaphores/Processes.antt =====
-- The processes of server 2.0, workers and garbage collector, with their calls of the table. As in
-- Semaphores/Workers each search has a memory of its own.
use rest_technosphere_cpp_se.Base.{
  ℕ, ◌/◌, ◌<◌, ◌≡◌, ◌≢◌, refl, some, none, List, [], ◌∷◌, ◌++◌, Bytes, inl, inr, Option-cases,
  arith,
}
use rest_technosphere_cpp_se.Memory.{Mem}
use rest_technosphere_cpp_se.Locks.{Event, writes}
use rest_technosphere_cpp_se.PosixTable
use rest_technosphere_cpp_se.PosixTable.{segment_size, find_filled, find_free, visit}
use rest_technosphere_cpp_se.PosixTable.Locking.{
  IsDisciplined, IsDisciplined-append, find_filled-IsDisciplined, find_free-IsDisciplined,
  get-IsDisciplined, del-IsDisciplined, collect_garbage-IsDisciplined, visit-writes,
}
use rest_technosphere_cpp_se.Semaphores.{System, posix, Steps, start}
use rest_technosphere_cpp_se.Semaphores.Invariant.{IsSound, Touches}
use rest_technosphere_cpp_se.Semaphores.Progress.{IsFinished}
use rest_technosphere_cpp_se.Semaphores.Calls.{trace, calls-no_conflict, calls-finish}

-- A call of a worker, or a round of the garbage collector.
pub data Call : Type 0 where
  getting : (seen : Mem) (key : Bytes) → Call
  setting : (seen seen_free : Mem) (key : Bytes) → Call
  deleting : (seen : Mem) (key : Bytes) → Call
  collecting : (clock : ℕ → ℕ) (seen : Mem) → Call

-- the events of `set` behind a search that found nothing
unfoldable pub set_free : Mem → Bytes → List Event
unfolding find_free
set_free seen key =
    let cell = find_free seen key in
    elim cell.0 [ none ↦ cell.1 | some i ↦ cell.1 ++ visit i (writes i ∷ []) ]

unfoldable pub call_events : Call → List Event
unfolding find_filled set_free PosixTable.get PosixTable.del PosixTable.collect_garbage
call_events (getting seen key) = (PosixTable.get seen key).1
call_events (deleting seen key) = (PosixTable.del seen key).events
call_events (collecting clock seen) = (PosixTable.collect_garbage clock seen).events
call_events (setting seen seen_free key) =
    let own = find_filled seen key in
    elim own.0 [
      | some i ↦ own.1 ++ visit i (writes i ∷ [])
      | none ↦ own.1 ++ set_free seen_free key
    ]

set_free-IsDisciplined : (seen : Mem) (key : Bytes) → IsDisciplined (set_free seen key)
unfolding set_free
set_free-IsDisciplined seen key = elim (Option-cases (find_free seen key).0) [
  | inl o ↦ rw (set_free, o) (find_free-IsDisciplined seen key)
  | inr (i, o) ↦
      rw (set_free, o)
        (IsDisciplined-append (find_free seen key).1 (visit i (writes i ∷ []))
          (find_free-IsDisciplined seen key) (visit-writes i))
]

call_events-IsDisciplined : (c : Call) → IsDisciplined (call_events c)
unfolding call_events
call_events-IsDisciplined (getting seen key) = get-IsDisciplined seen key
call_events-IsDisciplined (deleting seen key) = del-IsDisciplined seen key
call_events-IsDisciplined (collecting clock seen) = collect_garbage-IsDisciplined clock seen
call_events-IsDisciplined (setting seen seen_free key) =
    elim (Option-cases (find_filled seen key).0) [
      | inl o ↦
          rw (call_events, o)
            (IsDisciplined-append (find_filled seen key).1 (set_free seen_free key)
              (find_filled-IsDisciplined seen key) (set_free-IsDisciplined seen_free key))
      | inr (i, o) ↦
          rw (call_events, o)
            (IsDisciplined-append (find_filled seen key).1 (visit i (writes i ∷ []))
              (find_filled-IsDisciplined seen key) (visit-writes i))
    ]

posix-IsSound : IsSound posix
posix-IsSound = record { exclusive = refl; fits = λ x. omega arith; takes = λ x. omega arith }

module _ (n : ℕ) (calls : ℕ → List Call) {s : System}
    (run : Steps posix segment_size n (start posix (λ i. trace call_events (calls i))) s) where
  -- Workers and garbage collector in any order of their events: a process that is about to write a
  -- record is the only one that is about to touch its block.
  pub processes-no_conflict :
      (i j a c : ℕ) (es : List Event)
      → i < n
      → j < n
      → i ≢ j
      → (s.process i).rest ≡ writes a ∷ es
      → Touches (s.process j) c
      → a / segment_size ≢ c / segment_size
  processes-no_conflict =
      calls-no_conflict posix posix-IsSound segment_size n call_events call_events-IsDisciplined
        calls run

  -- However far the processes have come, all can finish their calls.
  pub processes-finish : (u : System) × Steps posix segment_size n s u × IsFinished n u
  processes-finish =
      calls-finish posix posix-IsSound segment_size n call_events call_events-IsDisciplined calls
        run
