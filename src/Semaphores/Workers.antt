-- ===== src/Semaphores/Workers.antt =====
-- The workers of server 1.0 with their calls of the table.
-- While one of them waits the others write: each search of a call has a memory of its own, `seen`, that
-- gives each record as it is when the search reads it.
use rest_technosphere_cpp_se.Base.{
  ℕ, ◌/◌, ◌<◌, ◌≡◌, ◌≢◌, refl, true, some, none, List, [], ◌∷◌, ◌++◌, Bytes, inl, inr, Option-cases,
  arith,
}
use mathlib.Core.List.{append_assoc}
use rest_technosphere_cpp_se.Memory.{Mem}
use rest_technosphere_cpp_se.Locks.{Event, writes}
use rest_technosphere_cpp_se.BaseTable
use rest_technosphere_cpp_se.BaseTable.{HashTableBase, find_filled, find_free, find_cell, visit}
use rest_technosphere_cpp_se.BaseTable.Locking.{
  IsDisciplined, IsDisciplined-append, find_filled-IsDisciplined, find_free-IsDisciplined,
  visit-writes, get-IsDisciplined, del-IsDisciplined,
}
use rest_technosphere_cpp_se.Semaphores.{System, sysv_count, sysv, Steps, start}
use rest_technosphere_cpp_se.Semaphores.Invariant.{IsSound, Touches}
use rest_technosphere_cpp_se.Semaphores.Progress.{IsFinished}
use rest_technosphere_cpp_se.Semaphores.Calls.{trace, calls-no_conflict, calls-finish}

-- A call of a worker.
pub data Call : Type 0 where
  getting : (seen : Mem) (key : Bytes) → Call
  setting : (seen seen_free : Mem) (key : Bytes) → Call
  deleting : (seen : Mem) (key : Bytes) → Call

module _ (g : HashTableBase) where
  -- the events of `set` behind a search that found nothing
  unfoldable pub set_free : Mem → Bytes → List Event
  unfolding find_free
  set_free seen key =
      let cell = find_free g seen key in
      elim cell.0 [ none ↦ cell.1 | some i ↦ cell.1 ++ visit g true i (writes i ∷ []) ]

  unfoldable pub call_events : Call → List Event
  unfolding find_filled set_free BaseTable.get BaseTable.del
  call_events (getting seen key) = (BaseTable.get g seen key).1
  call_events (deleting seen key) = (BaseTable.del g seen key).events
  call_events (setting seen seen_free key) =
      let own = find_filled g seen key in
      elim own.0 [
        | some i ↦ own.1 ++ visit g true i (writes i ∷ [])
        | none ↦ own.1 ++ set_free seen_free key
      ]

  set_free-IsDisciplined : (seen : Mem) (key : Bytes) → IsDisciplined g (set_free seen key)
  unfolding set_free
  set_free-IsDisciplined seen key = elim (Option-cases (find_free g seen key).0) [
    | inl o ↦ rw (set_free, o) (find_free-IsDisciplined g seen key)
    | inr (i, o) ↦
        rw (set_free, o)
          (IsDisciplined-append g (find_free g seen key).1 (visit g true i (writes i ∷ []))
            (find_free-IsDisciplined g seen key) (visit-writes g i))
  ]

  call_events-IsDisciplined : (c : Call) → IsDisciplined g (call_events c)
  unfolding call_events
  call_events-IsDisciplined (getting seen key) = get-IsDisciplined g seen key
  call_events-IsDisciplined (deleting seen key) = del-IsDisciplined g seen key
  call_events-IsDisciplined (setting seen seen_free key) =
      elim (Option-cases (find_filled g seen key).0) [
        | inl o ↦
            rw (call_events, o)
              (IsDisciplined-append g (find_filled g seen key).1 (set_free seen_free key)
                (find_filled-IsDisciplined g seen key) (set_free-IsDisciplined seen_free key))
        | inr (i, o) ↦
            rw (call_events, o)
              (IsDisciplined-append g (find_filled g seen key).1 (visit g true i (writes i ∷ []))
                (find_filled-IsDisciplined g seen key) (visit-writes g i))
      ]

  find_cell-own :
      (m : Mem) (key : Bytes) (i : ℕ)
      → (find_filled g m key).0 ≡ some i
      → find_cell g m key ≡ find_filled g m key
  unfolding find_cell
  find_cell-own m key i o = ground arith

  find_cell-free :
      (m : Mem) (key : Bytes)
      → (find_filled g m key).0 ≡ none
      → find_cell g m key
        ≡ ((find_free g m key).0, (find_filled g m key).1 ++ (find_free g m key).1)
  unfolding find_cell
  find_cell-free m key o = rw (o, find_cell)

  -- with no writer in between, the events are those of the method
  set-setting :
      (m : Mem) (key value : Bytes)
      → (BaseTable.set g m key value).events ≡ call_events (setting m m key)
  unfolding call_events set_free BaseTable.set
  set-setting m key value = elim (Option-cases (find_filled g m key).0) [
    | inr (i, o) ↦ let c = find_cell-own m key i o in ground arith
    | inl o ↦
        let c = find_cell-free m key o in
        elim (Option-cases (find_free g m key).0) [
          | inl f ↦ ground arith
          | inr (i, f) ↦ ground (
            arith,
            append_assoc (find_filled g m key).1 (find_free g m key).1
                (visit g true i (writes i ∷ [])),
          )
        ]
  ]

pub sysv_units : sysv.units ≡ 4
unfolding sysv
sysv_units = refl

sysv-IsSound : IsSound sysv
unfolding sysv_count
sysv-IsSound = record { exclusive = refl; fits = λ x. ground arith; takes = λ x. ground arith }

module _ (g : HashTableBase) (n : ℕ) (calls : ℕ → List Call) {s : System}
    (run : Steps sysv g.block_size n (start sysv (λ i. trace (call_events g) (calls i))) s) where
  -- Whatever the workers call and however their events are interleaved: while one of them is about to
  -- write a record, no other is about to read or write a record of the same block.
  pub workers-no_conflict :
      (i j a c : ℕ) (es : List Event)
      → i < n
      → j < n
      → i ≢ j
      → (s.process i).rest ≡ writes a ∷ es
      → Touches (s.process j) c
      → a / g.block_size ≢ c / g.block_size
  workers-no_conflict =
      calls-no_conflict sysv sysv-IsSound g.block_size n (call_events g)
        (call_events-IsDisciplined g) calls run

  -- However far the workers have come, all of them can finish their calls: they do not deadlock.
  pub workers-finish : (u : System) × Steps sysv g.block_size n s u × IsFinished n u
  workers-finish =
      calls-finish sysv sysv-IsSound g.block_size n (call_events g) (call_events-IsDisciplined g)
        calls run
