-- ===== src/Examples/Locks.antt =====
-- Two processes in a given order of their events, up to a write by one and a read by the other.
use rest_technosphere_cpp_se.Base.{
  ℕ, true, ◌/◌, ◌≡◌, ◌≢◌, refl, ◌⊎◌, inl, inr, Option, some, none, List, [], ◌∷◌, codes, text_eq,
  if◌then◌else◌, ◌==◌, arith,
}
use native.Mathlib.Decide.{dec_lt}
use rest_technosphere_cpp_se.Memory.{Mem, store_int, write, strcpy, strcmp, c_string}
use rest_technosphere_cpp_se.Locks.{Event, release, follow_event}
use rest_technosphere_cpp_se.Probe.{switch_block, scan, wrap_around, find}
use rest_technosphere_cpp_se.Records.{filled_with, is_free}
use rest_technosphere_cpp_se.Murmur
use rest_technosphere_cpp_se.PosixTable
use rest_technosphere_cpp_se.PosixTable.{segment_size}
use rest_technosphere_cpp_se.Semaphores.Processes.{processes-no_conflict, processes-finish}
use rest_technosphere_cpp_se.Semaphores.Processes
use rest_technosphere_cpp_se.PosixTable.Slots.{zeroed}
use rest_technosphere_cpp_se.BaseTable.{HashTableBase, get, set, del}
use rest_technosphere_cpp_se.Semaphores.{
  System, Scheme, sysv_count, sysv, posix, perform, move, Steps, here, next, start,
}
use rest_technosphere_cpp_se.Semaphores.Calls.{trace}
use rest_technosphere_cpp_se.Semaphores.Progress.{IsFinished}
use rest_technosphere_cpp_se.Semaphores.Workers.{
  Call, getting, deleting, call_events, workers-no_conflict, workers-finish,
}

record Run (k : Scheme) (size n : ℕ) (s : System) : Type 0 where
  last : System
  steps : Steps k size n s last

known {ℓ} : {A : Type ℓ} (o : Option A) → (o ≡ none) ⊎ ((a : A) × (o ≡ some a))
known none = inl refl
known (some a) = inr (a, refl)

known_list : (es : List Event) → (es ≡ []) ⊎ ((e : Event) × (fs : List Event) × (es ≡ e ∷ fs))
known_list [] = inl refl
known_list (e ∷ fs) = inr (e, fs, refl)

-- the process does its next event, if it need not wait
turn : {k : Scheme} {size n : ℕ} {s : System} → Run k size n s → ℕ → Run k size n s
unfolding known known_list dec_lt
turn {k} {size} {n} r i = elim (dec_lt i n) [
  | no _ ↦ r
  | yes l ↦ elim (known_list (r.last.process i).rest) [
    | inl _ ↦ r
    | inr (e, es, q) ↦ elim (known (perform k r.last.value e)) [
      | inl _ ↦ r
      | inr (v, p) ↦ record { last = _; steps = next r.steps (move i e es l q p) }
    ]
  ]
]

turns : {k : Scheme} {size n : ℕ} {s : System} → Run k size n s → List ℕ → Run k size n s
unfolding turn
turns r [] = r
turns r (i ∷ is) = turns (turn r i) is

program : Unit {0}
unfolding text_eq store_int write strcpy strcmp c_string switch_block scan wrap_around find
    filled_with is_free Murmur.hash get set del call_events trace turns sysv_count perform
    follow_event PosixTable.set PosixTable.get PosixTable.del Processes.call_events
program = tt

abbrev small : HashTableBase
small = record { n_blocks = 2; block_size = 2 }

abbrev stored : Mem
stored =
    (set small (set small zeroed (codes "one") (codes "1")).memory (codes "a") (codes "2")).memory

abbrev calls : ℕ → List Call
calls i = if i == 0 then deleting stored (codes "one") ∷ [] else getting stored (codes "a") ∷ []

abbrev begin : Run sysv 2 2 (start sysv (λ i. trace (call_events small) (calls i)))
begin = record { last = _; steps = here }

-- process 0 is about to mark record 0, process 1 to read record 2
abbrev busy : Run sysv 2 2 (start sysv (λ i. trace (call_events small) (calls i)))
busy = turns begin (0 ∷ 1 ∷ 0 ∷ 0 ∷ 0 ∷ [])

workers-no_conflict_example : 0 / 2 ≢ 2 / 2
unfolding program
workers-no_conflict_example =
    workers-no_conflict small 2 calls busy.steps 0 1 0 2 (release 0 true ∷ []) (omega arith)
      (omega arith) (omega arith) refl (_, inl refl)

workers-finish_example : (u : System) × Steps sysv 2 2 busy.last u × IsFinished 2 u
workers-finish_example = workers-finish small 2 calls busy.steps

-- the same on the table of server 2.0
abbrev held : Mem
held =
    (PosixTable.set (PosixTable.set zeroed (codes "one") (codes "1") 60 1000).memory (codes "a")
      (codes "2") 60 1000).memory

abbrev rounds : ℕ → List Processes.Call
rounds i =
    if i == 0
    then Processes.deleting held (codes "one") ∷ []
    else Processes.getting held (codes "a") ∷ []

abbrev open_server :
    Run posix segment_size 2 (start posix (λ i. trace Processes.call_events (rounds i)))
open_server = record { last = _; steps = here }

abbrev serving :
    Run posix segment_size 2 (start posix (λ i. trace Processes.call_events (rounds i)))
serving = turns open_server (1 ∷ 0 ∷ 0 ∷ 0 ∷ 0 ∷ [])

processes-no_conflict_example : 716 / segment_size ≢ 434 / segment_size
unfolding program
processes-no_conflict_example =
    processes-no_conflict 2 rounds serving.steps 0 1 716 434 (release 5 true ∷ []) (omega arith)
      (omega arith) (omega arith) refl (_, inl refl)

processes-finish_example : (u : System) × Steps posix segment_size 2 serving.last u × IsFinished 2 u
processes-finish_example = processes-finish 2 rounds serving.steps
