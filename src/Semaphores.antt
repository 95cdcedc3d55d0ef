-- ===== src/Semaphores.antt =====
-- Several processes that share the semaphores of the blocks: p5/worker/src/SysVHashTable.cpp, where a
-- semaphore starts at the number of workers, a shared lock takes one unit and an exclusive lock all of
-- them, and p6/src/PosixHashTable.cpp, where it starts at one and each lock takes it. A process is the
-- list of the events it has before it (module Locks); every order of the processes' events is a run.
-- `semop` and `sem_wait` wait for as long as the value is too low; here the process has no step then.
pub mod Family
pub mod Discipline
pub mod Invariant
pub mod Progress
pub mod Calls
pub mod Workers
pub mod Processes
use rest_technosphere_cpp_se.Base.{
  ℕ, ◌+◌, ◌-◌, ◌<◌, ◌≡◌, Bool, true, false, Option, none, some, List, [], ◌∷◌, leb, ◌==◌,
  if◌then◌else◌,
}
use rest_technosphere_cpp_se.Locks.{
  Event, acquire, release, reads, writes, Held, idle, follow_event,
}
use rest_technosphere_cpp_se.Semaphores.Family.{update}

-- What a process holds, and the events before it.
pub record Process : Type 0 where
  pub held : Held
  pub rest : List Event

-- The values of the semaphores, and the processes by their number.
pub record System : Type 0 where
  pub value : ℕ → ℕ
  pub process : ℕ → Process

-- The number of units that a semaphore starts with, and that a lock takes.
pub record Scheme : Type 0 where
  pub units : ℕ
  pub cost : Bool → ℕ

-- `count` in `SysVHashTable::lock` and `unlock`
unfoldable pub sysv_count : Bool → ℕ
sysv_count exclusive = if exclusive then 4 else 1

abbrev pub sysv : Scheme
unfolding sysv_count
sysv = record { units = 4; cost = sysv_count }

-- `sem_wait` and `sem_post` of a semaphore that `sem_open` has made with 1
abbrev pub posix : Scheme
posix = record { units = 1; cost = λ _. 1 }

-- what an event does to the semaphores; nothing while the process has to wait
unfoldable pub perform : Scheme → (ℕ → ℕ) → Event → Option (ℕ → ℕ)
perform k value (acquire b x) =
    if leb (k.cost x) (value b) then some (update value b (value b - k.cost x)) else none
perform k value (release b x) = some (update value b (value b + k.cost x))
perform k value (reads i) = some value
perform k value (writes i) = some value

-- A process out of `n` does its next event. The blocks have `size` records.
pub data Step (k : Scheme) (size n : ℕ) (s : System) : System → Type 0 where
  move :
      (i : ℕ) (e : Event) (es : List Event) {value : ℕ → ℕ}
      → i < n
      → (s.process i).rest ≡ e ∷ es
      → perform k s.value e ≡ some value
      → Step k size n s (record {
        value = value;
        process =
            update s.process i
              (record { held = follow_event size (s.process i).held e; rest = es });
      })

pub data Steps (k : Scheme) (size n : ℕ) (s : System) : System → Type 0 where
  here : Steps k size n s s
  next : {t u : System} → Steps k size n s t → Step k size n t u → Steps k size n s u

-- the start: every semaphore at its full value, no lock held
abbrev pub start : Scheme → (ℕ → List Event) → System
start k program = record {
  value = λ b. k.units;
  process = λ i. record { held = idle; rest = program i };
}
