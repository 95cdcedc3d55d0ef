-- ===== src/Ipc.antt =====
-- The shared objects of both servers: the queue, the memory and the semaphores of server 1.0 (module SysV) and
-- the memory and the named semaphores of server 2.0 (module Posix). The objects are the system's: what the calls
-- do to one of them is the record Shared.
pub mod SysV
pub mod Leftovers
pub mod Posix
pub mod Names
use rest_technosphere_cpp_se.Base.{◌≡◌, Option, none, some}
use mathlib.Core.Option

-- an object by its key or name: what is in it, if it exists
pub record Shared (State Value : Type 0) : Type 0 where
  pub content : State → Option Value
  -- A call that opens it, and makes it where it does not exist (`IPC_CREAT`, `O_CREAT`) with a value that the
  -- caller gives or, where it gives none, the system.
  pub open_or_create : Value → State → State
  -- what a process writes to it, such as by `memset` and `semctl` with `SETALL`
  pub change : (Value → Value) → State → State
  -- `IPC_RMID`, `shm_unlink` and `sem_unlink`
  pub remove : State → State
  pub content-open_or_create :
      (v : Value) (s : State) → content (open_or_create v s) ≡ some (Option.get_or (content s) v)
  pub content-change :
      (f : Value → Value) (s : State) (v : Value)
      → content s ≡ some v
      → content (change f s) ≡ some (f v)
  pub content-remove : (s : State) → content (remove s) ≡ none
