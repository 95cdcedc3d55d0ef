-- ===== src/Forks.antt =====
-- `main` of p6/src/p6.cpp: the socket pairs and the processes that are forked, with the descriptors that each
-- of them has, and the processes that the master's `signal_cb` (p6/src/ServerProcess.cpp) stops. Descriptor tables
-- and `socketpair` are the system's: the operations and what POSIX says of them are the record Sockets.
pub mod Pairs
pub mod Channels
use rest_technosphere_cpp_se.Base.{
  ℕ, zero, suc, ◌≡◌, Bool, true, false, ◌&&◌, ◌||◌, not, Option, none, some, List, [], ◌∷◌, ◌++◌, ℤ,
  pos, negsuc, ltb, ◌==◌, if◌then◌else◌,
}
use rest_technosphere_cpp_se.SocketTricks.{is_negative}
use rest_technosphere_cpp_se.Semaphores.Family.{update}
use rest_technosphere_cpp_se.Server.{worker_processes_count}

-- what a descriptor refers to: the ends of the socket pairs, by the number of the call, or anything else
pub data File : Type 0 where
  first second other : ℕ → File

-- `at` is what a descriptor refers to in a table, if it is open. A call of `socketpair`, which is numbered, gives
-- the two descriptors and the new table; the code takes it as successful.
pub record Sockets (Table : Type 0) : Type 0 where
  pub at : Table → ℕ → Option File
  pub close : Table → ℕ → Table
  pub socketpair : ℕ → Table → ℕ × ℕ × Table
  pub at-close : (t : Table) (fd n : ℕ) → at (close t fd) n ≡ (if fd == n then none else at t n)
  pub socketpair-free :
      (k : ℕ) (t : Table)
      → (at t ((socketpair k t).0) ≡ none)
        × (at t ((socketpair k t).1) ≡ none)
        × (((socketpair k t).0 == (socketpair k t).1) ≡ false)
  pub at-socketpair :
      (k : ℕ) (t : Table) (n : ℕ)
      → at ((socketpair k t).2) n ≡ (
          if (socketpair k t).0 == n
          then some (first k)
          else if (socketpair k t).1 == n
          then some (second k)
          else at t n)

-- a worker, with its `fd_endpoint`
pub record Forked (Table : Type 0) : Type 0 where
  pub endpoint : ℕ
  pub table : Table

-- The master: its descriptors, `fd_channel_hub`, the workers by number where there is one, and `child_procs`;
-- the descriptors of the garbage collector, and whether the master comes to its event loop.
pub record Master (Table : Type 0) : Type 0 where
  pub table : Table
  pub fd_channel_hub : ℕ → ℕ
  pub workers : ℕ → Option (Forked Table)
  pub child_procs : List ℤ
  pub cleaner : Option Table
  pub serves : Bool

abbrev pub int_eq : ℤ → ℤ → Bool
int_eq (pos m) (pos n) = m == n
int_eq (pos m) (negsuc n) = false
int_eq (negsuc m) (pos n) = false
int_eq (negsuc m) (negsuc n) = m == n

unfoldable pub contains : ℤ → List ℤ → Bool
contains pid [] = false
contains pid (p ∷ ps) = int_eq p pid || contains pid ps

-- `insert` of a set, which is written as a list
unfoldable pub insert : ℤ → List ℤ → List ℤ
unfolding contains
insert pid ps = if contains pid ps then ps else pid ∷ ps

abbrev pub is_positive : ℤ → Bool
is_positive (pos n) = ltb 0 n
is_positive (negsuc n) = false

-- the last `fork`; where it fails, the master itself becomes the garbage collector
unfoldable pub fork_cleaner : {Table : Type 0} → ℤ → Master Table → Master Table
unfolding insert
fork_cleaner pid m =
    if is_positive pid
    then record m { child_procs = insert pid m.child_procs; cleaner = some m.table; serves = true }
    else record m { cleaner = some m.table; serves = false }

module _ {Table : Type 0} (d : Sockets Table) where
  -- one round of the loop; `pid` is what `fork` gives in the master, -1 where it fails
  unfoldable pub fork_worker : ℕ → ℤ → Master Table → Master Table
  unfolding insert
  fork_worker worker_id pid m =
      let (mine, its, t) = d.socketpair worker_id m.table in
      let child : Forked Table = record { endpoint = its; table = d.close t mine } in
      record m {
        table = d.close t its;
        fd_channel_hub = update m.fd_channel_hub worker_id mine;
        workers = update m.workers worker_id (if is_negative pid then none else some child);
        child_procs = insert pid m.child_procs;
      }

  -- the loop, with `rounds` rounds left
  unfoldable pub fork_workers : ℕ → ℕ → (ℕ → ℤ) → Master Table → Master Table
  unfolding fork_worker
  fork_workers zero worker_id pids m = m
  fork_workers (suc rounds) worker_id pids m =
      fork_workers rounds (suc worker_id) pids (fork_worker worker_id (pids worker_id) m)

  -- the workers and the garbage collector
  unfoldable pub main : (ℕ → ℤ) → Master Table → Master Table
  unfolding fork_workers fork_cleaner
  main pids start =
      fork_cleaner (pids worker_processes_count) (fork_workers worker_processes_count 0 pids start)

-- `ServerProcess::signal_cb`: the processes that are sent SIGTERM
unfoldable pub signal_cb : {Table : Type 0} → Master Table → List ℤ
signal_cb m = m.child_procs
