-- ===== src/Server/Soundness.antt =====
-- What every run of the server keeps.
use rest_technosphere_cpp_se.Base.{
  ℕ, ◌%◌, ◌≡◌, none, List, [], ◌∷◌, Bytes, inl, inr, Bool-cases, ltb, ◌==◌, Bool, true, false,
  if◌then◌else◌,
}
use rest_technosphere_cpp_se.Memory.{Mem}
use rest_technosphere_cpp_se.Records.Clear.{clear-IsWellFormed, clear-lookup}
use rest_technosphere_cpp_se.PosixTable.{table_size, value_offset, contents, hash, home_inside}
use rest_technosphere_cpp_se.PosixTable.Meaning.{IsValid}
use rest_technosphere_cpp_se.PosixTable.Collection.{collect_garbage-IsValid}
use rest_technosphere_cpp_se.Worker.{WorkerProcess, fd_channel_callback, conn_readcb, conn_eventcb}
use rest_technosphere_cpp_se.Worker.Service.{conn_readcb-IsValid}
use rest_technosphere_cpp_se.Worker.Connections.{
  IsNumbered, fd_channel_callback-IsNumbered, conn_readcb-IsNumbered, conn_eventcb-IsNumbered,
}
use rest_technosphere_cpp_se.Semaphores.Family.{update}
use rest_technosphere_cpp_se.Server.{
  ipc_create, CleaningCompany, wake, Server, ServerEvent, accepted, readable, connection, signalled,
  woken, started, in_loop, listener_cb, worker_reads, step, run, booted, worker_processes_count,
}

pub record IsSound (s : Server) : Type 0 where
  pub table : IsValid s.memory
  pub numbered : (i : ℕ) → IsNumbered (s.workers i)

ipc_create-IsValid : (m : Mem) → IsValid (ipc_create m)
unfolding ipc_create
ipc_create-IsValid m = clear-IsWellFormed table_size value_offset m

-- Creating the shared table, which every process does when it starts, empties it: whatever the memory
-- held, no key is there afterwards.
pub ipc_create-contents : (m : Mem) (key : Bytes) → contents (ipc_create m) key ≡ none
unfolding ipc_create
ipc_create-contents m key = clear-lookup table_size value_offset hash m key (home_inside key)

update-IsNumbered :
    (f : ℕ → WorkerProcess) (i : ℕ) (w : WorkerProcess)
    → ((j : ℕ) → IsNumbered (f j))
    → IsNumbered w
    → (j : ℕ) → IsNumbered (update f i w j)
update-IsNumbered f i w all one j = elim (Bool-cases (i == j)) [
  | inl e ↦ rw e one
  | inr e ↦ rw e (all j)
]

-- what holds of a worker before and after a callback holds whether or not its loop calls it
in_loop-either :
    (P : WorkerProcess → Type 0) (runs : Bool) (w after : WorkerProcess)
    → P w
    → P after
    → P (if runs then after else w)
in_loop-either P true w after h k = k
in_loop-either P false w after h k = h

in_loop-IsNumbered :
    (w after : WorkerProcess) → IsNumbered w → IsNumbered after → IsNumbered (in_loop w after)
unfolding in_loop
in_loop-IsNumbered w after h k = in_loop-either IsNumbered w.looping w after h k

booted-IsSound : (m : Mem) (now : ℕ) → IsSound (booted m now)
unfolding booted ipc_create
booted-IsSound m now = record {
  table = ipc_create-IsValid m;
  numbered = λ i. record { distinct = tt; below = tt };
}

in_loop-IsValid :
    (w after : WorkerProcess)
    → IsValid w.memory
    → IsValid after.memory
    → IsValid (in_loop w after).memory
unfolding in_loop
in_loop-IsValid w after h k = in_loop-either (λ v. IsValid v.memory) w.looping w after h k

wake-IsValid :
    (c : CleaningCompany) (m : Mem) (clock : ℕ → ℕ) (now : ℕ)
    → IsValid m
    → IsValid (wake c m clock now).1
unfolding wake
wake-IsValid c m clock now w = elim (Bool-cases c.running) [
  | inr e ↦ rw (e, wake) w
  | inl e ↦ elim (Bool-cases c.exit_trigger) [
    | inl f ↦ rw (e, f, wake) w
    | inr f ↦ rw (e, f, wake) (collect_garbage-IsValid clock m w)
  ]
]

step-IsSound : (s : Server) (e : ServerEvent) → IsSound s → IsSound (step s e)
unfolding step listener_cb worker_reads
step-IsSound s (accepted fd random bufferevent) h = elim (Bool-cases (ltb 0 fd)) [
  | inr e ↦ rw (e, step) h
  | inl e ↦
      let i = random % worker_processes_count in
      rw (e, step)
        (record {
          table = h.table;
          numbered =
              update-IsNumbered s.workers i
                (in_loop (s.workers i) (fd_channel_callback (s.workers i) bufferevent)) h.numbered
                (in_loop-IsNumbered (s.workers i) (fd_channel_callback (s.workers i) bufferevent)
                  (h.numbered i)
                  (fd_channel_callback-IsNumbered (s.workers i) bufferevent (h.numbered i)));
        })
]
step-IsSound s (readable i readln id now) h =
    let w : WorkerProcess = record (s.workers i) { memory = s.memory } in
    let v : IsNumbered w = record {
      distinct = (h.numbered i).distinct;
      below = (h.numbered i).below;
    } in
    record {
      table =
          in_loop-IsValid w (conn_readcb w readln id now) h.table
            (conn_readcb-IsValid w readln id now h.table);
      numbered =
          update-IsNumbered s.workers i (in_loop w (conn_readcb w readln id now)) h.numbered (
            in_loop-IsNumbered w (conn_readcb w readln id now) v
              (conn_readcb-IsNumbered w readln id now v));
    }
step-IsSound s (connection i event id) h = record {
  table = h.table;
  numbered =
      update-IsNumbered s.workers i (in_loop (s.workers i) (conn_eventcb (s.workers i) event id))
        h.numbered
        (in_loop-IsNumbered (s.workers i) (conn_eventcb (s.workers i) event id) (h.numbered i)
          (conn_eventcb-IsNumbered (s.workers i) event id (h.numbered i)));
}
step-IsSound s (signalled signum) h = record { table = h.table; numbered = h.numbered }
step-IsSound s (woken clock now) h = record {
  table = wake-IsValid s.cleaner s.memory clock now h.table;
  numbered = h.numbered;
}
step-IsSound s started h = record { table = ipc_create-IsValid s.memory; numbered = h.numbered }

run_from-IsSound : (es : List ServerEvent) (s : Server) → IsSound s → IsSound (run s es)
unfolding run
run_from-IsSound [] s h = h
run_from-IsSound (e ∷ es) s h = run_from-IsSound es (step s e) (step-IsSound s e h)

-- As long as no two callbacks or rounds of the server's processes overlap (each runs to its end before
-- the next begins): whatever clients connect, send and drop, whenever the garbage collector wakes,
-- whatever signals it gets and whenever a further process starts, the shared table stays well formed
-- and on every worker an id names one connection.
pub run-IsSound : (m : Mem) (now : ℕ) (es : List ServerEvent) → IsSound (run (booted m now) es)
run-IsSound m now es = run_from-IsSound es (booted m now) (booted-IsSound m now)
