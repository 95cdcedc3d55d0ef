-- ===== src/Server.antt =====
-- Server 2.0 as a whole: the accept callback of p6/src/ServerProcess.cpp, the workers of module Worker,
-- the loop of p6/src/CleaningCompany.cpp and the creation of the shared table in
-- p6/src/SynchronizedProcess.cpp, over one shared memory. A callback or a round is one event here; what
-- the processes do between the locks of their calls is module Semaphores.
pub mod Soundness
pub mod Clients
use rest_technosphere_cpp_se.Base.{
  ℕ, zero, suc, ◌+◌, ◌*◌, ◌%◌, Bool, true, false, ◌||◌, Option, List, [], ◌∷◌, Bytes, ltb, ◌==◌,
  if◌then◌else◌,
}
use rest_technosphere_cpp_se.Memory.{Mem}
use rest_technosphere_cpp_se.Records.Clear.{clear}
use rest_technosphere_cpp_se.PosixTable
use rest_technosphere_cpp_se.PosixTable.{table_size}
use rest_technosphere_cpp_se.Worker.{
  WorkerProcess, BevEvent, fd_channel_callback, conn_readcb, conn_eventcb,
}
use rest_technosphere_cpp_se.Semaphores.Family.{update}

-- `ipc_create` maps the table and zeroes it; what else it does is module Ipc
unfoldable pub ipc_create : Mem → Mem
ipc_create m = clear table_size m

-- The garbage collector: whether its loop runs, its exit flag, and when it wakes next.
pub record CleaningCompany : Type 0 where
  pub running : Bool
  pub exit_trigger : Bool
  pub delay : ℕ

-- `sig_handler`; SIGINT is 2 and SIGTERM is 15
unfoldable pub sig_handler : CleaningCompany → ℕ → CleaningCompany
sig_handler c signum = if signum == 2 || signum == 15 then record c { exit_trigger = true } else c

-- the loop of `start`, from one `sem_timedwait` to the next
unfoldable pub wake : CleaningCompany → Mem → (ℕ → ℕ) → ℕ → CleaningCompany × Mem
wake c m clock now =
    if c.running
    then (if c.exit_trigger
        then (record c { running = false }, m)
        else (record c { delay = 30 + now }, (PosixTable.collect_garbage clock m).memory))
    else (c, m)

-- The shared memory, the workers by number, and the garbage collector.
pub record Server : Type 0 where
  pub memory : Mem
  pub workers : ℕ → WorkerProcess
  pub cleaner : CleaningCompany

-- WORKER_PROCESSES_COUNT
abbrev pub worker_processes_count : ℕ
worker_processes_count = 4

-- `fd` and the outcomes of `rand` and of `bufferevent_socket_new`; a worker, what `evbuffer_readln`
-- gives, a connection and the time; a worker, an event and a connection; a signal to the collector;
-- the end of its wait; the start of one more process
pub data ServerEvent : Type 0 where
  accepted : (fd random : ℕ) (bufferevent : Bool) → ServerEvent
  readable : (i : ℕ) (readln : ℕ → Option Bytes) (id now : ℕ) → ServerEvent
  connection : (i : ℕ) (event : BevEvent) (id : ℕ) → ServerEvent
  signalled : (signum : ℕ) → ServerEvent
  woken : (clock : ℕ → ℕ) (now : ℕ) → ServerEvent
  started : ServerEvent

-- a callback of a worker's, which runs while the worker's loop does
unfoldable pub in_loop : WorkerProcess → WorkerProcess → WorkerProcess
in_loop w after = if w.looping then after else w

-- `listener_cb`: a descriptor is handed to a worker that is drawn, which takes it at once
unfoldable pub listener_cb : Server → ℕ → ℕ → Bool → Server
unfolding in_loop
listener_cb s fd random bufferevent =
    let i = random % worker_processes_count in
    let w = s.workers i in
    if ltb 0 fd
    then record s { workers = update s.workers i (in_loop w (fd_channel_callback w bufferevent)) }
    else s

-- a worker's callback, on the shared memory
unfoldable pub worker_reads : Server → ℕ → (ℕ → Option Bytes) → ℕ → ℕ → Server
unfolding in_loop
worker_reads s i readln id now =
    let w : WorkerProcess = record (s.workers i) { memory = s.memory } in
    let after = in_loop w (conn_readcb w readln id now) in
    record s { memory = after.memory; workers = update s.workers i after }

unfoldable pub step : Server → ServerEvent → Server
unfolding in_loop listener_cb worker_reads sig_handler wake ipc_create
step s (accepted fd random bufferevent) = listener_cb s fd random bufferevent
step s (readable i readln id now) = worker_reads s i readln id now
step s (connection i event id) = record s {
  workers = update s.workers i (in_loop (s.workers i) (conn_eventcb (s.workers i) event id));
}
step s (signalled signum) = record s { cleaner = sig_handler s.cleaner signum }
step s (woken clock now) =
    let (c, m) = wake s.cleaner s.memory clock now in record s { memory = m; cleaner = c }
step s started = record s { memory = ipc_create s.memory }

unfoldable pub run : Server → List ServerEvent → Server
unfolding step
run s [] = s
run s (e ∷ es) = run (step s e) es

-- the server once its processes have started, over a memory that held anything
abbrev pub booted : Mem → ℕ → Server
unfolding ipc_create
booted m now = record {
  memory = ipc_create m;
  workers = λ i. record { conn_list = []; id_base = 0; memory = ipc_create m; looping = true };
  cleaner = record { running = true; exit_trigger = false; delay = 30 + now };
}
