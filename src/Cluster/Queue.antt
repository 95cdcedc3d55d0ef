-- ===== src/Cluster/Queue.antt =====
-- The master and the workers of server 1.0 around their System V queue, in any order of their steps. Of
-- the queue it is used that `msgsnd` adds a message and that `msgrcv` takes one of the type asked for,
-- if there is one; not in which order.
use rest_technosphere_cpp_se.Base.{ℕ, ◌<◌, ◌≡◌, Option, none, some, List, [], ◌∷◌, ◌++◌, ℤ}
use rest_technosphere_cpp_se.Memory.{Mem}
use rest_technosphere_cpp_se.Command.{Operation, cmd_get, cmd_set, cmd_del, cmd_none, cmd_term}
use rest_technosphere_cpp_se.Worker.{ClientConnection}
use rest_technosphere_cpp_se.Semaphores.Family.{update}
use rest_technosphere_cpp_se.Cluster.{
  CommandMessage, worker_processes_count, master_msgtype, worker_id, request, dispatch_message,
  process_response_from_worker,
}

-- The queue, the shared table, the master's connections and the command that it waits for, and what
-- each worker has received and not answered yet.
pub record Exchange : Type 0 where
  pub queue : List CommandMessage
  pub table : Mem
  pub conn_list : List ClientConnection
  pub waiting : Option CommandMessage
  pub workers : ℕ → Option CommandMessage

-- the operations for which `execute_query` sends a message to a worker, among those that are read from a line
abbrev pub IsQuery : Operation → Type 0
IsQuery cmd_get = Unit
IsQuery cmd_set = Unit
IsQuery cmd_del = Unit
IsQuery cmd_none = ⊥
IsQuery cmd_term = ⊥

pub data Step (s : Exchange) : Exchange → Type 0 where
  -- `execute_query` up to its `msgsnd`
  asks :
      (op : Operation) (params : Mem) (id random : ℕ) (junk : ℤ)
      → IsQuery op
      → s.waiting ≡ none
      → Step s (record s {
        queue = s.queue ++ (request op params id random junk ∷ []);
        waiting = some (request op params id random junk);
      })
  -- `msgrcv` of a worker
  takes :
      (i : ℕ) (before after : List CommandMessage) (msg : CommandMessage)
      → i < worker_processes_count
      → s.workers i ≡ none
      → s.queue ≡ before ++ (msg ∷ after)
      → msg.mtype ≡ worker_id i
      → Step s (record s { queue = before ++ after; workers = update s.workers i (some msg) })
  -- `dispatch_message`
  answers :
      (i : ℕ) (msg answer : CommandMessage) (table : Mem)
      → s.workers i ≡ some msg
      → dispatch_message s.table msg ≡ some (answer, table)
      → Step s (record s {
        queue = s.queue ++ (answer ∷ []);
        table = table;
        workers = update s.workers i none;
      })
  -- `msgrcv` of the master, and the rest of `execute_query`
  receives :
      (before after : List CommandMessage) (msg asked : CommandMessage)
      → s.waiting ≡ some asked
      → s.queue ≡ before ++ (msg ∷ after)
      → msg.mtype ≡ master_msgtype
      → Step s (record s {
        queue = before ++ after;
        waiting = none;
        conn_list = process_response_from_worker s.conn_list msg;
      })

-- once the processes have started
abbrev pub init : Mem → List ClientConnection → Exchange
init table conns = record {
  queue = [];
  table = table;
  conn_list = conns;
  waiting = none;
  workers = λ i. none;
}

pub data Reach (s : Exchange) : Exchange → Type 0 where
  here : Reach s s
  next : {t u : Exchange} → Reach s t → Step t u → Reach s u
