-- ===== src/Cluster/Master.antt =====
-- The connections of the master of server 1.0, p5/master/src/MasterProcess.cpp with
-- p5/master/src/ClientConnection.cpp, and its end. A connection and the search for one by its id have
-- the same code as in server 2.0 and are those of module Worker.
use rest_technosphere_cpp_se.Base.{
  ℕ, zero, suc, Bool, true, false, ◌&&◌, Option, none, some, List, [], ◌∷◌, ◌++◌, length, Bytes, ℤ,
}
use rest_technosphere_cpp_se.Command.{cmd_term}
use rest_technosphere_cpp_se.BaseCommand
use rest_technosphere_cpp_se.Worker.{
  ClientConnection, remove_connection, BevEvent, eof, error, other,
}
use rest_technosphere_cpp_se.Worker.Signals.{close_all}
use rest_technosphere_cpp_se.Cluster.{
  CommandMessage, execute_query, worker_id, worker_processes_count,
}

-- `id_base` is the static counter of the class of the connections; `looping` is whether libevent's
-- loop still runs its callbacks.
pub record MasterProcess : Type 0 where
  pub conn_list : List ClientConnection
  pub id_base : ℕ
  pub looping : Bool

-- `establish`: no greeting here
unfoldable pub establish : ClientConnection → Bool → ClientConnection
establish c true = record c { bev_in = true }
establish c false = c

-- a new connection goes on the list, whether or not it is established; a failing `establish` breaks
-- the loop
unfoldable pub listener_cb : MasterProcess → Bool → MasterProcess
unfolding establish
listener_cb m bufferevent =
    let conn : ClientConnection = record { id = m.id_base; bev_in = false; output = [] } in
    record {
      conn_list = m.conn_list ++ (establish conn bufferevent ∷ []);
      id_base = suc m.id_base;
      looping = m.looping && bufferevent;
    }

-- `conn_readcb` of the connection `id`
unfoldable pub conn_readcb :
    (CommandMessage → Option CommandMessage)
    → MasterProcess
    → (ℕ → Option Bytes)
    → ℕ
    → ℕ
    → ℤ
    → MasterProcess
unfolding execute_query
conn_readcb exchange m readln id random status =
    let command = BaseCommand.read_from_buffer readln in
    record m {
      conn_list =
          (execute_query exchange m.conn_list command.operation command.params_data id random
            status).1;
    }

-- `close`, behind which the bufferevent is free and the connection off the list
unfoldable pub close : MasterProcess → ℕ → MasterProcess
unfolding remove_connection
close m id = record m { conn_list = remove_connection m.conn_list id }

unfoldable pub conn_eventcb : MasterProcess → BevEvent → ℕ → MasterProcess
unfolding close
conn_eventcb m eof id = close m id
conn_eventcb m error id = close m id
conn_eventcb m other id = m

unfoldable pub signal_cb : MasterProcess → Option MasterProcess
unfolding close_all
signal_cb m = elim (close_all (length m.conn_list) 0 m.conn_list) [
  | none ↦ none
  | some conns ↦ some (record m { conn_list = conns })
]

-- the message to each of the first `n` workers; its other fields are not set
unfoldable pub term_messages : CommandMessage → ℕ → List CommandMessage
unfolding worker_id
term_messages unset zero = []
term_messages unset (suc n) =
    term_messages unset n ++ (record unset { mtype = worker_id n; operation = cmd_term } ∷ [])

-- the messages that `shutdown_workers` sends, in their order
unfoldable pub shutdown_workers : CommandMessage → List CommandMessage
unfolding term_messages
shutdown_workers unset = term_messages unset worker_processes_count
