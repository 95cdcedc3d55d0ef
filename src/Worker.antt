-- ===== src/Worker.antt =====
-- The worker process of server 2.0, p6/src/WorkerProcess.cpp with p6/src/ClientConnection.cpp: the list
-- of client connections, the commands they send and the responses they are sent. libevent and the
-- sockets are not modelled: a connection's output buffer is the list of lines added to it, an accepted
-- descriptor and the outcome of `bufferevent_socket_new` are arguments.
pub mod Service
pub mod Connections
pub mod Signals
use rest_technosphere_cpp_se.Base.{
  ℕ, zero, suc, ◌+◌, ◌-◌, Bool, true, false, Option, none, some, List, [], ◌∷◌, ◌++◌, Bytes, codes,
  ◌==◌, ◌&&◌, if◌then◌else◌,
}
use rest_technosphere_cpp_se.Memory.{Mem, strcpy}
use rest_technosphere_cpp_se.Records.{key_size}
use rest_technosphere_cpp_se.PosixTable
use rest_technosphere_cpp_se.PosixTable.{Status, done, failed}
use rest_technosphere_cpp_se.Command.{
  Operation, cmd_get, cmd_set, cmd_del, cmd_none, cmd_term, UserCommand, get_key_param,
  get_value_param, read_from_buffer,
}

-- A connection: its id, whether its bufferevent exists, and the lines written to it.
pub record ClientConnection : Type 0 where
  pub id : ℕ
  pub bev_in : Bool
  pub output : List Bytes

-- `id_base` is the static counter of the class; `memory` is the shared table; `looping` is whether
-- libevent's loop of the process still runs its callbacks.
pub record WorkerProcess : Type 0 where
  pub conn_list : List ClientConnection
  pub id_base : ℕ
  pub memory : Mem
  pub looping : Bool

unfoldable pub ok_or : Status → Bytes → Bytes → Bytes
ok_or done good bad = good
ok_or failed good bad = bad

-- the `switch` of `execute_query`: the response, and the table afterwards
unfoldable pub answer : Operation → UserCommand → ℕ → Mem → Bytes × Mem
unfolding ok_or
answer cmd_get query now m = elim (PosixTable.get m (get_key_param query)).0 [
  | some value ↦
      let filled = record query { params = strcpy query.params (key_size + 1) value } in
      (codes "200 " ++ get_value_param filled, m)
  | none ↦ (codes "201 Key not found", m)
]
answer cmd_set query now m =
    let u = PosixTable.set m (get_key_param query) (get_value_param query) query.ttl now in
    (ok_or u.status (codes "200 SET OK") (codes "302 Table degraded, no memory left"), u.memory)
answer cmd_del query now m =
    let u = PosixTable.del m (get_key_param query) in
    (ok_or u.status (codes "200 DEL OK") (codes "201 Key not found"), u.memory)
answer cmd_none query now m = (codes "303 Invalid command or internal error", m)
answer cmd_term query now m = ([], m)

-- `send_response`: the text and a line feed, as one entry of the output
unfoldable pub send_response : ClientConnection → Bytes → ClientConnection
send_response c response = record c { output = c.output ++ (response ∷ []) }

-- every connection with that id is written to
unfoldable pub send_response_to_client : List ClientConnection → Bytes → ℕ → List ClientConnection
unfolding send_response
send_response_to_client [] response id = []
send_response_to_client (c ∷ cs) response id =
    (if c.id == id then send_response c response else c) ∷ send_response_to_client cs response id

unfoldable pub execute_query : WorkerProcess → UserCommand → ℕ → ℕ → WorkerProcess
unfolding answer send_response_to_client
execute_query w query id now =
    let (response, m) = answer query.operation query now w.memory in
    record w { conn_list = send_response_to_client w.conn_list response id; memory = m }

-- `conn_readcb` of the connection `id`
unfoldable pub conn_readcb : WorkerProcess → (ℕ → Option Bytes) → ℕ → ℕ → WorkerProcess
unfolding execute_query
conn_readcb w readln id now = execute_query w (read_from_buffer readln) id now

-- the first connection with the id is erased
unfoldable pub remove_connection : List ClientConnection → ℕ → List ClientConnection
remove_connection [] id = []
remove_connection (c ∷ cs) id = if c.id == id then cs else c ∷ remove_connection cs id

-- `close` frees the bufferevent and takes the connection off the list
unfoldable pub close : WorkerProcess → ℕ → WorkerProcess
unfolding remove_connection
close w id = record w { conn_list = remove_connection w.conn_list id }

-- the events of `conn_eventcb`
pub data BevEvent : Type 0 where
  eof error other : BevEvent

unfoldable pub conn_eventcb : WorkerProcess → BevEvent → ℕ → WorkerProcess
unfolding close
conn_eventcb w eof id = close w id
conn_eventcb w error id = close w id
conn_eventcb w other id = w

abbrev pub banner : List Bytes
banner =
    codes "Emrakul DB v2.0 welcomes you!"
    ∷ codes "Usage:"
    ∷ codes "get key value"
    ∷ codes "set ttl key value"
    ∷ codes "del key"
    ∷ []

-- `establish`; without a bufferevent it returns 1 and the connection stays as it was; the end of the
-- loop is in `fd_channel_callback`
unfoldable pub establish : ClientConnection → Bool → ClientConnection
establish c true = record c { bev_in = true; output = c.output ++ banner }
establish c false = c

-- `fd_channel_callback`: a new connection goes on the list, whether or not it is established; a
-- failing `establish` breaks the loop
unfoldable pub fd_channel_callback : WorkerProcess → Bool → WorkerProcess
unfolding establish
fd_channel_callback w bufferevent =
    let conn : ClientConnection = record { id = w.id_base; bev_in = false; output = [] } in
    record w {
      conn_list = w.conn_list ++ (establish conn bufferevent ∷ []);
      id_base = suc w.id_base;
      looping = w.looping && bufferevent;
    }
