-- ===== src/Cluster.antt =====
-- The master and the workers of server 1.0, p5/master/src/MasterProcess.cpp and
-- p5/worker/src/WorkerProcess.cpp, with CommandMessage.h that both have: a command travels to a worker
-- and its result back in one message. The System V queue is not modelled: what `msgrcv` gives the
-- master after it has sent a message is the argument `exchange`, and a worker is given the list of the
-- messages that `msgrcv` hands it. The connection list is the one of module Worker, whose
-- `send_response_to_client` has the same code in both servers.
pub mod Service
pub mod Master
pub mod Connections
pub mod Signals
pub mod Shutdown
pub mod Queue
pub mod Answers
pub mod Exchanges
use rest_technosphere_cpp_se.Base.{
  ℕ, zero, suc, ◌+◌, ◌-◌, ◌%◌, Option, none, some, List, [], ◌∷◌, ◌++◌, Bytes, codes, ℤ, pos,
  negsuc,
}
use rest_technosphere_cpp_se.Memory.{Mem, strcpy, c_string}
use rest_technosphere_cpp_se.Records.{key_size, record_size}
use rest_technosphere_cpp_se.Command.{Operation, cmd_get, cmd_set, cmd_del, cmd_none, cmd_term}
use rest_technosphere_cpp_se.Worker.{ClientConnection, send_response_to_client}
use rest_technosphere_cpp_se.BaseTable
use rest_technosphere_cpp_se.BaseTable.{Status, done, failed, default_table}

-- WORKER_PROCESSES_COUNT
abbrev pub worker_processes_count : ℕ
worker_processes_count = 4

-- MASTER_MSGTYPE; a worker's id is the type of the messages to it
abbrev pub master_msgtype : ℕ
master_msgtype = 1

-- `shutdown_workers` and `init_ipc` number the workers so
unfoldable pub worker_id : ℕ → ℕ
worker_id i = i + 2

pub record CommandMessage : Type 0 where
  pub mtype : ℕ
  pub operation : Operation
  pub target_connection_id : ℕ
  pub status : ℤ
  pub data_block : Mem

unfoldable pub get_key : CommandMessage → Bytes
get_key msg = c_string record_size msg.data_block 0

unfoldable pub get_value : CommandMessage → Bytes
get_value msg = c_string (record_size - (key_size + 1)) msg.data_block (key_size + 1)

unfoldable pub error_code : Status → ℤ
error_code done = pos 0
error_code failed = negsuc 0

-- the `switch` of `dispatch_message`: the error code, the message's data and the table afterwards;
-- nothing for CMD_TERM, which returns without an answer
unfoldable pub perform : Operation → Mem → CommandMessage → Option (ℤ × Mem × Mem)
unfolding get_key get_value error_code
perform cmd_set m msg =
    let u = BaseTable.set default_table m (get_key msg) (get_value msg) in
    some (error_code u.status, msg.data_block, u.memory)
perform cmd_get m msg = elim (BaseTable.get default_table m (get_key msg)).0 [
  | some value ↦ some (pos 0, strcpy msg.data_block (key_size + 1) value, m)
  | none ↦ some (negsuc 0, msg.data_block, m)
]
perform cmd_del m msg =
    let u = BaseTable.del default_table m (get_key msg) in
    some (error_code u.status, msg.data_block, u.memory)
perform cmd_term m msg = none
perform cmd_none m msg = some (negsuc 0, msg.data_block, m)

-- the message that is sent to the master, and the table
unfoldable pub dispatch_message : Mem → CommandMessage → Option (CommandMessage × Mem)
unfolding perform
dispatch_message m msg = elim (perform msg.operation m msg) [
  | none ↦ none
  | some (code, block, table) ↦
      some (record msg { mtype = master_msgtype; status = code; data_block = block }, table)
]

-- the loop of `start`: the answers to the messages received, up to the first CMD_TERM
unfoldable pub start : Mem → List CommandMessage → List CommandMessage × Mem
unfolding dispatch_message
start m [] = ([], m)
start m (msg ∷ rest) = elim (dispatch_message m msg) [
  | none ↦ ([], m)
  | some (answer, table) ↦ (answer ∷ (start table rest).0, (start table rest).1)
]

unfoldable pub code_or : ℤ → Bytes → Bytes → Bytes
code_or (pos zero) good bad = good
code_or (pos (suc n)) good bad = bad
code_or (negsuc n) good bad = bad

-- the text that `process_response_from_worker` builds
unfoldable pub response_text : Operation → CommandMessage → Bytes
unfolding code_or get_value
response_text cmd_get msg =
    code_or msg.status (codes "200 " ++ get_value msg) (codes "301 Key not found")
response_text cmd_set msg = code_or msg.status (codes "200 SET OK") (codes "301 Key not found")
response_text cmd_del msg = code_or msg.status (codes "200 DEL OK") (codes "301 Key not found")
response_text cmd_none msg = codes "303 Invalid command or internal error"
response_text cmd_term msg = []

unfoldable pub process_response_from_worker :
    List ClientConnection → CommandMessage → List ClientConnection
unfolding response_text send_response_to_client
process_response_from_worker conns msg =
    send_response_to_client conns (response_text msg.operation msg) msg.target_connection_id

-- The message of `execute_query`. `random` is what `rand` gives; `status` is not set, and is whatever
-- the stack holds.
unfoldable pub request : Operation → Mem → ℕ → ℕ → ℤ → CommandMessage
request operation params id random status = record {
  mtype = 1 + random % worker_processes_count;
  operation = operation;
  target_connection_id = id;
  status = status;
  data_block = params;
}

-- behind the test for an invalid command
unfoldable pub relay :
    (CommandMessage → Option CommandMessage)
    → List ClientConnection
    → CommandMessage
    → ℤ × List ClientConnection
unfolding process_response_from_worker
relay exchange conns msg = elim (exchange msg) [
  | some answer ↦ (pos 0, process_response_from_worker conns answer)
  | none ↦ (negsuc 0, conns)
]

-- The return code and the connections afterwards.
unfoldable pub execute_query :
    (CommandMessage → Option CommandMessage)
    → List ClientConnection
    → Operation
    → Mem
    → ℕ
    → ℕ
    → ℤ
    → ℤ × List ClientConnection
unfolding relay request send_response_to_client
execute_query exchange conns cmd_none params id random status =
    (pos 0, send_response_to_client conns (codes "303 Invalid command or internal error") id)
execute_query exchange conns op params id random status =
    relay exchange conns (request op params id random status)
