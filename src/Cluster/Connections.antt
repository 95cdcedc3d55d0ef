-- ===== src/Cluster/Connections.antt =====
-- The ids of the master's connections, and what a client is sent.
use rest_technosphere_cpp_se.Base.{
  ℕ, suc, ◌<◌, ◌≡◌, refl, ◌∙◌, Bool, true, false, Option, List, [], ◌∷◌, ◌++◌, Bytes, ℤ, inl, inr,
  Option-cases, All, All-append, arith,
}
use rest_technosphere_cpp_se.Memory.{Mem}
use rest_technosphere_cpp_se.Command.{Operation, cmd_get, cmd_set, cmd_del, cmd_none, cmd_term}
use rest_technosphere_cpp_se.BaseCommand
use rest_technosphere_cpp_se.Worker.{ClientConnection, BevEvent, eof, error, other}
use rest_technosphere_cpp_se.Worker.Connections.{
  ids, IsDistinct, ids-send, ids-append, All-remove, IsDistinct-remove, All-below_suc,
  IsDistinct-append,
}
use rest_technosphere_cpp_se.Cluster.{
  CommandMessage, execute_query, relay, process_response_from_worker, response_text,
}
use rest_technosphere_cpp_se.Cluster.Master.{
  MasterProcess, establish, listener_cb, conn_readcb, close, conn_eventcb,
}

-- no two connections have one id, and all ids have been handed out by the counter
pub record IsNumbered (m : MasterProcess) : Type 0 where
  pub distinct : IsDistinct (ids m.conn_list)
  pub below : All (λ i. i < m.id_base) (ids m.conn_list)

-- an answer, and its absence, leave the ids as they are
ids-relay :
    (exchange : CommandMessage → Option CommandMessage) (conns : List ClientConnection)
    (msg : CommandMessage)
    → ids (relay exchange conns msg).1 ≡ ids conns
unfolding relay process_response_from_worker
ids-relay exchange conns msg = elim (Option-cases (exchange msg)) [
  | inl o ↦ rw (o, relay)
  | inr (answer, o) ↦
      rw (o, relay)
        (ids-send (response_text answer.operation answer) answer.target_connection_id conns)
]

ids-execute_query :
    (exchange : CommandMessage → Option CommandMessage) (conns : List ClientConnection)
    (op : Operation) (params : Mem) (id random : ℕ) (status : ℤ)
    → ids (execute_query exchange conns op params id random status).1 ≡ ids conns
unfolding execute_query
ids-execute_query exchange conns cmd_none params id random status = ids-send _ id conns
ids-execute_query exchange conns cmd_get params id random status = ids-relay exchange conns _
ids-execute_query exchange conns cmd_set params id random status = ids-relay exchange conns _
ids-execute_query exchange conns cmd_del params id random status = ids-relay exchange conns _
ids-execute_query exchange conns cmd_term params id random status = ids-relay exchange conns _

establish-id : (c : ClientConnection) (bufferevent : Bool) → (establish c bufferevent).id ≡ c.id
unfolding establish
establish-id c true = refl
establish-id c false = refl

listener_cb-IsNumbered :
    (m : MasterProcess) (bufferevent : Bool) → IsNumbered m → IsNumbered (listener_cb m bufferevent)
unfolding listener_cb
listener_cb-IsNumbered m bufferevent v =
    let conn : ClientConnection = record { id = m.id_base; bev_in = false; output = [] } in
    let shape : ids (m.conn_list ++ (establish conn bufferevent ∷ []))
        ≡ ids m.conn_list ++ (m.id_base ∷ []) =
      ids-append m.conn_list (establish conn bufferevent) ∙ rw (establish-id conn bufferevent) in
    record {
      distinct = rw shape (IsDistinct-append m.id_base (ids m.conn_list) v.below v.distinct);
      below = rw shape (
          All-append (λ i. i < suc m.id_base) (ids m.conn_list) (m.id_base ∷ [])
            (All-below_suc m.id_base (ids m.conn_list) v.below) (omega arith, tt));
    }

conn_eventcb-IsNumbered :
    (m : MasterProcess) (event : BevEvent) (id : ℕ)
    → IsNumbered m
    → IsNumbered (conn_eventcb m event id)
unfolding conn_eventcb close
conn_eventcb-IsNumbered m eof id v = record {
  distinct = IsDistinct-remove id m.conn_list v.distinct;
  below = All-remove (λ i. i < m.id_base) id m.conn_list v.below;
}
conn_eventcb-IsNumbered m error id v = record {
  distinct = IsDistinct-remove id m.conn_list v.distinct;
  below = All-remove (λ i. i < m.id_base) id m.conn_list v.below;
}
conn_eventcb-IsNumbered m other id v = v

conn_readcb-IsNumbered :
    (exchange : CommandMessage → Option CommandMessage) (m : MasterProcess)
    (readln : ℕ → Option Bytes) (id random : ℕ) (status : ℤ)
    → IsNumbered m
    → IsNumbered (conn_readcb exchange m readln id random status)
unfolding conn_readcb
conn_readcb-IsNumbered exchange m readln id random status v =
    let c = BaseCommand.read_from_buffer readln in
    let same = ids-execute_query exchange m.conn_list c.operation c.params_data id random status in
    record { distinct = rw same v.distinct; below = rw same v.below }

-- Accepting a connection, serving a command and closing a connection keep the ids on the master's list
-- distinct, whatever the queue gives back.
master_events-IsNumbered :
    (exchange : CommandMessage → Option CommandMessage) (m : MasterProcess) (bufferevent : Bool)
    (readln : ℕ → Option Bytes) (event : BevEvent) (id random : ℕ) (status : ℤ)
    → IsNumbered m
    → IsNumbered (listener_cb m bufferevent)
      × IsNumbered (conn_readcb exchange m readln id random status)
      × IsNumbered (conn_eventcb m event id)
master_events-IsNumbered exchange m bufferevent readln event id random status v = (
  listener_cb-IsNumbered m bufferevent v,
  conn_readcb-IsNumbered exchange m readln id random status v,
  conn_eventcb-IsNumbered m event id v,
)
