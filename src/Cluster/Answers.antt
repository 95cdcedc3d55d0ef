-- ===== src/Cluster/Answers.antt =====
-- The answer of a worker to a query.
use rest_technosphere_cpp_se.Base.{
  ◌+◌, ◌≡◌, ◌≢◌, refl, inl, inr, none, some, Option-cases, pos, negsuc,
}
use rest_technosphere_cpp_se.Memory.{Mem, strcpy}
use rest_technosphere_cpp_se.Records.{key_size}
use rest_technosphere_cpp_se.Command.{Operation, cmd_get, cmd_set, cmd_del, cmd_none, cmd_term}
use rest_technosphere_cpp_se.BaseTable
use rest_technosphere_cpp_se.BaseTable.{default_table}
use rest_technosphere_cpp_se.Cluster.{
  CommandMessage, master_msgtype, dispatch_message, perform, get_key,
}
use rest_technosphere_cpp_se.Cluster.Queue.{IsQuery}

-- a message belongs to the command that the master waits for
pub record Belongs (msg asked : CommandMessage) : Type 0 where
  pub operation : msg.operation ≡ asked.operation
  pub target : msg.target_connection_id ≡ asked.target_connection_id

perform-query :
    (op : Operation) (table : Mem) (msg : CommandMessage) → IsQuery op → perform op table msg ≢ none
unfolding perform
perform-query cmd_set table msg q e = cc
perform-query cmd_del table msg q e = cc
perform-query cmd_get table msg q e =
    elim (Option-cases (BaseTable.get default_table table (get_key msg)).0) [
      | inl o ↦
          let f : perform cmd_get table msg ≡ some (negsuc 0, msg.data_block, table) =
            rw (o, perform) in
          cc
      | inr (v, o) ↦
          let f : perform cmd_get table msg
              ≡ some (pos 0, strcpy msg.data_block (key_size + 1) v, table) =
            rw (o, perform) in
          cc
    ]
perform-query cmd_none table msg q e = absurd q
perform-query cmd_term table msg q e = absurd q

-- every query is answered, and the answer is to the master and belongs to the query
pub dispatch_message-answers :
    (table : Mem) (msg : CommandMessage)
    → IsQuery msg.operation
    → (answer : CommandMessage) × (after : Mem) × (dispatch_message table msg
        ≡ some (answer, after))
unfolding dispatch_message
dispatch_message-answers table msg q = elim (Option-cases (perform msg.operation table msg)) [
  | inl o ↦ absurd (perform-query msg.operation table msg q o)
  | inr ((code, block, after), o) ↦ (
    record msg { mtype = master_msgtype; status = code; data_block = block },
    after,
    rw (o, dispatch_message),
  )
]

pub dispatch_message-Belongs :
    (table after : Mem) (msg answer asked : CommandMessage)
    → dispatch_message table msg ≡ some (answer, after)
    → Belongs msg asked
    → Belongs answer asked × (answer.mtype ≡ master_msgtype) × (answer.operation ≡ msg.operation)
unfolding dispatch_message
dispatch_message-Belongs table after msg answer asked e b =
    elim (Option-cases (perform msg.operation table msg)) [
      | inl o ↦
          let nothing : dispatch_message table msg ≡ none = rw (o, dispatch_message) in absurd (cc)
      | inr ((code, block, table'), o) ↦
          let sent : CommandMessage = record msg {
            mtype = master_msgtype;
            status = code;
            data_block = block;
          } in
          let made : dispatch_message table msg ≡ some (sent, table') = rw (o, dispatch_message) in
          let same : answer ≡ sent = cc in
          rw same (record { operation = b.operation; target = b.target }, refl, refl)
    ]
