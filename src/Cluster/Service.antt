-- ===== src/Cluster/Service.antt =====
-- What a worker answers to a sequence of messages, and which messages reach a worker at all.
use rest_technosphere_cpp_se.Base.{
  ℕ, ◌%◌, ◌≡◌, ◌≢◌, ◌∙◌, ap, Option, some, List, [], ◌∷◌, ◌++◌, Bytes, codes, ℤ, pos, text_eq_refl,
  arith,
}
use rest_technosphere_cpp_se.Memory.{Mem, strcpy}
use rest_technosphere_cpp_se.Memory.Laws.{c_string-strcpy}
use rest_technosphere_cpp_se.Records.{IsKey, Fits}
use rest_technosphere_cpp_se.Command.{Operation, cmd_get, cmd_set}
use rest_technosphere_cpp_se.Worker.{ClientConnection, send_response_to_client}
use rest_technosphere_cpp_se.BaseTable
use rest_technosphere_cpp_se.BaseTable.{
  Status, done, failed, IsGeometry, default_table, table_size, value_size, contents,
}
use rest_technosphere_cpp_se.BaseTable.Meaning.{IsValid, get-eq_contents, contents-set}
use rest_technosphere_cpp_se.Cluster.{
  CommandMessage, get_key, get_value, error_code, perform, dispatch_message, start, code_or,
  response_text, process_response_from_worker, request, relay, execute_query, worker_id,
  master_msgtype,
}

default-IsGeometry : IsGeometry default_table
default-IsGeometry = record { positive = omega arith; fits = omega arith }

-- the responses that the master builds from a worker's answers
unfoldable pub responses : List CommandMessage → List Bytes
responses [] = []
responses (msg ∷ rest) = response_text msg.operation msg ∷ responses rest

module _ (m params : Mem) (id random : ℕ) (junk : ℤ) where
  -- the message that comes back with a value
  answer_get : Bytes → CommandMessage
  answer_get value = record {
    mtype = master_msgtype;
    operation = cmd_get;
    target_connection_id = id;
    status = pos 0;
    data_block = strcpy params 64 value;
  }

  dispatch-get :
      (value : Bytes)
      → contents default_table m (get_key (request cmd_get params id random junk)) ≡ some value
      → dispatch_message m (request cmd_get params id random junk) ≡ some (answer_get value, m)
  unfolding dispatch_message perform answer_get request
  dispatch-get value h =
      let asked = request cmd_get params id random junk in
      let found : (BaseTable.get default_table m (get_key asked)).0 ≡ some value =
        get-eq_contents default_table default-IsGeometry m (get_key asked) ∙ h in
      rw (perform, dispatch_message, found)

  response-get :
      (value : Bytes)
      → Fits value_size value
      → response_text cmd_get (answer_get value) ≡ codes "200 " ++ value
  unfolding response_text code_or answer_get get_value
  response-get value v =
      ap (λ s. codes "200 " ++ s)
        (c_string-strcpy 960 params 64 value v.text (omega (arith, v.fits)))

  start-get :
      (value : Bytes)
      → Fits value_size value
      → contents default_table m (get_key (request cmd_get params id random junk)) ≡ some value
      → responses (start m (request cmd_get params id random junk ∷ [])).0
        ≡ (codes "200 " ++ value) ∷ []
  unfolding start responses answer_get
  start-get value v h = rw (start, dispatch-get value h) (ap (λ s. s ∷ []) (response-get value v))

-- A worker that stores a value answers the set with success, and a get of the same key that comes
-- next with the value; what the stack held and which connections asked do not matter.
pub start-set_get :
    (m stored asked : Mem) (id next random other : ℕ) (junk left : ℤ)
    → let put = request cmd_set stored id random junk in
      let ask = request cmd_get asked next other left in
      IsValid default_table m
      → IsKey (get_key put)
      → Fits value_size (get_value put)
      → get_key ask ≡ get_key put
      → (BaseTable.set default_table m (get_key put) (get_value put)).status ≡ done
      → responses (start m (put ∷ ask ∷ [])).0
        ≡ codes "200 SET OK" ∷ (codes "200 " ++ get_value put) ∷ []
unfolding start responses dispatch_message perform request error_code response_text code_or
start-set_get m stored asked id next random other junk left w k v same accepted =
    let put = request cmd_set stored id random junk in
    let u = BaseTable.set default_table m (get_key put) (get_value put) in
    let held : contents default_table u.memory (get_key (request cmd_get asked next other left))
        ≡ some (get_value put) =
      ap (contents default_table u.memory) same
      ∙ contents-set default_table default-IsGeometry m (get_key put) (get_value put) w k v accepted
          (get_key put) k
      ∙ rw (text_eq_refl (get_key put)) in
    rw (accepted, error_code, code_or)
      (ap (λ s. codes "200 SET OK" ∷ s)
        (start-get u.memory asked next other left (get_value put) v held))

-- No message of the master has the number of the last worker as its type.
request-worker_id :
    (op : Operation) (params : Mem) (id random : ℕ) (junk : ℤ)
    → (request op params id random junk).mtype ≢ worker_id 3
unfolding request worker_id
request-worker_id op params id random junk e = absurd (omega arith)

-- With a random number that four divides, the master's own `msgrcv` takes the message it has just
-- sent, and the client that has sent a set is told success or failure by a status that was never set.
pub execute_query-unsent :
    (exchange : CommandMessage → Option CommandMessage) (conns : List ClientConnection)
    (params : Mem) (id random : ℕ) (junk : ℤ)
    → ((msg : CommandMessage) → msg.mtype ≡ master_msgtype → exchange msg ≡ some msg)
    → random % 4 ≡ 0
    → execute_query exchange conns cmd_set params id random junk ≡ (
      pos 0,
      send_response_to_client conns
          (code_or junk (codes "200 SET OK") (codes "301 Key not found"))
          id,
    )
unfolding execute_query relay request process_response_from_worker response_text
execute_query-unsent exchange conns params id random junk own even =
    let e : (request cmd_set params id random junk).mtype ≡ master_msgtype = rw even in
    rw (relay, own (request cmd_set params id random junk) e)
