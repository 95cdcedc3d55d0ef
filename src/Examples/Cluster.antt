-- ===== src/Examples/Cluster.antt =====
-- The messages of server 1.0 at concrete inputs, on the whole table of 1024 records.
use rest_technosphere_cpp_se.Base.{◌≡◌, refl, Option, some, [], ◌∷◌, ◌++◌, codes, pos, arith}
use rest_technosphere_cpp_se.Memory.{Mem, write, strcpy, strcmp, c_string}
use rest_technosphere_cpp_se.Probe.{switch_block, scan, wrap_around, find}
use rest_technosphere_cpp_se.Probe.Search.{first_from}
use rest_technosphere_cpp_se.Records.{IsKey, Fits, filled_with, is_free, lookup}
use rest_technosphere_cpp_se.Murmur
use rest_technosphere_cpp_se.PosixTable.Slots.{zeroed}
use rest_technosphere_cpp_se.Command.{cmd_get, cmd_set}
use rest_technosphere_cpp_se.Worker.{send_response_to_client}
use rest_technosphere_cpp_se.BaseTable.{done, value_size, set, default_table}
use rest_technosphere_cpp_se.BaseTable.Meaning.{IsValid}
use rest_technosphere_cpp_se.Cluster.{
  CommandMessage, get_key, get_value, request, start, code_or, execute_query, worker_id,
}
use rest_technosphere_cpp_se.Cluster.Master.{shutdown_workers}
use rest_technosphere_cpp_se.Cluster.Shutdown.{messages_for, term_message, shutdown_workers-start}
use rest_technosphere_cpp_se.Cluster.Service.{responses, start-set_get, execute_query-unsent}

program : Unit {0}
unfolding write strcpy strcmp c_string switch_block scan wrap_around find first_from filled_with
    is_free lookup Murmur.hash set get_key get_value request
program = tt

zeroed-IsValid : IsValid default_table zeroed
unfolding filled_with
zeroed-IsValid = record {
  unique = λ key i j k li lj fi fj. absurd (ground arith);
  ended = λ i l f. absurd (omega arith);
}

-- the parameter blocks of `set name Bob` and `get name`
abbrev set_params : Mem
set_params = strcpy (strcpy zeroed 64 (codes "Bob")) 0 (codes "name")

abbrev get_params : Mem
get_params = strcpy zeroed 0 (codes "name")

abbrev put : CommandMessage
put = request cmd_set set_params 5 9 (pos 77)

abbrev ask : CommandMessage
ask = request cmd_get get_params 6 10 (pos 0)

put_key_read : get_key put ≡ codes "name"
unfolding program
put_key_read = refl

put_value_read : get_value put ≡ codes "Bob"
unfolding program
put_value_read = refl

same_key : get_key ask ≡ get_key put
unfolding program
same_key = refl

put-IsKey : IsKey (get_key put)
put-IsKey = rw put_key_read (omega arith)

put-Fits : Fits value_size (get_value put)
put-Fits = rw put_value_read (omega arith)

put_accepted : (set default_table zeroed (get_key put) (get_value put)).status ≡ done
unfolding program
put_accepted = refl

start-set_get_example :
    responses (start zeroed (put ∷ ask ∷ [])).0
    ≡ codes "200 SET OK" ∷ (codes "200 " ++ get_value put) ∷ []
start-set_get_example =
    start-set_get zeroed set_params get_params 5 6 9 10 (pos 77) (pos 0) zeroed-IsValid put-IsKey
      put-Fits same_key put_accepted

-- a queue in which the message that was sent is the only one
abbrev alone : CommandMessage → Option CommandMessage
alone msg = some msg

-- the status is what the stack held, 77
execute_query-unsent_example : execute_query alone [] cmd_set set_params 5 8 (pos 77) ≡ (
  pos 0,
  send_response_to_client [] (code_or (pos 77) (codes "200 SET OK") (codes "301 Key not found")) 5,
)
execute_query-unsent_example =
    execute_query-unsent alone [] set_params 5 8 (pos 77) (λ msg h. refl) (omega arith)

shutdown_workers-start_example :
    (messages_for (worker_id 3) (shutdown_workers put) ≡ term_message put 3 ∷ [])
    × (start zeroed ((put ∷ []) ++ (term_message put 3 ∷ (ask ∷ []))) ≡ start zeroed (put ∷ []))
shutdown_workers-start_example =
    shutdown_workers-start put 3 zeroed (put ∷ []) (ask ∷ []) (omega arith)
