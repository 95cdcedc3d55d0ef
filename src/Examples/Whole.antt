-- ===== src/Examples/Whole.antt =====
-- Server 2.0 as a whole: runs with two workers.
use rest_technosphere_cpp_se.Base.{
  ◌≡◌, refl, inl, true, false, List, [], ◌∷◌, ◌++◌, codes, isspace, atoi, text_eq,
}
use rest_technosphere_cpp_se.Memory.{Mem}
use rest_technosphere_cpp_se.PosixTable.Slots.{zeroed, zeroed-IsValid}
use rest_technosphere_cpp_se.Command.{
  parse, interpret, read_from_buffer, get_value_param, cmd_get, cmd_set,
}
use rest_technosphere_cpp_se.Worker.{
  eof, fd_channel_callback, conn_eventcb, conn_readcb, execute_query, close,
}
use rest_technosphere_cpp_se.Worker.Connections.{output_of, add_line}
use rest_technosphere_cpp_se.Server.{
  Server, ServerEvent, accepted, readable, connection, signalled, woken, listener_cb, worker_reads,
  in_loop, step, run, booted,
}
use rest_technosphere_cpp_se.Server.Soundness.{IsSound, run-IsSound}
use rest_technosphere_cpp_se.Server.Clients.{IsQuiet, asking-quiet, set_then_get}
use rest_technosphere_cpp_se.Examples.Requests.{set_line, get_line, same_key, set_line-accepted}

-- a memory that held something
abbrev dirty : Mem
dirty a = 7

-- two clients come, one on worker 1 and one on worker 2; the first stores a pair and leaves, the
-- collector wakes a minute later and is told to stop
abbrev afternoon : List ServerEvent
afternoon =
    accepted 8 5 true
    ∷ accepted 9 2 true
    ∷ readable 1 set_line 0 1000
    ∷ connection 1 eof 0
    ∷ woken (λ i. 1060) 1060
    ∷ signalled 15
    ∷ []

run-IsSound_example : IsSound (run (booted dirty 990) afternoon)
run-IsSound_example = run-IsSound dirty 990 afternoon

-- a server over a zeroed memory, with a client on worker 1 and one on worker 2
abbrev two_clients : Server
two_clients =
    run
      (record {
        memory = zeroed;
        workers = λ i. record { conn_list = []; id_base = 0; memory = zeroed; looping = true };
        cleaner = record { running = true; exit_trigger = false; delay = 1020 };
      })
      (accepted 8 5 true ∷ accepted 9 2 true ∷ [])

two_clients-memory : two_clients.memory ≡ zeroed
unfolding run step listener_cb
two_clients-memory = refl

is_set : (read_from_buffer set_line).operation ≡ cmd_set
unfolding read_from_buffer parse interpret isspace atoi text_eq
is_set = refl

is_get : (read_from_buffer get_line).operation ≡ cmd_get
unfolding read_from_buffer parse interpret isspace atoi text_eq
is_get = refl

-- between the two the first client leaves, and the second asks for the key as well
abbrev calm : List ServerEvent
calm = connection 1 eof 0 ∷ accepted 11 6 true ∷ readable 2 get_line 0 1005 ∷ []

abbrev since : Server
since = step two_clients (readable 1 set_line 0 1000)

abbrev with_third : Server
with_third = step (step since (connection 1 eof 0)) (accepted 11 6 true)

calm-IsQuiet : IsQuiet since calm
unfolding step in_loop worker_reads listener_cb
calm-IsQuiet = (refl, (refl, (asking-quiet with_third 2 get_line 0 1005 (inl is_get), tt)))

two_clients-loop : (two_clients.workers 1).looping ≡ true
unfolding run step in_loop listener_cb fd_channel_callback
two_clients-loop = refl

still_looping : ((run two_clients (readable 1 set_line 0 1000 ∷ calm)).workers 2).looping ≡ true
unfolding run step in_loop listener_cb worker_reads fd_channel_callback conn_eventcb conn_readcb
    execute_query close
still_looping = refl

set_then_get_example :
    let before = run two_clients (readable 1 set_line 0 1000 ∷ calm) in
    output_of 0 ((step before (readable 2 get_line 0 1010)).workers 2).conn_list
    ≡ add_line
        (codes "200 " ++ get_value_param (read_from_buffer set_line))
        (output_of 0 (before.workers 2).conn_list)
set_then_get_example =
    set_then_get two_clients 1 2 0 0 1000 1010 set_line get_line calm
      (rw two_clients-memory zeroed-IsValid) two_clients-loop still_looping is_set is_get same_key
      (rw two_clients-memory set_line-accepted) calm-IsQuiet
