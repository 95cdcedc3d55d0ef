-- ===== src/Examples/Proxy.antt =====
-- A connection of the proxy over one run, and a listener with two of them.
use rest_technosphere_cpp_se.Base.{
  ◌≡◌, refl, true, false, not, ◌||◌, ◌&&◌, none, some, List, [], ◌∷◌, codes, pos, All, arith, ◌≢◌,
  if◌then◌else◌,
}
use rest_technosphere_cpp_se.Proxy.{
  at_in, at_out, Event, received, end_of_file, failure, establish, run,
}
use rest_technosphere_cpp_se.Selector.{route_of}
use rest_technosphere_cpp_se.ProxyListener.{
  ProxyListener, ListenerEvent, incoming, called, serve, state_of,
}
use rest_technosphere_cpp_se.ProxyListener.Listing.{IsAscending}
use rest_technosphere_cpp_se.ProxyListener.Isolation.{IsLasting, events_of, serve-run}
use rest_technosphere_cpp_se.Proxy.Forwarding.{ended, has_failed, sent, open_at, run-establish}

-- the client asks and has no more to say; the server answers
abbrev dialogue : List Event
dialogue = received at_in (codes "GET /") ∷ end_of_file at_in ∷ received at_out (codes "200") ∷ []

program : Unit {0}
unfolding establish run ended has_failed sent
program = tt

dialogue_end :
    run (establish 4) dialogue ≡ some (open_at 4 false true (codes "200") (codes "GET /"))
unfolding program
dialogue_end = refl

run-establish_example : run (establish 4) dialogue ≡ (
    if has_failed dialogue || (ended at_in dialogue && ended at_out dialogue)
    then none
    else some (
        open_at 4
          (not (ended at_in dialogue))
          (not (ended at_out dialogue))
          (sent true at_out dialogue)
          (sent true at_in dialogue)))
run-establish_example = run-establish 4 dialogue

-- a listener with the connections 4 and 5
abbrev listener : ProxyListener
listener = record {
  port = 9995;
  selector = (9995, (codes "127.0.0.1", pos 9000) ∷ []) ∷ [];
  conn_list =
      record {
        id = 4;
        remote_server_address = (codes "127.0.0.1", pos 9000);
        established = some (establish 4);
      }
      ∷ record {
        id = 5;
        remote_server_address = (codes "127.0.0.1", pos 9000);
        established = some (establish 5);
      }
      ∷ [];
  id_base = 6;
}

-- connection 5 fails and a third comes in while connection 4 has its dialogue
abbrev bustle : List ListenerEvent
bustle =
    called 4 (received at_in (codes "GET /"))
    ∷ called 5 (failure at_out)
    ∷ incoming 12 (record { new_in = true; socket = true; new_out = true })
    ∷ called 6 (received at_in (codes "PUT"))
    ∷ called 4 (end_of_file at_in)
    ∷ called 4 (received at_out (codes "200"))
    ∷ []

listener-state : state_of listener.conn_list 4 ≡ some (establish 4)
unfolding state_of
listener-state = refl

listener-route : route_of listener.selector listener.port ≢ []
unfolding route_of
listener-route e = cc

bustle-IsLasting : All IsLasting bustle
bustle-IsLasting = (tt, (tt, ((refl, refl), (tt, (tt, (tt, tt))))))

own_events : events_of 4 bustle ≡ dialogue
unfolding events_of
own_events = refl

serve-run_example :
    (k : ProxyListener) × (serve listener bustle ≡ some k)
    × IsAscending 0 k.conn_list k.id_base
    × (state_of k.conn_list 4 ≡ run (establish 4) (events_of 4 bustle))
serve-run_example =
    serve-run bustle listener 4 (establish 4) (omega arith, (omega arith, omega arith))
      listener-state listener-route bustle-IsLasting
