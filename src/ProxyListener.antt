-- ===== src/ProxyListener.antt =====
-- The listener of one port, p3/src/ProxyListener.{h,cpp}, with the whole of `establish` in
-- p3/src/Connection.cpp: connections that come in, are tied to a server of module Selector and run as
-- in module Proxy. The outcomes of the system's calls are arguments. `none` is a listener whose event
-- loop is over: by a division by zero in `select`, or by `event_base_loopbreak`.
pub mod Listing
pub mod Isolation
use rest_technosphere_cpp_se.Base.{
  ℕ, suc, Bool, true, false, Option, none, some, List, [], ◌∷◌, ◌++◌, Bytes, ℤ, ◌==◌, if◌then◌else◌,
}
use rest_technosphere_cpp_se.Proxy
use rest_technosphere_cpp_se.Proxy.{Connection, Event, deliver}
use rest_technosphere_cpp_se.Selector.{RoutingTable, select}

-- An element of `conn_list`: the id, the server that was drawn, and the state of the two bufferevents;
-- `none` if `establish` failed, after which no callback is set.
pub record Registered : Type 0 where
  pub id : ℕ
  pub remote_server_address : Bytes × ℤ
  pub established : Option Connection

-- `id_base` is the static counter of Connection.
pub record ProxyListener : Type 0 where
  pub port : ℕ
  pub selector : RoutingTable
  pub conn_list : List Registered
  pub id_base : ℕ

-- whether `bufferevent_socket_new` for the client, `socket`, and `bufferevent_socket_new` for the
-- server succeed
pub record Outcomes : Type 0 where
  pub new_in : Bool
  pub socket : Bool
  pub new_out : Bool

-- `establish`: the connection if it returns 0, and whether the event loop goes on
unfoldable pub establish : ℕ → Outcomes → Option Connection × Bool
establish id o =
    if o.new_in
    then (if o.socket
        then (if o.new_out then (some (Proxy.establish id), true) else (none, false))
        else (none, true))
    else (none, false)

-- `listener_cb`: a connection goes on the list, whether or not it is established
unfoldable pub listener_cb : ProxyListener → ℕ → Outcomes → Option ProxyListener
unfolding establish
listener_cb l random o = elim (select l.selector l.port random) [
  | none ↦ none
  | some server ↦
      let (c, goes_on) = establish l.id_base o in
      let conn : Registered = record {
        id = l.id_base;
        remote_server_address = server;
        established = c;
      } in
      if goes_on
      then some (record l { conn_list = l.conn_list ++ (conn ∷ []); id_base = suc l.id_base })
      else none
]

-- `remove_connection`: the first with the id is erased
unfoldable pub remove_connection : List Registered → ℕ → List Registered
remove_connection [] id = []
remove_connection (r ∷ rs) id = if r.id == id then rs else r ∷ remove_connection rs id

-- the state of the connection with the id
unfoldable pub state_of : List Registered → ℕ → Option Connection
state_of [] id = none
state_of (r ∷ rs) id = if r.id == id then r.established else state_of rs id

unfoldable pub set_state : List Registered → ℕ → Connection → List Registered
set_state [] id c = []
set_state (r ∷ rs) id c =
    if r.id == id then record r { established = some c } ∷ rs else r ∷ set_state rs id c

-- a callback of a connection, which leaves the list when it closes
unfoldable pub called_back : List Registered → ℕ → Event → List Registered
unfolding remove_connection state_of set_state
called_back rs id event = elim (state_of rs id) [
  | none ↦ rs
  | some c ↦ elim (deliver c event) [ none ↦ remove_connection rs id | some d ↦ set_state rs id d ]
]

pub data ListenerEvent : Type 0 where
  incoming : (random : ℕ) (outcomes : Outcomes) → ListenerEvent
  called : (id : ℕ) (event : Event) → ListenerEvent

unfoldable pub serve : ProxyListener → List ListenerEvent → Option ProxyListener
unfolding listener_cb called_back
serve l [] = some l
serve l (incoming random o ∷ es) = elim (listener_cb l random o) [
  | none ↦ none
  | some k ↦ serve k es
]
serve l (called id event ∷ es) =
    serve (record l { conn_list = called_back l.conn_list id event }) es
