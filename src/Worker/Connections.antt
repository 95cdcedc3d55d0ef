-- ===== src/Worker/Connections.antt =====
-- The list of connections: ids are handed out once, and a response reaches the client that asked.
use rest_technosphere_cpp_se.Base.{
  ℕ, suc, ◌<◌, ◌≡◌, ◌≢◌, refl, ◌∙◌, ap, inl, inr, Bool, true, false, Option, none, some, List, [],
  ◌∷◌, ◌++◌, Bytes, All, All-append, ◌==◌, if◌then◌else◌, arith, Bool-cases,
}
use rest_technosphere_cpp_se.Command.{read_from_buffer}
use rest_technosphere_cpp_se.Worker.{
  ClientConnection, WorkerProcess, BevEvent, eof, error, other, send_response,
  send_response_to_client, execute_query, answer, conn_readcb, remove_connection, close,
  conn_eventcb, establish, fd_channel_callback,
}

abbrev pub ids : List ClientConnection → List ℕ
ids [] = []
ids (c ∷ cs) = c.id ∷ ids cs

abbrev pub IsAbsent : ℕ → List ℕ → Type 0
IsAbsent i is = All (λ j. j ≢ i) is

abbrev pub IsDistinct : List ℕ → Type 0
IsDistinct [] = Unit
IsDistinct (i ∷ is) = IsAbsent i is × IsDistinct is

-- no two connections have one id, and all ids have been handed out by the counter
pub record IsNumbered (w : WorkerProcess) : Type 0 where
  pub distinct : IsDistinct (ids w.conn_list)
  pub below : All (λ i. i < w.id_base) (ids w.conn_list)

-- the lines written to the connection with an id
unfoldable pub output_of : ℕ → List ClientConnection → Option (List Bytes)
output_of id [] = none
output_of id (c ∷ cs) = if c.id == id then some c.output else output_of id cs

abbrev pub add_line : Bytes → Option (List Bytes) → Option (List Bytes)
add_line response none = none
add_line response (some lines) = some (lines ++ (response ∷ []))

pub ids-send :
    (response : Bytes) (id : ℕ) (cs : List ClientConnection)
    → ids (send_response_to_client cs response id) ≡ ids cs
unfolding send_response_to_client send_response
ids-send response id [] = refl
ids-send response id (c ∷ cs) = ground (arith, ids-send response id cs)

output_of-send :
    (response : Bytes) (id j : ℕ) (cs : List ClientConnection)
    → output_of j (send_response_to_client cs response id)
      ≡ (if j == id then add_line response (output_of j cs) else output_of j cs)
unfolding output_of send_response_to_client send_response
output_of-send response id j [] = ground arith
output_of-send response id j (c ∷ cs) = ground (arith, output_of-send response id j cs)

pub All-remove :
    (P : ℕ → Type 0) (id : ℕ) (cs : List ClientConnection)
    → All P (ids cs)
    → All P (ids (remove_connection cs id))
unfolding remove_connection
All-remove P id [] h = tt
All-remove P id (c ∷ cs) h = elim (Bool-cases (c.id == id)) [
  | inl e ↦ rw (remove_connection, e) h.1
  | inr e ↦ rw (remove_connection, e) (h.0, All-remove P id cs h.1)
]

pub IsDistinct-remove :
    (id : ℕ) (cs : List ClientConnection)
    → IsDistinct (ids cs)
    → IsDistinct (ids (remove_connection cs id))
unfolding remove_connection
IsDistinct-remove id [] h = tt
IsDistinct-remove id (c ∷ cs) h = elim (Bool-cases (c.id == id)) [
  | inl e ↦ rw (remove_connection, e) h.1
  | inr e ↦
      rw (remove_connection, e) (All-remove (λ j. j ≢ c.id) id cs h.0, IsDistinct-remove id cs h.1)
]

pub ids-append :
    (cs : List ClientConnection) (c : ClientConnection)
    → ids (cs ++ (c ∷ [])) ≡ ids cs ++ (c.id ∷ [])
ids-append [] c = refl
ids-append (d ∷ cs) c = ap (λ is. d.id ∷ is) (ids-append cs c)

pub All-below_suc : (n : ℕ) (is : List ℕ) → All (λ i. i < n) is → All (λ i. i < suc n) is
All-below_suc n [] h = tt
All-below_suc n (i ∷ is) h = (omega arith, All-below_suc n is h.1)

pub IsDistinct-append :
    (n : ℕ) (is : List ℕ) → All (λ i. i < n) is → IsDistinct is → IsDistinct (is ++ (n ∷ []))
IsDistinct-append n [] h d = (tt, tt)
IsDistinct-append n (i ∷ is) h d =
    let apart : n ≢ i = omega arith in
    (All-append (λ j. j ≢ i) is (n ∷ []) d.0 (apart, tt), IsDistinct-append n is h.1 d.1)

establish-id : (c : ClientConnection) (bufferevent : Bool) → (establish c bufferevent).id ≡ c.id
unfolding establish
establish-id c true = refl
establish-id c false = refl

pub conn_readcb-IsNumbered :
    (w : WorkerProcess) (readln : ℕ → Option Bytes) (id now : ℕ)
    → IsNumbered w
    → IsNumbered (conn_readcb w readln id now)
unfolding conn_readcb execute_query
conn_readcb-IsNumbered w readln id now v =
    let query = read_from_buffer readln in
    let response = (answer query.operation query now w.memory).0 in
    record {
      distinct = rw (ids-send response id w.conn_list) v.distinct;
      below = rw (ids-send response id w.conn_list) v.below;
    }

pub conn_eventcb-IsNumbered :
    (w : WorkerProcess) (event : BevEvent) (id : ℕ)
    → IsNumbered w
    → IsNumbered (conn_eventcb w event id)
unfolding conn_eventcb close
conn_eventcb-IsNumbered w eof id v = record {
  distinct = IsDistinct-remove id w.conn_list v.distinct;
  below = All-remove (λ i. i < w.id_base) id w.conn_list v.below;
}
conn_eventcb-IsNumbered w error id v = record {
  distinct = IsDistinct-remove id w.conn_list v.distinct;
  below = All-remove (λ i. i < w.id_base) id w.conn_list v.below;
}
conn_eventcb-IsNumbered w other id v = v

pub fd_channel_callback-IsNumbered :
    (w : WorkerProcess) (bufferevent : Bool)
    → IsNumbered w
    → IsNumbered (fd_channel_callback w bufferevent)
unfolding fd_channel_callback
fd_channel_callback-IsNumbered w bufferevent v =
    let conn : ClientConnection = record { id = w.id_base; bev_in = false; output = [] } in
    let shape : ids (w.conn_list ++ (establish conn bufferevent ∷ []))
        ≡ ids w.conn_list ++ (w.id_base ∷ []) =
      ids-append w.conn_list (establish conn bufferevent)
      ∙ ap (λ i. ids w.conn_list ++ (i ∷ [])) (establish-id conn bufferevent) in
    record {
      distinct = rw shape (IsDistinct-append w.id_base (ids w.conn_list) v.below v.distinct);
      below = rw shape (
          All-append (λ i. i < suc w.id_base) (ids w.conn_list) (w.id_base ∷ [])
            (All-below_suc w.id_base (ids w.conn_list) v.below) (omega arith, tt));
    }

-- Accepting a connection, serving a command and closing a connection keep the ids on the list
-- distinct, so that an id names one client.
events-IsNumbered :
    (w : WorkerProcess) (bufferevent : Bool) (readln : ℕ → Option Bytes) (event : BevEvent)
    (id now : ℕ)
    → IsNumbered w
    → IsNumbered (fd_channel_callback w bufferevent)
      × IsNumbered (conn_readcb w readln id now)
      × IsNumbered (conn_eventcb w event id)
events-IsNumbered w bufferevent readln event id now v = (
  fd_channel_callback-IsNumbered w bufferevent v,
  conn_readcb-IsNumbered w readln id now v,
  conn_eventcb-IsNumbered w event id v,
)

-- A command is answered with one line, to the connection that sent it and to no other.
pub output_of-conn_readcb :
    (w : WorkerProcess) (readln : ℕ → Option Bytes) (id now j : ℕ)
    → let query = read_from_buffer readln in
      output_of j (conn_readcb w readln id now).conn_list ≡ (
        if j == id
        then add_line (answer query.operation query now w.memory).0 (output_of j w.conn_list)
        else output_of j w.conn_list)
unfolding conn_readcb execute_query
output_of-conn_readcb w readln id now j =
    let query = read_from_buffer readln in
    output_of-send (answer query.operation query now w.memory).0 id j w.conn_list
