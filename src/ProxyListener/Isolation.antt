-- ===== src/ProxyListener/Isolation.antt =====
-- Connections of one listener do not disturb each other.
use rest_technosphere_cpp_se.Base.{
  ℕ, suc, ◌<◌, ◌≡◌, ◌≢◌, refl, ap, ◌∙◌, true, false, Option, none, some, List, [], ◌∷◌, ◌++◌, All,
  inl, inr, Bool-cases, Option-cases, ==_refl, ltb, ◌==◌, if◌then◌else◌, arith,
}
use rest_technosphere_cpp_se.Proxy
use rest_technosphere_cpp_se.Proxy.{Connection, Event, deliver}
use rest_technosphere_cpp_se.Selector.{route_of}
use rest_technosphere_cpp_se.Selector.Table.{select_cases}
use rest_technosphere_cpp_se.ProxyListener.{
  Registered, ProxyListener, Outcomes, establish, listener_cb, state_of, called_back, ListenerEvent,
  incoming, called, serve,
}
use rest_technosphere_cpp_se.ProxyListener.Listing.{
  IsAscending, remove_connection-IsAscending, set_state-IsAscending, append-IsAscending,
  state_of-high, state_of-remove_connection, state_of-set_state, state_of-append,
}

called_back-IsAscending :
    (rs : List Registered) (high id : ℕ) (event : Event)
    → IsAscending 0 rs high
    → IsAscending 0 (called_back rs id event) high
unfolding called_back
called_back-IsAscending rs high id event h = elim (Option-cases (state_of rs id)) [
  | inl o ↦ rw (o, called_back) h
  | inr (c, o) ↦ elim (Option-cases (deliver c event)) [
    | inl p ↦ rw (o, p, called_back) (remove_connection-IsAscending 0 rs high id h)
    | inr (d, p) ↦ rw (o, p, called_back) (set_state-IsAscending 0 rs high id d h)
  ]
]

-- a connection that takes an event, if it is still there
abbrev taken : Option Connection → Event → Option Connection
taken o event = elim o [ none ↦ none | some c ↦ deliver c event ]

state_of-called_back :
    (rs : List Registered) (high id : ℕ) (event : Event)
    → IsAscending 0 rs high
    → state_of (called_back rs id event) id ≡ taken (state_of rs id) event
unfolding called_back
state_of-called_back rs high id event h = elim (Option-cases (state_of rs id)) [
  | inl o ↦ rw (o, called_back) o
  | inr (c, o) ↦ elim (Option-cases (deliver c event)) [
    | inl p ↦
        rw (o, p, called_back) (state_of-remove_connection 0 rs high id id h ∙ rw (==_refl id))
    | inr (d, p) ↦ rw (o, p, called_back) (state_of-set_state rs id id c d o ∙ rw (==_refl id))
  ]
]

state_of_other-called_back :
    (rs : List Registered) (high id j : ℕ) (event : Event)
    → IsAscending 0 rs high
    → (id == j) ≡ false
    → state_of (called_back rs id event) j ≡ state_of rs j
unfolding called_back
state_of_other-called_back rs high id j event h e = elim (Option-cases (state_of rs id)) [
  | inl o ↦ rw (o, called_back)
  | inr (c, o) ↦ elim (Option-cases (deliver c event)) [
    | inl p ↦ rw (o, p, called_back) (state_of-remove_connection 0 rs high id j h ∙ rw e)
    | inr (d, p) ↦ rw (o, p, called_back) (state_of-set_state rs id j c d o ∙ rw e)
  ]
]

-- the callbacks of one connection
unfoldable pub events_of : ℕ → List ListenerEvent → List Event
events_of id [] = []
events_of id (incoming random o ∷ es) = events_of id es
events_of id (called j event ∷ es) = if j == id then event ∷ events_of id es else events_of id es

-- the event does not end the loop: the two bufferevents can be had
abbrev pub IsLasting : ListenerEvent → Type 0
IsLasting (incoming random o) = (o.new_in ≡ true) × (o.new_out ≡ true)
IsLasting (called id event) = Unit

-- what `listener_cb` does when the loop goes on
listener_cb-lasting :
    (l : ProxyListener) (random : ℕ) (o : Outcomes)
    → route_of l.selector l.port ≢ []
    → IsLasting (incoming random o)
    → (conn : Registered) × (conn.id ≡ l.id_base)
      × (listener_cb l random o
          ≡ some (record l { conn_list = l.conn_list ++ (conn ∷ []); id_base = suc l.id_base }))
unfolding listener_cb establish
listener_cb-lasting l random o r (is_in, is_out) = elim (select_cases l.selector l.port random) [
  | inl (e, f) ↦ absurd (r e)
  | inr (server, i, below, found, e) ↦ (
    record {
      id = l.id_base;
      remote_server_address = server;
      established = (establish l.id_base o).0;
    },
    refl,
    elim (Bool-cases o.socket) [
      | inl f ↦ rw (e, listener_cb, establish, is_in, is_out, f)
      | inr f ↦ rw (e, listener_cb, establish, is_in, is_out, f)
    ],
  )
]

-- a connection that runs on, if it is still there
abbrev runs_on : Option Connection → List Event → Option Connection
runs_on o events = elim o [ none ↦ none | some c ↦ Proxy.run c events ]

runs_on-taken :
    (o : Option Connection) (event : Event) (events : List Event)
    → runs_on (taken o event) events ≡ runs_on o (event ∷ events)
unfolding Proxy.run
runs_on-taken none event events = refl
runs_on-taken (some c) event events = refl

-- what holds after `es` of a listener that was at `l`, of the connection `id`
abbrev Served : ProxyListener → List ListenerEvent → ℕ → Type 0
Served l es id =
    (k : ProxyListener) × (serve l es ≡ some k)
    × IsAscending 0 k.conn_list k.id_base
    × (state_of k.conn_list id ≡ runs_on (state_of l.conn_list id) (events_of id es))

serve_below :
    (es : List ListenerEvent) (l : ProxyListener) (id : ℕ)
    → IsAscending 0 l.conn_list l.id_base
    → id < l.id_base
    → route_of l.selector l.port ≢ []
    → All IsLasting es
    → Served l es id
unfolding serve events_of Proxy.run
serve_below [] l id h below r all = elim (Option-cases (state_of l.conn_list id)) [
  | inl o ↦ (l, refl, h, rw o)
  | inr (c, o) ↦ (l, refl, h, rw o)
]
serve_below (incoming random o ∷ es) l id h below r (lasting, all) =
    let (conn, e, f) = listener_cb-lasting l random o r lasting in
    let next : ProxyListener = record l {
      conn_list = l.conn_list ++ (conn ∷ []);
      id_base = suc l.id_base;
    } in
    let (k, s, a, q) =
      serve_below es next id (append-IsAscending 0 l.conn_list l.id_base conn e h) (omega arith) r
        all in
    let other : (conn.id == id) ≡ false = grind arith in
    (
      k,
      rw (f, serve) s,
      a,
      q ∙ ap (λ t. runs_on t (events_of id es)) (state_of-append l.conn_list conn id other),
    )
serve_below (called j event ∷ es) l id h below r (lasting, all) =
    let next : ProxyListener = record l { conn_list = called_back l.conn_list j event } in
    let (k, s, a, q) =
      serve_below es next id (called_back-IsAscending l.conn_list l.id_base j event h) below r
        all in
    elim (Bool-cases (j == id)) [
      | inl e ↦
          let same : j ≡ id = grind arith in
          let moved =
            ap (λ x. state_of (called_back l.conn_list x event) id) same
            ∙ state_of-called_back l.conn_list l.id_base id event h in
          (
            k,
            s,
            a,
            rw (e, events_of)
                (q
                  ∙ ap (λ t. runs_on t (events_of id es)) moved
                  ∙ runs_on-taken (state_of l.conn_list id) event (events_of id es)),
          )
      | inr e ↦ (
        k,
        s,
        a,
        q
            ∙ rw (e, events_of)
                (ap (λ t. runs_on t (events_of id es))
                  (state_of_other-called_back l.conn_list l.id_base j id event h e)),
      )
    ]

-- On a port with servers, as long as bufferevents can be had: the listener goes on, its ids stay
-- ascending, and each connection is at the end as if it had run alone with the callbacks that were
-- its own, whatever the other connections did.
pub serve-run :
    (es : List ListenerEvent) (l : ProxyListener) (id : ℕ) (c : Connection)
    → IsAscending 0 l.conn_list l.id_base
    → state_of l.conn_list id ≡ some c
    → route_of l.selector l.port ≢ []
    → All IsLasting es
    → (k : ProxyListener) × (serve l es ≡ some k)
      × IsAscending 0 k.conn_list k.id_base
      × (state_of k.conn_list id ≡ Proxy.run c (events_of id es))
serve-run es l id c h at r all =
    let known : id < l.id_base = elim (Bool-cases (ltb id l.id_base)) [
      | inl e ↦ ground arith
      | inr e ↦
          let high : l.id_base < suc id = ground arith in
          let gone = state_of-high 0 l.conn_list l.id_base id h high in absurd (cc)
    ] in
    let (k, s, a, q) = serve_below es l id h known r all in
    (k, s, a, q ∙ ap (λ o. runs_on o (events_of id es)) at)
