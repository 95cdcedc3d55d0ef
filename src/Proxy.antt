-- ===== src/Proxy.antt =====
-- A connection of the proxy, p3/src/Connection.{h,cpp}: two bufferevents, to the client and to the
-- server behind the proxy, whose bytes are passed on to each other. The sockets and libevent are not
-- modelled: an event is what libevent calls back with, and none but an error comes from a bufferevent
-- whose EV_READ is disabled. A connection that has freed its bufferevents and left its owner's list is
-- `none`.
pub mod Forwarding
use rest_technosphere_cpp_se.Base.{
  ℕ, zero, suc, Bool, true, false, Option, none, some, List, [], ◌∷◌, ◌++◌, Bytes, ℤ, pos, negsuc,
  if◌then◌else◌,
}

-- The unread bytes, all bytes that were put into the output, and whether EV_READ is enabled.
pub record Bufferevent : Type 0 where
  pub input : Bytes
  pub output : Bytes
  pub reading : Bool

pub record Connection : Type 0 where
  pub id : ℕ
  pub connection_counter : ℤ
  pub bev_in : Bufferevent
  pub bev_out : Bufferevent

-- which of the two bufferevents a callback is for
pub data End : Type 0 where
  at_in at_out : End

pub data Event : Type 0 where
  received : End → Bytes → Event
  end_of_file : End → Event
  failure : End → Event

-- the connection that `establish` leaves when it returns 0
unfoldable pub establish : ℕ → Connection
establish id =
    let fresh : Bufferevent = record { input = []; output = []; reading = true } in
    record { id = id; connection_counter = pos 2; bev_in = fresh; bev_out = fresh }

-- `connection_counter--`
unfoldable pub decrement : ℤ → ℤ
decrement (pos zero) = negsuc 0
decrement (pos (suc n)) = pos n
decrement (negsuc n) = negsuc (suc n)

unfoldable pub is_zero : ℤ → Bool
is_zero (pos zero) = true
is_zero (pos (suc n)) = false
is_zero (negsuc n) = false

unfoldable pub reading_at : Connection → End → Bool
reading_at c at_in = c.bev_in.reading
reading_at c at_out = c.bev_out.reading

-- the bytes that libevent reads before it calls back
unfoldable pub receive : Connection → End → Bytes → Connection
receive c at_in bytes = record c { bev_in = record c.bev_in { input = c.bev_in.input ++ bytes } }
receive c at_out bytes = record c {
  bev_out = record c.bev_out { input = c.bev_out.input ++ bytes };
}

-- the whole input goes to the counterpart's output
unfoldable pub conn_readcb : Connection → End → Connection
conn_readcb c at_in = record c {
  bev_in = record c.bev_in { input = [] };
  bev_out = record c.bev_out { output = c.bev_out.output ++ c.bev_in.input };
}
conn_readcb c at_out = record c {
  bev_in = record c.bev_in { output = c.bev_in.output ++ c.bev_out.input };
  bev_out = record c.bev_out { input = [] };
}

-- `bufferevent_disable(bev, EV_READ)`
unfoldable pub disable : Connection → End → Connection
disable c at_in = record c { bev_in = record c.bev_in { reading = false } }
disable c at_out = record c { bev_out = record c.bev_out { reading = false } }

-- the branch of `conn_eventcb` for BEV_EVENT_EOF
unfoldable pub handle_eof : Connection → End → Option Connection
unfolding decrement is_zero conn_readcb disable
handle_eof c e =
    let counted = record c { connection_counter = decrement c.connection_counter } in
    let d = disable (conn_readcb counted e) e in
    if is_zero d.connection_counter then none else some d

-- one callback: `conn_readcb`, or one of the two branches of `conn_eventcb`
unfoldable pub deliver : Connection → Event → Option Connection
unfolding reading_at receive conn_readcb handle_eof
deliver c (received e bytes) =
    if reading_at c e then some (conn_readcb (receive c e bytes) e) else some c
deliver c (end_of_file e) = if reading_at c e then handle_eof c e else some c
deliver c (failure e) = none

unfoldable pub run : Connection → List Event → Option Connection
unfolding deliver
run c [] = some c
run c (event ∷ events) = elim (deliver c event) [ none ↦ none | some d ↦ run d events ]
