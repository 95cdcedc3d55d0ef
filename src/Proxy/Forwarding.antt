-- ===== src/Proxy/Forwarding.antt =====
-- What a connection passes on, and when it ends.
use rest_technosphere_cpp_se.Base.{
  ℕ, ◌+◌, ◌≡◌, refl, ◌∙◌, inl, inr, Bool, true, false, not, ◌||◌, ◌&&◌, Option, none, some, List,
  [], ◌∷◌, ◌++◌, Bytes, pos, if◌then◌else◌, Bool-cases, arith,
}
use mathlib.Core.List.{append-nil, append_assoc}
use rest_technosphere_cpp_se.Proxy.{
  Connection, End, at_in, at_out, Event, received, end_of_file, failure, establish, decrement,
  is_zero, reading_at, receive, conn_readcb, disable, handle_eof, deliver, run,
}

abbrev pub same_end : End → End → Bool
same_end at_in at_in = true
same_end at_in at_out = false
same_end at_out at_in = false
same_end at_out at_out = true

-- an end's end of file is among the events
unfoldable pub ended : End → List Event → Bool
ended e [] = false
ended e (received f bytes ∷ events) = ended e events
ended e (end_of_file f ∷ events) = same_end e f || ended e events
ended e (failure f ∷ events) = ended e events

unfoldable pub has_failed : List Event → Bool
has_failed [] = false
has_failed (received f bytes ∷ events) = has_failed events
has_failed (end_of_file f ∷ events) = has_failed events
has_failed (failure f ∷ events) = true

-- the bytes received from an end, up to its end of file
unfoldable pub sent : Bool → End → List Event → Bytes
sent on e [] = []
sent on e (received f bytes ∷ events) =
    (if on && same_end e f then bytes else []) ++ sent on e events
sent on e (end_of_file f ∷ events) = sent (on && not (same_end e f)) e events
sent on e (failure f ∷ events) = sent on e events

abbrev pub live : Bool → ℕ
live true = 1
live false = 0

-- a connection with nothing unread, its counter that of the ends still read from
abbrev pub open_at : ℕ → Bool → Bool → Bytes → Bytes → Connection
open_at id a b to_client to_server = record {
  id = id;
  connection_counter = pos (live a + live b);
  bev_in = record { input = []; output = to_client; reading = a };
  bev_out = record { input = []; output = to_server; reading = b };
}

abbrev closes : Bool → Bool → List Event → Bool
closes a b events =
    has_failed events || ((not a || ended at_in events) && (not b || ended at_out events))

abbrev after : ℕ → Bool → Bool → Bytes → Bytes → List Event → Option Connection
after id a b x y events =
    if closes a b events
    then none
    else some (
        open_at id (a && not (ended at_in events)) (b && not (ended at_out events))
          (x ++ sent b at_out events) (y ++ sent a at_in events))

run_lem :
    (id : ℕ) (a b : Bool) (x y : Bytes) (events : List Event)
    → a || b ≡ true
    → run (open_at id a b x y) events ≡ after id a b x y events
unfolding run deliver reading_at receive conn_readcb disable handle_eof decrement is_zero ended
    has_failed sent
run_lem id false false x y events h = absurd (ground arith)
run_lem id true true x y [] h = rw (append-nil x, append-nil y)
run_lem id true false x y [] h = rw (append-nil x, append-nil y)
run_lem id false true x y [] h = rw (append-nil x, append-nil y)
run_lem id a b x y (failure e ∷ events) h = refl
run_lem id true true x y (received at_in s ∷ events) h =
    run_lem id true true x (y ++ s) events refl ∙ rw append_assoc
run_lem id true true x y (received at_out s ∷ events) h =
    run_lem id true true (x ++ s) y events refl ∙ rw append_assoc
run_lem id true false x y (received at_in s ∷ events) h =
    run_lem id true false x (y ++ s) events refl ∙ rw append_assoc
run_lem id true false x y (received at_out s ∷ events) h = run_lem id true false x y events refl
run_lem id false true x y (received at_in s ∷ events) h = run_lem id false true x y events refl
run_lem id false true x y (received at_out s ∷ events) h =
    run_lem id false true (x ++ s) y events refl ∙ rw append_assoc
run_lem id true true x y (end_of_file at_in ∷ events) h =
    rw (append-nil y) (run_lem id false true x y events refl)
run_lem id true true x y (end_of_file at_out ∷ events) h =
    rw (append-nil x) (run_lem id true false x y events refl)
run_lem id true false x y (end_of_file at_in ∷ events) h = elim (Bool-cases (has_failed events)) [
  | inl e ↦ rw e
  | inr e ↦ rw e
]
run_lem id true false x y (end_of_file at_out ∷ events) h = run_lem id true false x y events refl
run_lem id false true x y (end_of_file at_in ∷ events) h = run_lem id false true x y events refl
run_lem id false true x y (end_of_file at_out ∷ events) h = elim (Bool-cases (has_failed events)) [
  | inl e ↦ rw e
  | inr e ↦ rw e
]

-- A connection ends with an error or once both ends have sent their end of file, and not before; until
-- then each end has been given exactly the bytes received from the other, in their order.
pub run-establish :
    (id : ℕ) (events : List Event)
    → run (establish id) events ≡ (
        if has_failed events || (ended at_in events && ended at_out events)
        then none
        else some (
            open_at id
              (not (ended at_in events))
              (not (ended at_out events))
              (sent true at_out events)
              (sent true at_in events)))
unfolding establish
run-establish id events = run_lem id true true [] [] events refl
