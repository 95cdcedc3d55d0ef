-- ===== src/Startup.antt =====
-- The `start` methods of the processes that run an event loop: ServerProcess and WorkerProcess of p6,
-- MasterProcess of p5 and ProxyListener of p3. What each creates and frees is a list of actions; which of
-- libevent's calls succeed is an argument.
pub mod Release
use rest_technosphere_cpp_se.Base.{
  ℕ, suc, Bool, true, false, not, ◌&&◌, ◌||◌, Option, none, some, List, [], ◌∷◌, ◌++◌, ◌==◌,
  if◌then◌else◌,
}

-- what is created and freed: the objects of libevent, the shared resources, the worker processes
pub data Resource : Type 0 where
  event_base listener signal_event_int signal_event_term master_econn ipc workers : Resource

-- and when the event loop runs, and the master's socket is added to it
pub data Action : Type 0 where
  creates frees : Resource → Action
  dispatches watches : Action

-- the results of `event_base_new`, `evconnlistener_new_bind`, `evsignal_new` and `event_add`
pub record Outcomes : Type 0 where
  pub base : Bool
  pub bound : Bool
  pub int_made : Bool
  pub int_added : Bool
  pub term_made : Bool
  pub term_added : Bool

abbrev pub created : Bool → Resource → List Action
created ok r = if ok then creates r ∷ [] else []

-- the two signal events, which are both made before the first is tested
abbrev pub signals : Outcomes → List Action
signals o = created o.int_made signal_event_int ++ created o.term_made signal_event_term

-- `ServerProcess::start`, behind what came before it, and with what it does at the end
unfoldable pub serve_signals : List Action → List Action → Outcomes → ℕ × List Action
serve_signals before end o =
    if not o.base
    then (1, before)
    else if not o.bound
    then (1, before ++ (creates event_base ∷ []))
    else if not o.int_made || not o.int_added
    then (1, before ++ (creates event_base ∷ creates listener ∷ signals o))
    else if not o.term_made || not o.term_added
    then (1, before ++ (creates event_base ∷ creates listener ∷ signals o))
    else (
      0,
      before
          ++ (creates event_base
              ∷ creates listener
              ∷ (signals o
                  ++ (dispatches
                      ∷ frees listener
                      ∷ frees signal_event_int
                      ∷ frees signal_event_term
                      ∷ frees event_base
                      ∷ end))),
    )

-- `ServerProcess::start`: the shared resources, which the other processes have created, go at the end
unfoldable pub server_start : Outcomes → ℕ × List Action
unfolding serve_signals
server_start = serve_signals [] (frees ipc ∷ [])

-- `MasterProcess::start`: `init_ipc`, and at the end `shutdown_workers` and `release_ipc`
unfoldable pub master_start : Outcomes → ℕ × List Action
unfolding serve_signals
master_start = serve_signals (creates ipc ∷ creates workers ∷ []) (frees workers ∷ frees ipc ∷ [])

-- `ProxyListener::start`, with one signal event
unfoldable pub proxy_start : Outcomes → ℕ × List Action
proxy_start o =
    if not o.base
    then (1, [])
    else if not o.bound
    then (1, creates event_base ∷ [])
    else if not o.int_made || not o.int_added
    then (1, creates event_base ∷ creates listener ∷ created o.int_made signal_event_int)
    else (
      0,
      creates event_base
          ∷ creates listener
          ∷ creates signal_event_int
          ∷ dispatches
          ∷ frees listener
          ∷ frees signal_event_int
          ∷ frees event_base
          ∷ [],
    )

-- `event_new` and `event_add` for the master's socket; the code looks at the result of neither
pub record SocketOutcomes : Type 0 where
  pub made : Bool
  pub added : Bool

-- `WorkerProcess::start`, which ends with `exit`. It watches the master's socket only where `event_add` has succeeded;
-- `none` is undefined behaviour, as `event_add` of the null pointer that a failed `event_new` gives.
unfoldable pub worker_start : Outcomes → SocketOutcomes → Option (ℕ × List Action)
worker_start o socket =
    let watching = if socket.added then watches ∷ [] else [] in
    let begun = creates event_base ∷ creates master_econn ∷ (watching ++ signals o) in
    if not o.base
    then some (1, creates ipc ∷ frees ipc ∷ [])
    else if not socket.made
    then none
    else if not o.int_made || not o.int_added
    then some (1, creates ipc ∷ (begun ++ (frees ipc ∷ [])))
    else if not o.term_made || not o.term_added
    then some (1, creates ipc ∷ (begun ++ (frees ipc ∷ [])))
    else some (
      0,
      creates ipc
          ∷ (begun
              ++ (dispatches
                  ∷ frees master_econn
                  ∷ frees signal_event_int
                  ∷ frees signal_event_term
                  ∷ frees event_base
                  ∷ frees ipc
                  ∷ [])),
    )
