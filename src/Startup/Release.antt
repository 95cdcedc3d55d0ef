-- ===== src/Startup/Release.antt =====
-- What the `start` methods release, and what they leave.
use rest_technosphere_cpp_se.Base.{
  ℕ, suc, ◌≡◌, Bool, ◌&&◌, true, false, not, Option, none, some, List, [], ◌∷◌, ◌==◌, if◌then◌else◌,
  ◌-◌, arith,
}
use rest_technosphere_cpp_se.Startup.{
  Resource, event_base, listener, signal_event_int, signal_event_term, master_econn, ipc, workers,
  Action, creates, frees, dispatches, Outcomes, SocketOutcomes, watches, serve_signals,
  server_start, master_start, proxy_start, worker_start,
}

-- the number of a resource, to tell them apart
abbrev number : Resource → ℕ
number event_base = 0
number listener = 1
number signal_event_int = 2
number signal_event_term = 3
number master_econn = 4
number ipc = 5
number workers = 6

-- The resources that are held after some actions, and whether the event loop has run.
abbrev pub held : Resource → ℕ → List Action → ℕ
held r n [] = n
held r n (creates s ∷ rest) = held r (if number s == number r then suc n else n) rest
held r n (frees s ∷ rest) = held r (if number s == number r then n - 1 else n) rest
held r n (dispatches ∷ rest) = held r n rest
held r n (watches ∷ rest) = held r n rest

abbrev pub rounds : List Action → ℕ
rounds [] = 0
rounds (dispatches ∷ rest) = suc (rounds rest)
rounds (creates s ∷ rest) = rounds rest
rounds (frees s ∷ rest) = rounds rest
rounds (watches ∷ rest) = rounds rest

-- the master's socket has been added to the event loop
abbrev pub is_watched : List Action → Bool
is_watched [] = false
is_watched (watches ∷ rest) = true
is_watched (dispatches ∷ rest) = is_watched rest
is_watched (creates s ∷ rest) = is_watched rest
is_watched (frees s ∷ rest) = is_watched rest

-- every call has succeeded
abbrev pub succeed : Outcomes → Bool
succeed o = o.base && o.bound && o.int_made && o.int_added && o.term_made && o.term_added

-- a result with code 0 and one round of the event loop where the calls have succeeded, and then with nothing left
-- of `r`; and with code 1 and no round where one has failed
abbrev pub IsReleased : Bool → Resource → ℕ → ℕ × List Action → Type 0
IsReleased ok r n (code, actions) =
    (code ≡ (if ok then 0 else 1))
    × (rounds actions ≡ (if ok then 1 else 0))
    × ((if ok then held r n actions else 0) ≡ 0)

-- the shared resources exist before `ServerProcess::start`
abbrev pub shared : Resource → ℕ
shared ipc = 1
shared _ = 0

master_start-IsReleased :
    (o : Outcomes) (r : Resource) → IsReleased (succeed o) r 0 (master_start o)
unfolding master_start serve_signals
master_start-IsReleased o r = ground arith

server_start-IsReleased :
    (o : Outcomes) (r : Resource) → IsReleased (succeed o) r (shared r) (server_start o)
unfolding server_start serve_signals
server_start-IsReleased o r = ground arith

proxy_start-IsReleased :
    (o : Outcomes) (r : Resource)
    → IsReleased (o.base && o.bound && o.int_made && o.int_added) r 0 (proxy_start o)
unfolding proxy_start
proxy_start-IsReleased o r = ground arith

-- The result of a worker: undefined exactly where its event base is made and the event for the socket is not.
-- Otherwise it is as `IsReleased` says whether or not the socket is watched, and the shared resources are closed.
abbrev pub IsWorkerReleased :
    Outcomes → SocketOutcomes → Resource → Option (ℕ × List Action) → Type 0
IsWorkerReleased o socket r none = (o.base && not socket.made) ≡ true
IsWorkerReleased o socket r (some result) =
    ((o.base && not socket.made) ≡ false)
    × (is_watched result.1 ≡ (o.base && socket.added))
    × (held ipc 0 result.1 ≡ 0)
    × IsReleased (o.base && o.int_made && o.int_added && o.term_made && o.term_added) r 0 result

worker_start-IsWorkerReleased :
    (o : Outcomes) (socket : SocketOutcomes) (r : Resource)
    → IsWorkerReleased o socket r (worker_start o socket)
unfolding worker_start
worker_start-IsWorkerReleased o socket r = ground arith

master_start-held :
    (o : Outcomes)
    → let (code, actions) = master_start o in
      (held workers 0 actions ≡ (if succeed o then 0 else 1))
      × (held ipc 0 actions ≡ (if succeed o then 0 else 1))
unfolding master_start serve_signals
master_start-held o = ground arith

-- For any outcomes of the calls of libevent and any resource. `start` of p6's server, of p5's master and of the proxy
-- end with code 0 after one round of the event loop and with nothing left of the resource where their calls have
-- succeeded, and with code 1 and no round where one has failed; the p5 master then leaves its workers and its
-- shared resources, once each. So does `start` of a worker for the calls whose results it looks at; a failed
-- `event_add` for the master's socket goes unnoticed, so that the loop runs without the socket, and a failed
-- `event_new` there is undefined behaviour; otherwise the worker closes the shared resources.
pub starts-IsReleased :
    (o : Outcomes) (socket : SocketOutcomes) (r : Resource)
    → IsReleased (succeed o) r 0 (master_start o)
      × IsReleased (succeed o) r (shared r) (server_start o)
      × IsReleased (o.base && o.bound && o.int_made && o.int_added) r 0 (proxy_start o)
      × IsWorkerReleased o socket r (worker_start o socket)
      × (held workers 0 ((master_start o).1) ≡ (if succeed o then 0 else 1))
      × (held ipc 0 ((master_start o).1) ≡ (if succeed o then 0 else 1))
starts-IsReleased o socket r = (
  master_start-IsReleased o r,
  server_start-IsReleased o r,
  proxy_start-IsReleased o r,
  worker_start-IsWorkerReleased o socket r,
  (master_start-held o).0,
  (master_start-held o).1,
)
