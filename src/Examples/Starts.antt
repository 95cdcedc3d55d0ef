-- ===== src/Examples/Starts.antt =====
-- A start at which SIGTERM's event cannot be added.
use rest_technosphere_cpp_se.Base.{◌≡◌, refl, true, false, [], ◌∷◌}
use rest_technosphere_cpp_se.Startup.{
  Outcomes, SocketOutcomes, ipc, workers, creates, event_base, listener, signal_event_int,
  signal_event_term, server_start, master_start, proxy_start, worker_start, serve_signals,
}
use rest_technosphere_cpp_se.Startup.Release.{
  IsReleased, IsWorkerReleased, held, succeed, shared, starts-IsReleased,
}

abbrev refused : Outcomes
refused = record {
  base = true;
  bound = true;
  int_made = true;
  int_added = true;
  term_made = true;
  term_added = false;
}

master_start-refused : master_start refused ≡ (
  1,
  creates ipc
      ∷ creates workers
      ∷ creates event_base
      ∷ creates listener
      ∷ creates signal_event_int
      ∷ creates signal_event_term
      ∷ [],
)
unfolding master_start serve_signals
master_start-refused = refl

-- the master's socket cannot be added either
abbrev deaf : SocketOutcomes
deaf = record { made = true; added = false }

starts-IsReleased_example :
    IsReleased (succeed refused) workers 0 (master_start refused)
    × IsReleased (succeed refused) workers (shared workers) (server_start refused)
    × IsReleased true workers 0 (proxy_start refused)
    × IsWorkerReleased refused deaf workers (worker_start refused deaf)
    × (held workers 0 ((master_start refused).1) ≡ 1)
    × (held ipc 0 ((master_start refused).1) ≡ 1)
starts-IsReleased_example = starts-IsReleased refused deaf workers
