-- ===== src/Cluster/Signals.antt =====
-- The end of the connections on a signal, in the workers of server 2.0 and in the master of server 1.0.
use rest_technosphere_cpp_se.Base.{
  ◌≡◌, refl, none, some, [], length, ltb, if◌then◌else◌, Bool-cases, inl, inr,
}
use rest_technosphere_cpp_se.Worker.{WorkerProcess}
use rest_technosphere_cpp_se.Worker.Signals
use rest_technosphere_cpp_se.Worker.Signals.{close_all, close_all-length}
use rest_technosphere_cpp_se.Cluster.Master.{MasterProcess, signal_cb}

worker_lem :
    (w : WorkerProcess)
    → Signals.signal_cb w
      ≡ (if ltb 1 (length w.conn_list) then none else some (record w { conn_list = [] }))
unfolding Signals.signal_cb
worker_lem w = elim (Bool-cases (ltb 1 (length w.conn_list))) [
  | inl e ↦ rw (close_all-length w.conn_list, e, Signals.signal_cb) refl
  | inr e ↦ rw (close_all-length w.conn_list, e, Signals.signal_cb) refl
]

master_lem :
    (m : MasterProcess)
    → signal_cb m
      ≡ (if ltb 1 (length m.conn_list) then none else some (record m { conn_list = [] }))
unfolding signal_cb
master_lem m = elim (Bool-cases (ltb 1 (length m.conn_list))) [
  | inl e ↦ rw (close_all-length m.conn_list, e, signal_cb) refl
  | inr e ↦ rw (close_all-length m.conn_list, e, signal_cb) refl
]

-- `signal_cb` of a worker of server 2.0 and of the master of server 1.0 takes every connection off the list if
-- there is at most one; with two or more, whatever their ids, its loop reads behind the end of the vector.
pub signal_cb_lem :
    (w : WorkerProcess) (m : MasterProcess)
    → (Signals.signal_cb w
        ≡ (if ltb 1 (length w.conn_list) then none else some (record w { conn_list = [] })))
      × (signal_cb m
          ≡ (if ltb 1 (length m.conn_list) then none else some (record m { conn_list = [] })))
signal_cb_lem w m = (worker_lem w, master_lem m)
