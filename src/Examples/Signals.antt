-- ===== src/Examples/Signals.antt =====
-- A signal to processes with two connections.
use rest_technosphere_cpp_se.Base.{◌≡◌, refl, true, none, some, List, [], ◌∷◌}
use rest_technosphere_cpp_se.PosixTable.Slots.{zeroed}
use rest_technosphere_cpp_se.Worker.{ClientConnection, WorkerProcess}
use rest_technosphere_cpp_se.Worker.Signals.{close_all, signal_cb}
use rest_technosphere_cpp_se.Cluster.Master.{MasterProcess}
use rest_technosphere_cpp_se.Cluster.Master
use rest_technosphere_cpp_se.Cluster.Signals.{signal_cb_lem}

abbrev connections : List ClientConnection
connections =
    record { id = 3; bev_in = true; output = [] }
    ∷ record { id = 5; bev_in = true; output = [] }
    ∷ []

abbrev worker : WorkerProcess
worker = record { conn_list = connections; id_base = 6; memory = zeroed; looping = true }

abbrev master : MasterProcess
master = record { conn_list = []; id_base = 6; looping = true }

-- the first round closes the first of three connections, the second the third
close_all-two_rounds :
    close_all 2 0 (
      record { id = 3; bev_in = true; output = [] }
      ∷ record { id = 4; bev_in = true; output = [] }
      ∷ record { id = 5; bev_in = true; output = [] }
      ∷ [])
    ≡ some (record { id = 4; bev_in = true; output = [] } ∷ [])
unfolding close_all
close_all-two_rounds = refl

signal_cb_lem_example :
    (signal_cb worker ≡ none) × (Master.signal_cb master ≡ some (record master { conn_list = [] }))
signal_cb_lem_example = signal_cb_lem worker master
