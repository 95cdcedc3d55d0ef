-- ===== src/Examples/Exchanges.antt =====
-- Server 1.0: a command on its way from the master to a worker and back.
use rest_technosphere_cpp_se.Base.{some, none, [], ◌∷◌, codes, pos, negsuc}
use rest_technosphere_cpp_se.Memory.{strcpy}
use rest_technosphere_cpp_se.Murmur
use rest_technosphere_cpp_se.PosixTable.Slots.{zeroed}
use rest_technosphere_cpp_se.Semaphores.Family.{update}
use rest_technosphere_cpp_se.Command.{cmd_get}
use rest_technosphere_cpp_se.Cluster.{CommandMessage, request, master_msgtype}
use rest_technosphere_cpp_se.Cluster.Queue.{Exchange, init}

-- a get of a key that is not there, for the first worker
abbrev ask : CommandMessage
ask = request cmd_get (strcpy zeroed 0 (codes "name")) 6 9 (pos 0)

abbrev not_found : CommandMessage
not_found = record ask { mtype = master_msgtype; status = negsuc 0 }

abbrev asked : Exchange
asked = record (init zeroed []) { queue = ask ∷ []; waiting = some ask }

abbrev taken : Exchange
taken = record (init zeroed []) { waiting = some ask; workers = update (λ i. none) 0 (some ask) }

abbrev back : Exchange
back = record (init zeroed []) {
  queue = not_found ∷ [];
  waiting = some ask;
  workers = update (update (λ i. none) 0 (some ask)) 0 none;
}
