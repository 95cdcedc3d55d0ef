-- ===== src/Examples/Ipc.antt =====
-- A start of each server where an earlier run has left its objects: a message in the queue of server 1.0, and a
-- lock of server 2.0 that was held.
use rest_technosphere_cpp_se.Base.{
  ℕ, ◌≡◌, ◌<◌, refl, true, Option, none, some, List, [], ◌∷◌, codes, length, pos, arith,
}
use mathlib.Core.Option
use rest_technosphere_cpp_se.Memory.{Mem}
use rest_technosphere_cpp_se.Command.{cmd_get}
use rest_technosphere_cpp_se.PosixTable.Slots.{zeroed}
use rest_technosphere_cpp_se.PosixTable
use rest_technosphere_cpp_se.Records.Clear.{clear}
use rest_technosphere_cpp_se.BaseTable.{default_table, contents}
use rest_technosphere_cpp_se.Semaphores.{sysv, start}
use rest_technosphere_cpp_se.Cluster.{CommandMessage}
use rest_technosphere_cpp_se.Server
use rest_technosphere_cpp_se.Ipc.{Shared}
use rest_technosphere_cpp_se.Ipc.SysV
use rest_technosphere_cpp_se.Ipc.SysV.{init_sem, init_ipc, release_ipc, attach}
use rest_technosphere_cpp_se.Ipc.Leftovers.{attach-init_ipc-leftovers}
use rest_technosphere_cpp_se.Ipc.Posix
use rest_technosphere_cpp_se.Ipc.Posix.{Outcomes, lock_name, ipc_create, ipc_delete}
use rest_technosphere_cpp_se.Ipc.Names.{ipc_create-locks}

-- an object that is there or not
abbrev object : {V : Type 0} → Shared (Option V) V
object = record {
  content = λ s. s;
  open_or_create = λ v s. some (Option.get_or s v);
  change = λ f s. Option.map f s;
  remove = λ s. none;
  content-open_or_create = λ v s. refl;
  content-change = λ f s w e. rw e refl;
  content-remove = λ s. refl;
}

abbrev left_over : CommandMessage
left_over = record {
  mtype = 1;
  operation = cmd_get;
  target_connection_id = 0;
  status = pos 0;
  data_block = zeroed;
}

abbrev earlier : SysV.Resources (Option (List CommandMessage)) (Option Mem) (Option (ℕ → ℕ))
earlier = record {
  queue = some (left_over ∷ []);
  segment = some (λ a. 7);
  semaphores = none;
  workers = [];
}

last_lock : lock_name 7 ≡ codes "/ht_lock_007"
unfolding lock_name
last_lock = refl

attach-init_ipc-leftovers_example :
    (attach object object object (init_ipc object object object (λ i. true) (λ b. 0) earlier)
      ≡ (some (left_over ∷ []), some (clear 1024 (λ a. 7)), some init_sem))
    × (contents default_table (clear 1024 (λ a. 7)) (codes "name") ≡ none)
    × (init_sem 3 ≡ (start sysv (λ i. [])).value 3)
    × (attach object object object (release_ipc object object object earlier) ≡ (none, none, none))
    × (attach object object object (
          init_ipc object object object
            (λ i. true)
            (λ b. 0)
            (release_ipc object object object earlier))
        ≡ (some [], some (clear 1024 (λ a. 0)), some init_sem))
attach-init_ipc-leftovers_example =
    attach-init_ipc-leftovers object object object (λ i. true) (λ b. 0) earlier (codes "name")
      (λ i. []) 3 (omega arith)

-- every semaphore was left at zero
abbrev stopped : Posix.Resources (Option Mem) (Option ℕ)
stopped = record { segment = some (λ a. 7); named = λ name. some 0 }

abbrev all_well : Outcomes
all_well = record { opened = true; truncated = true; mapped = true; lock_opened = λ i. true }

ipc_create-locks_example :
    ((ipc_create object object all_well stopped).0 ≡ true)
    × (((ipc_create object object all_well stopped).1.named (lock_name 3)) ≡ some 0)
    × ((ipc_create object object all_well stopped).1.segment ≡ some (Server.ipc_create (λ a. 7)))
    × (PosixTable.contents (Server.ipc_create (λ a. 7)) (codes "name") ≡ none)
    × ((ipc_create object object all_well (ipc_delete object object stopped)).1.named (lock_name 3)
        ≡ some 1)
    × (length (lock_name 3) < 16)
ipc_create-locks_example =
    ipc_create-locks object object all_well stopped (codes "name") (λ i. []) 3 (omega arith)
