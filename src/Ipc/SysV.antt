-- ===== src/Ipc/SysV.antt =====
-- `init_ipc` and `release_ipc` of p5/master/src/MasterProcess.cpp, and `init` of p5/worker/src/WorkerProcess.cpp.
-- The calls of the system are taken as successful; the code looks at none of their results.
use rest_technosphere_cpp_se.Base.{ℕ, zero, suc, Bool, Option, List, [], ◌∷◌, ◌++◌, if◌then◌else◌}
use rest_technosphere_cpp_se.Memory.{Mem}
use rest_technosphere_cpp_se.Records.Clear.{clear}
use rest_technosphere_cpp_se.BaseTable.{default_table, table_size}
use rest_technosphere_cpp_se.Semaphores.Family.{update}
use rest_technosphere_cpp_se.Cluster.{CommandMessage, worker_processes_count, worker_id}
use rest_technosphere_cpp_se.Ipc.{Shared}

-- The objects under the key of `ftok`, and the ids of the workers that run.
pub record Resources (Queue Segment Semaphores : Type 0) : Type 0 where
  pub queue : Queue
  pub segment : Segment
  pub semaphores : Semaphores
  pub workers : List ℕ

-- the loop over `init_sem`, which `calloc` has zeroed
unfoldable pub init_blocks : ℕ → ℕ → ℕ
init_blocks zero = λ i. 0
init_blocks (suc n) = update (init_blocks n) n worker_processes_count

-- and the semaphore behind those of the blocks
unfoldable pub init_sem : ℕ → ℕ
unfolding init_blocks
init_sem = update (init_blocks default_table.n_blocks) default_table.n_blocks 1

-- the loop of `fork` and `execlp`, which both have worked where `runs`
unfoldable pub spawn : (ℕ → Bool) → ℕ → ℕ → List ℕ
unfolding worker_id
spawn runs zero i = []
spawn runs (suc rounds) i =
    let rest = spawn runs rounds (suc i) in if runs i then worker_id i ∷ rest else rest

module _ {Queue Segment Semaphores : Type 0} (q : Shared Queue (List CommandMessage))
    (m : Shared Segment Mem) (x : Shared Semaphores (ℕ → ℕ)) where
  -- A new queue is empty and a new segment zeroed; `unset` is what new semaphores hold.
  unfoldable pub init_ipc :
      (ℕ → Bool) → (ℕ → ℕ) → Resources Queue Segment Semaphores → Resources Queue Segment Semaphores
  unfolding init_sem spawn
  init_ipc runs unset r = record {
    queue = q.open_or_create [] r.queue;
    segment = m.change (clear (table_size default_table)) (m.open_or_create (λ a. 0) r.segment);
    semaphores = x.change (λ old. init_sem) (x.open_or_create unset r.semaphores);
    workers = r.workers ++ spawn runs worker_processes_count 0;
  }

  unfoldable pub release_ipc :
      Resources Queue Segment Semaphores → Resources Queue Segment Semaphores
  release_ipc r = record r {
    queue = q.remove r.queue;
    segment = m.remove r.segment;
    semaphores = x.remove r.semaphores;
  }

  -- What a worker finds in `init`, which makes no object that does not exist.
  unfoldable pub attach :
      Resources Queue Segment Semaphores
      → Option (List CommandMessage) × Option Mem × Option (ℕ → ℕ)
  attach r = (q.content r.queue, m.content r.segment, x.content r.semaphores)
