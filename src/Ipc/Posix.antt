-- ===== src/Ipc/Posix.antt =====
-- `ipc_create` and `ipc_delete` of p6/src/SynchronizedProcess.cpp. Which of the calls whose results the code looks
-- at succeed is an argument.
use rest_technosphere_cpp_se.Base.{
  ℕ, zero, suc, ◌+◌, ◌/◌, ◌%◌, Bool, true, false, not, [], ◌∷◌, ◌++◌, Bytes, codes, text_eq,
  if◌then◌else◌,
}
use rest_technosphere_cpp_se.Memory.{Mem}
use rest_technosphere_cpp_se.PosixTable.{segments_count}
use rest_technosphere_cpp_se.Server
use rest_technosphere_cpp_se.Ipc.{Shared}

-- `sprintf` of "/ht_lock_%03d" for a number below 1000
unfoldable pub lock_name : ℕ → Bytes
lock_name i = codes "/ht_lock_" ++ ((48 + i / 100 % 10) ∷ (48 + i / 10 % 10) ∷ (48 + i % 10) ∷ [])

-- the object "emrakul_ht_memory", and the semaphores by their names
pub record Resources (Segment Semaphore : Type 0) : Type 0 where
  pub segment : Segment
  pub named : Bytes → Semaphore

-- whether `shm_open`, `ftruncate` and `mmap` succeed, and each call of `sem_open`, whose result is not looked at
pub record Outcomes : Type 0 where
  pub opened : Bool
  pub truncated : Bool
  pub mapped : Bool
  pub lock_opened : ℕ → Bool

abbrev pub update_name {ℓ} : {A : Type ℓ} → (Bytes → A) → Bytes → A → Bytes → A
update_name f name a n = if text_eq name n then a else f n

module _ {Segment Semaphore : Type 0} (m : Shared Segment Mem) (x : Shared Semaphore ℕ) where
  -- the loop of `sem_open`, over the first `n` semaphores
  unfoldable pub open_locks : (ℕ → Bool) → ℕ → (Bytes → Semaphore) → Bytes → Semaphore
  unfolding lock_name
  open_locks lock_opened zero named = named
  open_locks lock_opened (suc n) named =
      let before = open_locks lock_opened n named in
      if lock_opened n
      then update_name before (lock_name n) (x.open_or_create 1 (before (lock_name n)))
      else before

  -- the loop of `sem_unlink`
  unfoldable pub unlink_locks : ℕ → (Bytes → Semaphore) → Bytes → Semaphore
  unfolding lock_name
  unlink_locks zero named = named
  unlink_locks (suc n) named =
      let before = unlink_locks n named in
      update_name before (lock_name n) (x.remove (before (lock_name n)))

  -- whether it returns, or else throws, and what it leaves
  unfoldable pub ipc_create :
      Outcomes → Resources Segment Semaphore → Bool × Resources Segment Semaphore
  ipc_create o r =
      let opened = m.open_or_create (λ a. 0) r.segment in
      if not o.opened
      then (false, r)
      else if not o.truncated
      then (false, record r { segment = opened })
      else if not o.mapped
      then (false, record r { segment = opened })
      else (
        true,
        record {
          segment = m.change Server.ipc_create opened;
          named = open_locks o.lock_opened segments_count r.named;
        },
      )

  unfoldable pub ipc_delete : Resources Segment Semaphore → Resources Segment Semaphore
  unfolding unlink_locks
  ipc_delete r = record {
    segment = m.remove r.segment;
    named = unlink_locks segments_count r.named;
  }
