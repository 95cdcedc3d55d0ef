-- ===== src/Ipc/Leftovers.antt =====
-- What a start of server 1.0 finds and makes of the objects of an earlier one.
use rest_technosphere_cpp_se.Base.{
  ℕ, zero, suc, ◌<◌, ◌≡◌, refl, ◌∙◌, Bool, false, none, some, List, [], Bytes, ◌==◌, arith,
}
use mathlib.Core.Option
use rest_technosphere_cpp_se.Memory.{Mem}
use rest_technosphere_cpp_se.Locks.{Event}
use rest_technosphere_cpp_se.Records.Clear.{clear, clear-lookup}
use rest_technosphere_cpp_se.BaseTable.{
  default_table, table_size, value_offset, hash, home_inside, contents,
}
use rest_technosphere_cpp_se.Semaphores.{sysv, start}
use rest_technosphere_cpp_se.Semaphores.Workers.{sysv_units}
use rest_technosphere_cpp_se.Cluster.{CommandMessage}
use rest_technosphere_cpp_se.Ipc.{Shared}
use rest_technosphere_cpp_se.Ipc.SysV.{
  Resources, init_blocks, init_sem, init_ipc, release_ipc, attach,
}

init_blocks-lt : (n b : ℕ) → b < n → init_blocks n b ≡ 4
unfolding init_blocks
init_blocks-lt zero b l = absurd (omega arith)
init_blocks-lt (suc n) b l = ground (arith, init_blocks-lt n b)

-- the semaphores of the blocks have the values that module Semaphores starts with
init_sem-start :
    (program : ℕ → List Event) (b : ℕ)
    → b < default_table.n_blocks
    → init_sem b ≡ (start sysv program).value b
unfolding init_sem
init_sem-start program b l =
    let apart : (8 == b) ≡ false = ground arith in rw (apart, sysv_units) (init_blocks-lt 8 b l)

module _ {Queue Segment Semaphores : Type 0} (q : Shared Queue (List CommandMessage))
    (m : Shared Segment Mem) (x : Shared Semaphores (ℕ → ℕ)) where
  attach-init_ipc :
      (runs : ℕ → Bool) (unset : ℕ → ℕ) (r : Resources Queue Segment Semaphores)
      → attach q m x (init_ipc q m x runs unset r) ≡ (
        some (Option.get_or (q.content r.queue) []),
        some (clear (table_size default_table) (Option.get_or (m.content r.segment) (λ a. 0))),
        some init_sem,
      )
  unfolding attach init_ipc
  attach-init_ipc runs unset r = rw (
    q.content-open_or_create [] r.queue,
    m.content-change _ _ _ (m.content-open_or_create (λ a. 0) r.segment),
    x.content-change _ _ _ (x.content-open_or_create unset r.semaphores),
  )

  attach-release_ipc :
      (r : Resources Queue Segment Semaphores)
      → attach q m x (release_ipc q m x r) ≡ (none, none, none)
  unfolding attach release_ipc
  attach-release_ipc r =
      rw (q.content-remove r.queue, m.content-remove r.segment, x.content-remove r.semaphores)

  -- after a release, the next start has an empty queue and a cleared segment
  attach-init_ipc-release_ipc :
      (runs : ℕ → Bool) (unset : ℕ → ℕ) (r : Resources Queue Segment Semaphores)
      → attach q m x (init_ipc q m x runs unset (release_ipc q m x r))
        ≡ (some [], some (clear (table_size default_table) (λ a. 0)), some init_sem)
  unfolding release_ipc
  attach-init_ipc-release_ipc runs unset r =
      attach-init_ipc runs unset (release_ipc q m x r)
      ∙ rw (q.content-remove r.queue, m.content-remove r.segment) refl

-- Whatever an earlier run of server 1.0 has left: after `init_ipc` a worker finds a table without any key and
-- the semaphores of the blocks at the values that module Semaphores starts with, but the messages of a queue
-- that was there are still in it. After `release_ipc` a worker finds no object, and after another `init_ipc`
-- an empty queue.
pub attach-init_ipc-leftovers :
    {Queue Segment Semaphores : Type 0} (q : Shared Queue (List CommandMessage))
    (m : Shared Segment Mem) (x : Shared Semaphores (ℕ → ℕ)) (runs : ℕ → Bool) (unset : ℕ → ℕ)
    (r : Resources Queue Segment Semaphores) (key : Bytes) (program : ℕ → List Event) (b : ℕ)
    → b < default_table.n_blocks
    → let table = clear (table_size default_table) (Option.get_or (m.content r.segment) (λ a. 0)) in
      let new = clear (table_size default_table) (λ a. 0) in
      (attach q m x (init_ipc q m x runs unset r)
        ≡ (some (Option.get_or (q.content r.queue) []), some table, some init_sem))
      × (contents default_table table key ≡ none)
      × (init_sem b ≡ (start sysv program).value b)
      × (attach q m x (release_ipc q m x r) ≡ (none, none, none))
      × (attach q m x (init_ipc q m x runs unset (release_ipc q m x r))
          ≡ (some [], some new, some init_sem))
attach-init_ipc-leftovers q m x runs unset r key program b l = (
  attach-init_ipc q m x runs unset r,
  clear-lookup (table_size default_table) value_offset (hash default_table) _ key
      (home_inside default_table (omega arith) key),
  init_sem-start program b l,
  attach-release_ipc q m x r,
  attach-init_ipc-release_ipc q m x runs unset r,
)
