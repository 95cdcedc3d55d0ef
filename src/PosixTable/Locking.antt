-- ===== src/PosixTable/Locking.antt =====
-- Every method keeps the lock discipline and returns with no semaphore held.
use rest_technosphere_cpp_se.Base.{
  ℕ, zero, suc, ◌/◌, ◌≡◌, refl, inl, inr, Bool, true, List, [], ◌∷◌, ◌++◌, Bytes, arith,
  Option-cases, if◌then◌else◌,
}
use rest_technosphere_cpp_se.Memory.{Mem}
use rest_technosphere_cpp_se.Locks.{
  Event, acquire, reads, writes, idle, holding, follow, follow-append,
}
use rest_technosphere_cpp_se.Probe.Discipline.{find-discipline, follow-read, follow-release}
use rest_technosphere_cpp_se.Records.{filled_with, is_free}
use rest_technosphere_cpp_se.PosixTable.{
  segment_size, table_size, hash, find_filled, find_free, find_cell, visit, get, set, del, get_ttl,
  collect_record, collect_loop, collect_garbage,
}

-- the trace keeps the discipline, from no lock to no lock
abbrev pub IsDisciplined : List Event → Type 0
IsDisciplined es = follow segment_size idle es ≡ idle

pub IsDisciplined-append :
    (es fs : List Event) → IsDisciplined es → IsDisciplined fs → IsDisciplined (es ++ fs)
IsDisciplined-append es fs h k = rw (follow-append, h) k

pub find_filled-IsDisciplined : (m : Mem) (key : Bytes) → IsDisciplined (find_filled m key).1
unfolding find_filled
find_filled-IsDisciplined m key =
    find-discipline true segment_size (filled_with m key) table_size (hash key)

pub find_free-IsDisciplined : (m : Mem) (key : Bytes) → IsDisciplined (find_free m key).1
unfolding find_free
find_free-IsDisciplined m key = find-discipline true segment_size (is_free m) table_size (hash key)

find_cell-IsDisciplined : (m : Mem) (key : Bytes) → IsDisciplined (find_cell m key).1
unfolding find_cell
find_cell-IsDisciplined m key = elim (Option-cases (find_filled m key).0) [
  | inl o ↦
      rw (find_cell, o)
        (IsDisciplined-append (find_filled m key).1 (find_free m key).1
          (find_filled-IsDisciplined m key) (find_free-IsDisciplined m key))
  | inr (i, o) ↦ rw (find_cell, o) (find_filled-IsDisciplined m key)
]

visit-reads : (i : ℕ) → IsDisciplined (visit i (reads i ∷ []))
unfolding follow
visit-reads i = ground arith

pub visit-writes : (i : ℕ) → IsDisciplined (visit i (writes i ∷ []))
unfolding follow
visit-writes i = ground arith

pub get-IsDisciplined : (m : Mem) (key : Bytes) → IsDisciplined (get m key).1
unfolding get
get-IsDisciplined m key = elim (Option-cases (find_filled m key).0) [
  | inl o ↦ rw (get, o) (find_filled-IsDisciplined m key)
  | inr (i, o) ↦
      rw (get, o)
        (IsDisciplined-append (find_filled m key).1 (visit i (reads i ∷ []))
          (find_filled-IsDisciplined m key) (visit-reads i))
]

set-IsDisciplined :
    (m : Mem) (key value : Bytes) (ttl now : ℕ) → IsDisciplined (set m key value ttl now).events
unfolding set
set-IsDisciplined m key value ttl now = elim (Option-cases (find_cell m key).0) [
  | inl o ↦ rw (set, o) (find_cell-IsDisciplined m key)
  | inr (i, o) ↦
      rw (set, o)
        (IsDisciplined-append (find_cell m key).1 (visit i (writes i ∷ []))
          (find_cell-IsDisciplined m key) (visit-writes i))
]

pub del-IsDisciplined : (m : Mem) (key : Bytes) → IsDisciplined (del m key).events
unfolding del
del-IsDisciplined m key = elim (Option-cases (find_filled m key).0) [
  | inl o ↦ rw (del, o) (find_filled-IsDisciplined m key)
  | inr (i, o) ↦
      rw (del, o)
        (IsDisciplined-append (find_filled m key).1 (visit i (writes i ∷ []))
          (find_filled-IsDisciplined m key) (visit-writes i))
]

-- a write to the record whose block is held
follow-write :
    (cur : ℕ) (kill : Bool) (es : List Event)
    → follow segment_size
        (holding (cur / segment_size) true)
        ((if kill then writes cur ∷ [] else []) ++ es)
      ≡ follow segment_size (holding (cur / segment_size) true) es
unfolding follow
follow-write cur kill es = ground arith

collect_loop-follow :
    (clock : ℕ → ℕ) (rounds cur block : ℕ) (m : Mem)
    → follow segment_size (holding block true) (collect_loop clock rounds cur block m).events
      ≡ holding (collect_loop clock rounds cur block m).block true
unfolding collect_loop
collect_loop-follow clock zero cur block m = unfold follow in refl
collect_loop-follow clock (suc rounds) cur block m =
    rw (follow-read, follow-write)
      (collect_loop-follow clock rounds (suc cur) (cur / segment_size)
        (collect_record m cur (clock cur)))

first_lock :
    (es : List Event)
    → follow segment_size (holding 0 true) es ≡ idle
    → IsDisciplined (acquire 0 true ∷ es)
unfolding follow
first_lock es h = h

pub collect_garbage-IsDisciplined :
    (clock : ℕ → ℕ) (m : Mem) → IsDisciplined (collect_garbage clock m).events
unfolding collect_garbage
collect_garbage-IsDisciplined clock m =
    let run = collect_loop clock table_size 0 0 m in
    first_lock _ (
      rw (follow-append, collect_loop-follow clock table_size 0 0 m)
        (follow-release true segment_size run.block))

-- Each method, run by one process, takes a semaphore only while it holds none, gives back the one
-- that it holds and at the end all, and touches a record only under the semaphore of its block.
pub methods-IsDisciplined :
    (m : Mem) (key value : Bytes) (ttl now idx : ℕ) (clock : ℕ → ℕ)
    → IsDisciplined (get m key).1
      × IsDisciplined (set m key value ttl now).events
      × IsDisciplined (del m key).events
      × IsDisciplined (get_ttl m idx).1
      × IsDisciplined (collect_garbage clock m).events
unfolding get_ttl
methods-IsDisciplined m key value ttl now idx clock = (
  get-IsDisciplined m key,
  set-IsDisciplined m key value ttl now,
  del-IsDisciplined m key,
  visit-reads idx,
  collect_garbage-IsDisciplined clock m,
)
