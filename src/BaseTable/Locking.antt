-- ===== src/BaseTable/Locking.antt =====
-- Every method keeps the lock discipline: searches and `get` under shared locks, each write under an
-- exclusive one, and no lock held at the end.
use rest_technosphere_cpp_se.Base.{
  ℕ, ◌≡◌, inl, inr, true, false, List, [], ◌∷◌, ◌++◌, Bytes, arith, Option-cases,
}
use rest_technosphere_cpp_se.Memory.{Mem}
use rest_technosphere_cpp_se.Locks.{Event, reads, writes, idle, follow, follow-append}
use rest_technosphere_cpp_se.Probe.Discipline.{find-discipline}
use rest_technosphere_cpp_se.Records.{filled_with, is_free}
use rest_technosphere_cpp_se.BaseTable.{
  HashTableBase, table_size, hash, find_filled, find_free, find_cell, visit, get, set, del,
}

-- the trace keeps the discipline, from no lock to no lock
abbrev pub IsDisciplined : HashTableBase → List Event → Type 0
IsDisciplined g es = follow g.block_size idle es ≡ idle

module _ (g : HashTableBase) where
  pub IsDisciplined-append :
      (es fs : List Event) → IsDisciplined g es → IsDisciplined g fs → IsDisciplined g (es ++ fs)
  IsDisciplined-append es fs h k = rw (follow-append, h) k

  pub find_filled-IsDisciplined : (m : Mem) (key : Bytes) → IsDisciplined g (find_filled g m key).1
  unfolding find_filled
  find_filled-IsDisciplined m key =
      find-discipline false g.block_size (filled_with m key) (table_size g) (hash g key)

  pub find_free-IsDisciplined : (m : Mem) (key : Bytes) → IsDisciplined g (find_free g m key).1
  unfolding find_free
  find_free-IsDisciplined m key =
      find-discipline false g.block_size (is_free m) (table_size g) (hash g key)

  find_cell-IsDisciplined : (m : Mem) (key : Bytes) → IsDisciplined g (find_cell g m key).1
  unfolding find_cell
  find_cell-IsDisciplined m key = elim (Option-cases (find_filled g m key).0) [
    | inl o ↦
        rw (find_cell, o)
          (IsDisciplined-append (find_filled g m key).1 (find_free g m key).1
            (find_filled-IsDisciplined m key) (find_free-IsDisciplined m key))
    | inr (i, o) ↦ rw (find_cell, o) (find_filled-IsDisciplined m key)
  ]

  pub visit-reads : (i : ℕ) → IsDisciplined g (visit g false i (reads i ∷ []))
  unfolding follow
  visit-reads i = ground arith

  pub visit-writes : (i : ℕ) → IsDisciplined g (visit g true i (writes i ∷ []))
  unfolding follow
  visit-writes i = ground arith

  pub get-IsDisciplined : (m : Mem) (key : Bytes) → IsDisciplined g (get g m key).1
  unfolding get
  get-IsDisciplined m key = elim (Option-cases (find_filled g m key).0) [
    | inl o ↦ rw (get, o) (find_filled-IsDisciplined m key)
    | inr (i, o) ↦
        rw (get, o)
          (IsDisciplined-append (find_filled g m key).1 (visit g false i (reads i ∷ []))
            (find_filled-IsDisciplined m key) (visit-reads i))
  ]

  set-IsDisciplined : (m : Mem) (key value : Bytes) → IsDisciplined g (set g m key value).events
  unfolding set
  set-IsDisciplined m key value = elim (Option-cases (find_cell g m key).0) [
    | inl o ↦ rw (set, o) (find_cell-IsDisciplined m key)
    | inr (i, o) ↦
        rw (set, o)
          (IsDisciplined-append (find_cell g m key).1 (visit g true i (writes i ∷ []))
            (find_cell-IsDisciplined m key) (visit-writes i))
  ]

  pub del-IsDisciplined : (m : Mem) (key : Bytes) → IsDisciplined g (del g m key).events
  unfolding del
  del-IsDisciplined m key = elim (Option-cases (find_filled g m key).0) [
    | inl o ↦ rw (del, o) (find_filled-IsDisciplined m key)
    | inr (i, o) ↦
        rw (del, o)
          (IsDisciplined-append (find_filled g m key).1 (visit g true i (writes i ∷ []))
            (find_filled-IsDisciplined m key) (visit-writes i))
  ]

  -- Each method, run by one process, takes a lock only while it holds none, gives back the one that it
  -- holds and at the end all, reads a record under the lock of its block and writes to one only under the
  -- exclusive lock of its block.
  table-IsDisciplined :
      (m : Mem) (key value : Bytes)
      → IsDisciplined g (get g m key).1
        × IsDisciplined g (set g m key value).events
        × IsDisciplined g (del g m key).events
  table-IsDisciplined m key value =
      (get-IsDisciplined m key, set-IsDisciplined m key value, del-IsDisciplined m key)
