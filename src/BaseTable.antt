-- ===== src/BaseTable.antt =====
-- The hash table of server 1.0, p5/master/src/HashTableBase.{h,cpp} (p5/worker/src has the same files),
-- with the locks of p5/worker/src/SysVHashTable.cpp: one function per method, over the memory, returning
-- the new memory and the lock traffic. A search and `get` lock a block shared, `set` and `del`
-- exclusively. `schedule_deletion` does nothing in either class, so `set` has no use for a lifetime.
pub mod Layout
pub mod Meaning
pub mod Deletion
pub mod Locking
use rest_technosphere_cpp_se.Base.{
  ℕ, ◌+◌, ◌-◌, ◌*◌, ◌/◌, ◌%◌, ◌^◌, ◌<◌, Bool, true, false, Option, none, some, List, [], ◌∷◌, ◌++◌,
  Bytes,
}
use rest_technosphere_cpp_se.Memory.{Mem, write, strcpy, c_string}
use rest_technosphere_cpp_se.Locks.{Event, acquire, release, reads, writes}
use rest_technosphere_cpp_se.Probe.{find}
use rest_technosphere_cpp_se.Records.{
  key_size, record_size, filled, rip, key_at, status_at, filled_with, is_free, room, lookup,
}
use rest_technosphere_cpp_se.Murmur
use rest_technosphere_cpp_se.Murmur.{hash-lt}

abbrev pub value_size : ℕ
value_size = 960

-- KEY_SIZE + 1
abbrev pub value_offset : ℕ
value_offset = key_size + 1

-- The members of the class that are not the memory.
pub record HashTableBase : Type 0 where
  pub n_blocks : ℕ
  pub block_size : ℕ

-- the product is an `int`
abbrev pub table_size : HashTableBase → ℕ
table_size g = g.n_blocks * g.block_size % 2 ^ 32

-- A table that has records, all of whose bytes an `int` counts: then no product in the code overflows.
pub record IsGeometry (g : HashTableBase) : Type 0 where
  pub positive : 0 < table_size g
  pub fits : record_size * (g.n_blocks * g.block_size) < 2 ^ 31

-- The constructor with one argument.
abbrev pub default_table : HashTableBase
default_table = record { n_blocks = 8; block_size = 128 }

pub data Status : Type 0 where
  done failed : Status

pub record Update : Type 0 where
  pub status : Status
  pub memory : Mem
  pub events : List Event

-- the three writes of `set`, in their order
unfoldable pub put_record : Mem → ℕ → Bytes → Bytes → Mem
put_record m i key value =
    let with_key = strcpy m (key_at i) key in
    let with_value = strcpy with_key (key_at i + value_offset) value in
    write with_value (status_at i) filled

module _ (g : HashTableBase) where
  pub hash : Bytes → ℕ
  hash key = Murmur.hash key (table_size g)

  pub home_inside : 0 < table_size g → (key : Bytes) → hash key < table_size g
  unfolding hash
  home_inside pos key = hash-lt key (table_size g) pos

  unfoldable pub find_filled : Mem → Bytes → Option ℕ × List Event
  unfolding hash
  find_filled m key = find false g.block_size (filled_with m key) (table_size g) (hash key)

  unfoldable pub find_free : Mem → Bytes → Option ℕ × List Event
  unfolding hash
  find_free m key = find false g.block_size (is_free m) (table_size g) (hash key)

  -- the lock, the accesses and the unlock with which a method treats the record that it found
  abbrev pub visit : Bool → ℕ → List Event → List Event
  visit exclusive i es =
      acquire (i / g.block_size) exclusive ∷ (es ++ (release (i / g.block_size) exclusive ∷ []))

  unfoldable pub get : Mem → Bytes → Option Bytes × List Event
  unfolding find_filled
  get m key =
      let found = find_filled m key in
      elim found.0 [
        | none ↦ (none, found.1)
        | some i ↦ (
          some (
              c_string (room (table_size g) (key_at i + value_offset)) m (key_at i + value_offset)),
          found.1 ++ visit false i (reads i ∷ []),
        )
      ]

  -- the cell that `set` writes to: the key's own, or else a free one
  unfoldable pub find_cell : Mem → Bytes → Option ℕ × List Event
  unfolding find_filled find_free
  find_cell m key =
      let own = find_filled m key in
      elim own.0 [ some i ↦ own | none ↦ ((find_free m key).0, own.1 ++ (find_free m key).1) ]

  unfoldable pub set : Mem → Bytes → Bytes → Update
  unfolding find_cell put_record
  set m key value =
      let cell = find_cell m key in
      elim cell.0 [
        | none ↦ record { status = failed; memory = m; events = cell.1 }
        | some i ↦ record {
          status = done;
          memory = put_record m i key value;
          events = cell.1 ++ visit true i (writes i ∷ []);
        }
      ]

  unfoldable pub del : Mem → Bytes → Update
  unfolding find_filled
  del m key =
      let found = find_filled m key in
      elim found.0 [
        | none ↦ record { status = failed; memory = m; events = found.1 }
        | some i ↦ record {
          status = done;
          memory = write m (status_at i) rip;
          events = found.1 ++ visit true i (writes i ∷ []);
        }
      ]

  -- what the table means
  abbrev pub contents : Mem → Bytes → Option Bytes
  contents = lookup (table_size g) value_offset hash
