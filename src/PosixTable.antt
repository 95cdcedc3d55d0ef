-- ===== src/PosixTable.antt =====
-- The hash table of server 2.0, p6/src/PosixHashTable.{h,cpp}: one function per method, over the
-- shared memory, returning the new memory and the lock traffic. `lock(i)` and `unlock(i)` wait for
-- and post the binary semaphore of block `i`, which is exclusive. The status code 0 is `done` (or a
-- value) and -1 is `failed` (or `none`). `time(NULL)` is the argument `now`, read anew in each round
-- of the collection; an `int` is the bit pattern of its 32 bits.
pub mod Locking
pub mod Layout
pub mod Meaning
pub mod Deletion
pub mod Collection
pub mod Slots
pub mod Race
pub mod Revival
use rest_technosphere_cpp_se.Base.{
  ℕ, zero, suc, ◌+◌, ◌-◌, ◌*◌, ◌/◌, ◌%◌, ◌^◌, ◌<◌, ◌≡◌, Bool, true, false, not, ◌&&◌, Option, none,
  some, List, [], ◌∷◌, ◌++◌, Bytes, ◌==◌, if◌then◌else◌, arith,
}
use rest_technosphere_cpp_se.Memory.{Mem, write, strcpy, c_string, store_int, load_int, int_lt}
use rest_technosphere_cpp_se.Locks.{Event, acquire, release, reads, writes}
use rest_technosphere_cpp_se.Probe.{switch_block, find}
use rest_technosphere_cpp_se.Records.{
  key_size, record_size, filled, rip, key_at, status_at, filled_with, is_free, room, lookup,
}
use rest_technosphere_cpp_se.Murmur
use rest_technosphere_cpp_se.Murmur.{hash-lt}

abbrev pub value_size : ℕ
value_size = 956

abbrev pub segments_count : ℕ
segments_count = 8

abbrev pub segment_size : ℕ
segment_size = 128

abbrev pub table_size : ℕ
table_size = segment_size * segments_count

-- KEY_SIZE + 1 and KEY_SIZE + 1 + sizeof(int)
abbrev pub death_offset : ℕ
death_offset = key_size + 1

abbrev pub value_offset : ℕ
value_offset = key_size + 1 + 4

pub hash : Bytes → ℕ
hash key = Murmur.hash key table_size

pub home_inside : (key : Bytes) → hash key < table_size
unfolding hash
home_inside key = hash-lt key table_size (omega arith)

unfoldable pub find_filled : Mem → Bytes → Option ℕ × List Event
unfolding hash
find_filled m key = find true segment_size (filled_with m key) table_size (hash key)

unfoldable pub find_free : Mem → Bytes → Option ℕ × List Event
unfolding hash
find_free m key = find true segment_size (is_free m) table_size (hash key)

-- the lock, the accesses and the unlock with which a method treats the record that it found
abbrev pub visit : ℕ → List Event → List Event
visit i es = acquire (i / segment_size) true ∷ (es ++ (release (i / segment_size) true ∷ []))

unfoldable pub get : Mem → Bytes → Option Bytes × List Event
unfolding find_filled
get m key =
    let found = find_filled m key in
    elim found.0 [
      | none ↦ (none, found.1)
      | some i ↦ (
        some (c_string (room table_size (key_at i + value_offset)) m (key_at i + value_offset)),
        found.1 ++ visit i (reads i ∷ []),
      )
    ]

pub data Status : Type 0 where
  done failed : Status

pub record Update : Type 0 where
  pub status : Status
  pub memory : Mem
  pub events : List Event

-- the four writes of `set`, in their order
unfoldable pub put_record : Mem → ℕ → Bytes → Bytes → ℕ → Mem
put_record m i key value death =
    let with_key = strcpy m (key_at i) key in
    let with_death = store_int with_key (key_at i + death_offset) death in
    let with_value = strcpy with_death (key_at i + value_offset) value in
    write with_value (status_at i) filled

-- `int death_time = ttl + time(NULL)` keeps the low 32 bits
unfoldable pub death_time : ℕ → ℕ → ℕ
death_time ttl now = (ttl + now) % 2 ^ 32

-- the cell that `set` writes to: the key's own, or else a free one
unfoldable pub find_cell : Mem → Bytes → Option ℕ × List Event
unfolding find_filled find_free
find_cell m key =
    let own = find_filled m key in
    elim own.0 [ some i ↦ own | none ↦ ((find_free m key).0, own.1 ++ (find_free m key).1) ]

unfoldable pub set : Mem → Bytes → Bytes → ℕ → ℕ → Update
unfolding find_cell put_record death_time
set m key value ttl now =
    let cell = find_cell m key in
    elim cell.0 [
      | none ↦ record { status = failed; memory = m; events = cell.1 }
      | some i ↦ record {
        status = done;
        memory = put_record m i key value (death_time ttl now);
        events = cell.1 ++ visit i (writes i ∷ []);
      }
    ]

unfoldable pub del : Mem → Bytes → Update
unfolding find_filled
del m key =
    let found = find_filled m key in
    elim found.0 [
      | none ↦ record { status = failed; memory = m; events = found.1 }
      | some i ↦ record {
        status = done;
        memory = write m (status_at i) rip;
        events = found.1 ++ visit i (writes i ∷ []);
      }
    ]

unfoldable pub get_ttl : Mem → ℕ → ℕ × List Event
get_ttl m idx = (load_int m (key_at idx + death_offset), visit idx (reads idx ∷ []))

-- `expiration_time && current_time > expiration_time`
unfoldable pub expired : Mem → ℕ → ℕ → Bool
expired m i now =
    let e = load_int m (key_at i + death_offset) in not (e == 0) && int_lt e (now % 2 ^ 32)

pub record Collected : Type 0 where
  pub count : ℕ
  pub block : ℕ
  pub memory : Mem
  pub events : List Event

-- the record is expired and not deleted yet
unfoldable pub to_collect : Mem → ℕ → ℕ → Bool
unfolding expired
to_collect m i now = expired m i now && not (m (status_at i) == rip)

-- one round: what is deleted, and what was done
unfoldable pub collect_record : Mem → ℕ → ℕ → Mem
unfolding to_collect
collect_record m i now = if to_collect m i now then write m (status_at i) rip else m

-- the loop of `collect_garbage`, with `rounds` rounds left; `clock i` is the time in round `i`
unfoldable pub collect_loop : (ℕ → ℕ) → ℕ → ℕ → ℕ → Mem → Collected
unfolding collect_record
collect_loop clock zero cur block m = record { count = 0; block = block; memory = m; events = [] }
collect_loop clock (suc rounds) cur block m =
    let new_block = cur / segment_size in
    let rest = collect_loop clock rounds (suc cur) new_block (collect_record m cur (clock cur)) in
    let kill = to_collect m cur (clock cur) in
    record {
      count = if kill then suc rest.count else rest.count;
      block = rest.block;
      memory = rest.memory;
      events =
          switch_block true segment_size block new_block
          ++ (reads cur ∷ ((if kill then writes cur ∷ [] else []) ++ rest.events));
    }

unfoldable pub collect_garbage : (ℕ → ℕ) → Mem → Collected
unfolding collect_loop
collect_garbage clock m =
    let run = collect_loop clock table_size 0 0 m in
    record run { events = acquire 0 true ∷ (run.events ++ (release run.block true ∷ [])) }

-- what the table means, with the names of this table put in
abbrev pub contents : Mem → Bytes → Option Bytes
contents = lookup table_size value_offset hash
