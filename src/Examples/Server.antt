-- ===== src/Examples/Server.antt =====
-- Server 2.0: runs of the table and its collection, and the results at concrete inputs.
use rest_technosphere_cpp_se.Base.{
  ℕ, ◌<◌, ◌≡◌, ◌≢◌, refl, true, false, none, some, [], ◌∷◌, Bytes, codes, text_eq, isspace, atoi,
  if◌then◌else◌, arith,
}
use rest_technosphere_cpp_se.Memory.{Mem, write, strcpy, strcmp, c_string, store_int, load_int}
use rest_technosphere_cpp_se.Locks.{follow}
use rest_technosphere_cpp_se.Probe.{switch_block, scan, wrap_around, find}
use rest_technosphere_cpp_se.Probe.Search.{first_from}
use rest_technosphere_cpp_se.Records.{IsKey, Fits, filled_with, is_free, lookup}
use rest_technosphere_cpp_se.Records.Bury.{IsBuried, lookup_alive}
use rest_technosphere_cpp_se.Murmur
use rest_technosphere_cpp_se.PosixTable.{
  done, failed, value_size, value_offset, table_size, hash, get, set, del, get_ttl, expired,
  find_cell, collect_garbage, contents,
}
use rest_technosphere_cpp_se.PosixTable.Meaning.{IsValid, set-contents}
use rest_technosphere_cpp_se.PosixTable.Deletion.{del-contents}
use rest_technosphere_cpp_se.PosixTable.Locking.{IsDisciplined, methods-IsDisciplined}
use rest_technosphere_cpp_se.PosixTable.Collection.{
  count_from, collected, collect_garbage-Collects, collect_garbage-contents,
}
use rest_technosphere_cpp_se.PosixTable.Race
use rest_technosphere_cpp_se.PosixTable.Race.{Pair, both_search}
use rest_technosphere_cpp_se.PosixTable.Revival.{revival}
use rest_technosphere_cpp_se.PosixTable.Slots.{
  Step, Run, zeroed, zeroed-IsValid, Run-IsValid, full-refuses,
}
use rest_technosphere_cpp_se.Command.{
  parse, interpret, read_from_buffer, get_key_param, get_value_param, minimum_ttl, int_bits,
}
use rest_technosphere_cpp_se.Command.Tokens.{quoted_line}
use rest_technosphere_cpp_se.Worker.{answer, conn_readcb, conn_eventcb, fd_channel_callback}
use rest_technosphere_cpp_se.Worker.Connections.{output_of}

-- what a run computes with
program : Unit {0}
unfolding isspace atoi text_eq write strcpy strcmp c_string store_int load_int follow switch_block
    scan wrap_around find first_from filled_with is_free lookup lookup_alive Murmur.hash get set del
    get_ttl expired collect_garbage parse interpret read_from_buffer get_key_param get_value_param
    answer conn_readcb conn_eventcb fd_channel_callback count_from quoted_line output_of minimum_ttl
    int_bits
program = tt

abbrev name : Bytes
name = codes "name"

abbrev pub bob : Bytes
bob = codes "Bob"

name-IsKey : IsKey name
name-IsKey = omega arith

bob-Fits : Fits value_size bob
bob-Fits = omega arith

abbrev pub stored : Mem
stored = (set zeroed name bob 60 1000).memory

set_accepted : (set zeroed name bob 60 1000).status ≡ done
unfolding program
set_accepted = refl

get-stored : (get stored name).0 ≡ some bob
unfolding program
get-stored = refl

pub stored-IsValid : IsValid stored
stored-IsValid =
    Run-IsValid (Run.next Run.start (Step.setting name bob 60 1000 name-IsKey bob-Fits refl))
      zeroed-IsValid

-- the record has expired a minute after its time, and not before
expires :
    ((collect_garbage (λ i. 1061) stored).count ≡ 1)
    × ((collect_garbage (λ i. 1060) stored).count ≡ 0)
unfolding program
expires = (refl, refl)

tokens_of_line :
    parse (codes "set 60  'a key' Bob") ≡ codes "set" ∷ codes "60" ∷ codes "a key" ∷ bob ∷ []
unfolding program
tokens_of_line = refl

set-contents_example :
    contents stored (codes "age")
    ≡ (if text_eq (codes "age") name then some bob else contents zeroed (codes "age"))
set-contents_example =
    set-contents zeroed name bob 60 1000 zeroed-IsValid name-IsKey bob-Fits set_accepted
      (codes "age") (omega arith)

-- every record deleted
abbrev used_up : Mem
used_up a = 2

used_up-refuses : (set used_up name bob 60 1000).status ≡ failed
unfolding program
used_up-refuses = refl

used_up-full : (i : ℕ) → i < table_size → is_free used_up i ≡ false
unfolding is_free
used_up-full i l = refl

cleared-misses : contents (del used_up name).memory name ≡ none
unfolding program
cleared-misses = refl

full-refuses_example : (set (del used_up name).memory name bob 60 1000).status ≡ failed
full-refuses_example =
    full-refuses name bob 60 1000 (Run.next Run.start (Step.deleting name refl)) used_up-full
      cleared-misses

Run-IsValid_example : IsValid (del stored name).memory
Run-IsValid_example =
    Run-IsValid
      (Run.next (Run.next Run.start (Step.setting name bob 60 1000 name-IsKey bob-Fits refl))
        (Step.deleting name refl))
      zeroed-IsValid

del-contents_example :
    contents (del stored name).memory name
    ≡ (if text_eq name name then none else contents stored name)
del-contents_example = del-contents stored name stored-IsValid name-IsKey name name-IsKey

methods-IsDisciplined_example :
    IsDisciplined (get stored name).1
    × IsDisciplined (set stored name bob 60 1000).events
    × IsDisciplined (del stored name).events
    × IsDisciplined (get_ttl stored 700).1
    × IsDisciplined (collect_garbage (λ i. 2000) stored).events
methods-IsDisciplined_example = methods-IsDisciplined stored name bob 60 1000 700 (λ i. 2000)

collect_garbage-Collects_example :
    IsBuried table_size
      (λ i. expired stored i 2000)
      stored
      (collect_garbage (λ i. 2000) stored).memory
    × ((collect_garbage (λ i. 2000) stored).count
        ≡ count_from (collected (λ i. 2000) stored) table_size 0)
collect_garbage-Collects_example = collect_garbage-Collects (λ i. 2000) stored

collect_garbage-contents_example :
    contents (collect_garbage (λ i. 2000) stored).memory name
    ≡ lookup_alive table_size value_offset hash (λ i. expired stored i 2000) stored name
collect_garbage-contents_example =
    collect_garbage-contents (λ i. 2000) stored stored-IsValid name name-IsKey

-- two keys whose home is record 514
abbrev road : Pair
road = record { key = codes "road"; value = bob; ttl = 60; now = 1000 }

abbrev other_road : Pair
other_road = record { key = codes "bl"; value = name; ttl = 60; now = 1000 }

road_cell : (find_cell zeroed road.key).0 ≡ some 514
unfolding program find_cell
road_cell = refl

other_road_cell : (find_cell zeroed other_road.key).0 ≡ some 514
unfolding program find_cell
other_road_cell = refl

name-Fits : Fits value_size name
name-Fits = omega arith

roads_differ : text_eq road.key other_road.key ≡ false
unfolding text_eq
roads_differ = refl

abbrev second_road : Pair
second_road = record { key = codes "road"; value = name; ttl = 60; now = 1001 }

next_cell : (find_cell (set zeroed other_road.key name 60 1000).memory second_road.key).0 ≡ some 515
unfolding program find_cell
next_cell = refl

revival_example :
    let stored = (set zeroed other_road.key name 60 1000).memory in
    let again = (set stored second_road.key name 60 1001).memory in
    let late = (Race.advance again (Race.writing 514 road)).0 in
    (◌≢◌ {A = ℕ} 514 515)
    × (filled_with late road.key 514 ≡ true)
    × (filled_with late road.key 515 ≡ true)
    × ((del late road.key).status ≡ done)
    × (contents (del late road.key).memory road.key ≢ none)
revival_example =
    revival zeroed 514 515 road other_road second_road (omega arith) (omega arith) roads_differ refl
      bob-Fits name-Fits name-Fits road_cell other_road_cell next_cell
