-- ===== src/Examples/Requests.antt =====
-- Server 2.0: runs of the commands and the worker, and the results at concrete inputs.
use rest_technosphere_cpp_se.Base.{
  ℕ, ◌≡◌, ◌≢◌, refl, ◌||◌, false, Option, none, some, List, [], ◌∷◌, Bytes, codes, text_eq, isspace,
  atoi, if◌then◌else◌, ◌==◌, All,
}
use rest_technosphere_cpp_se.Memory.{write, strcpy, strcmp, c_string, store_int, load_int}
use rest_technosphere_cpp_se.Locks.{follow}
use rest_technosphere_cpp_se.Probe.{switch_block, scan, wrap_around, find}
use rest_technosphere_cpp_se.Probe.Search.{first_from}
use rest_technosphere_cpp_se.Records.{filled_with, is_free, lookup}
use rest_technosphere_cpp_se.Records.Bury.{lookup_alive}
use rest_technosphere_cpp_se.Murmur
use rest_technosphere_cpp_se.PosixTable.{get, set, del, get_ttl, expired, collect_garbage}
use rest_technosphere_cpp_se.PosixTable.Collection.{count_from}
use rest_technosphere_cpp_se.PosixTable.Slots.{zeroed}
use rest_technosphere_cpp_se.Command.{
  parse, interpret, read_from_buffer, get_key_param, get_value_param, cmd_set, minimum_ttl,
  int_bits,
}
use rest_technosphere_cpp_se.Command.Params.{IsServable}
use rest_technosphere_cpp_se.Command.Tokens.{
  IsToken, read_from_buffer-IsServable, quoted_line, parse-quoted_line,
}
use rest_technosphere_cpp_se.Worker.{answer, conn_readcb, conn_eventcb, fd_channel_callback}
use rest_technosphere_cpp_se.Worker.Connections.{output_of}
use rest_technosphere_cpp_se.Examples.Server.{bob}

-- what a run computes with
program : Unit {0}
unfolding isspace atoi text_eq write strcpy strcmp c_string store_int load_int follow switch_block
    scan wrap_around find first_from filled_with is_free lookup lookup_alive Murmur.hash get set del
    get_ttl expired collect_garbage parse interpret read_from_buffer get_key_param get_value_param
    answer conn_readcb conn_eventcb fd_channel_callback count_from quoted_line output_of minimum_ttl
    int_bits
program = tt

-- a client's line, after two reads that found none
abbrev pub sent : Bytes → ℕ → Option Bytes
sent line n = if n == 2 then some line else none

abbrev pub set_line : ℕ → Option Bytes
set_line = sent (codes "set 60 name Bob")

abbrev pub get_line : ℕ → Option Bytes
get_line = sent (codes "get 'name'")

abbrev del_line : ℕ → Option Bytes
del_line = sent (codes "del name")

pub same_key : get_key_param (read_from_buffer get_line) ≡ get_key_param (read_from_buffer set_line)
unfolding program
same_key = refl

pub set_line-accepted :
    (answer cmd_set (read_from_buffer set_line) 1000 zeroed).0 ≡ codes "200 SET OK"
unfolding program
set_line-accepted = refl

read_from_buffer-IsServable_example : IsServable (read_from_buffer set_line)
read_from_buffer-IsServable_example = read_from_buffer-IsServable set_line

abbrev words : List Bytes
words = codes "set" ∷ codes "60" ∷ codes "a key" ∷ bob ∷ []

parse-quoted_line_example : parse (quoted_line words) ≡ words
parse-quoted_line_example = parse-quoted_line words (
  word (codes "set") (λ e. cc) (refl, (refl, (refl, tt))),
  (
    word (codes "60") (λ e. cc) (refl, (refl, tt)),
    (
      word (codes "a key") (λ e. cc) (refl, (refl, (refl, (refl, (refl, tt))))),
      (word bob (λ e. cc) (refl, (refl, (refl, tt))), tt),
    ),
  ),
)
  where
    word : (t : Bytes) → t ≢ [] → All (λ c. (c == 39 || c == 34) ≡ false) t → IsToken t
    word t h k = record { filled = h; clean = k }
