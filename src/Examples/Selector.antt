-- ===== src/Examples/Selector.antt =====
-- A configuration of the proxy with two ports, and the portions of the processes of p10.
use rest_technosphere_cpp_se.Base.{
  ℕ, ◌≡◌, refl, List, [], ◌∷◌, some, none, codes, pos, isspace, atoi, ◌*◌, ◌+◌, ◌/◌, arith,
}
use mathlib.Core.List.{Perm}
use mathlib.Core.List.Perm
use rest_technosphere_cpp_se.Selector.{
  lines, cut, getline, erase_spaces, read_servers, read_record, read_line, read_lines, assign,
  to_ushort, read_routing_table, route_of, select,
}
use rest_technosphere_cpp_se.Selector.Table.{
  Entry, IsEntry, IsAscending, file_text, table_of, read_routing_table-file_text,
}
use rest_technosphere_cpp_se.Exponent.{Doubles, Order, process, combine, global_result}
use rest_technosphere_cpp_se.Exponent.Portions.{range}
use rest_technosphere_cpp_se.Exponent.Reduction.{
  ranks, eval, written, occurrences, global_result-written,
}

program : Unit {0}
unfolding lines cut getline erase_spaces read_servers read_record read_line read_lines assign
    to_ushort read_routing_table route_of select atoi isspace
program = tt

abbrev local_port : Entry
local_port = record {
  port = codes "9000";
  first = (codes "10.0.0.1", codes "80");
  others = (codes "10.0.0.2", codes "81") ∷ [];
}

abbrev other_port : Entry
other_port = record { port = codes "9001"; first = (codes "a.b", codes "443"); others = [] }

abbrev entries : List Entry
entries = local_port ∷ other_port ∷ []

-- blanks do not count, and a line without a port for the server repeats the line's own port
odd_lines :
    read_routing_table (some (codes " 9001, a.b : 7\n\n9000,c"))
    ≡ (9000, (codes "c", pos 9000) ∷ []) ∷ (9001, (codes "a.b", pos 7) ∷ []) ∷ []
unfolding program
odd_lines = refl

local_port-IsEntry : IsEntry local_port
unfolding isspace
local_port-IsEntry = record { solid = ground arith; port = omega arith; servers = omega arith }

other_port-IsEntry : IsEntry other_port
unfolding isspace
other_port-IsEntry = record { solid = ground arith; port = omega arith; servers = omega arith }

entries-IsAscending : IsAscending entries
unfolding program
entries-IsAscending = omega arith

read_routing_table-file_text_example :
    (read_routing_table (some (file_text entries)) ≡ table_of entries)
    × (read_routing_table none ≡ (9995, (codes "127.0.0.1", pos 9000) ∷ []) ∷ [])
read_routing_table-file_text_example =
    read_routing_table-file_text entries (local_port-IsEntry, (other_port-IsEntry, tt))
      entries-IsAscending

-- sums in units of a thousandth
abbrev thousandths : Doubles
thousandths = record {
  Double = ℕ;
  of_int = λ n. 1000 * n;
  add = λ a b. a + b;
  mul = λ a b. a * b / 1000;
  div = λ a b. 1000 * a / b;
}

-- the last process first, and then the sum of the two others
abbrev last_first : Order
last_first = combine (process 2) (combine (process 0) (process 1))

last_first-Perm : Perm (ranks last_first) (range 0 3)
unfolding ranks range
last_first-Perm = Perm.trans (Perm.swap 0 2 (1 ∷ [])) (Perm.cons 0 (Perm.swap 1 2 []))

global_result-written_example :
    (eval thousandths (written 32 3 last_first) ≡ global_result thousandths 32 3 last_first)
    × (occurrences 31 (written 32 3 last_first) ≡ 1)
global_result-written_example =
    global_result-written thousandths 32 3 last_first 31 (omega arith) last_first-Perm
