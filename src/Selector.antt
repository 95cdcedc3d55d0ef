-- ===== src/Selector.antt =====
-- The routing table of the proxy, p3/src/Selector.{h,cpp}. The configuration file is its bytes, if it
-- can be opened. `rand()` is an argument.
pub mod Lines
pub mod Table
use rest_technosphere_cpp_se.Base.{
  ℕ, zero, suc, ◌+◌, ◌-◌, ◌%◌, ◌^◌, Bool, true, false, not, Option, none, some, List, [], ◌∷◌, ◌++◌,
  Bytes, codes, ℤ, pos, negsuc, atoi, isspace, length, get_elem?, ltb, ◌==◌, if◌then◌else◌,
}

-- `route`: the addresses and ports of the servers behind one port
abbrev pub Route : Type 0
Route = List (Bytes × ℤ)

-- a string stream that has not met its end, with what is left of it; `none` once `eof()` holds
abbrev pub Stream : Type 0
Stream = Option Bytes

-- the text up to a delimiter, and what is behind it
unfoldable pub cut : ℕ → Bytes → Bytes × Stream
cut delim [] = ([], none)
cut delim (c ∷ s) =
    let rest = cut delim s in if c == delim then ([], some s) else (c ∷ rest.0, rest.1)

-- `std::getline(stream, text, delim)`; behind the end the text stays as it was
unfoldable pub getline : ℕ → Bytes → Stream → Bytes × Stream
unfolding cut
getline delim text none = (text, none)
getline delim text (some s) = cut delim s

-- `static_cast<unsigned short>` of an `int`
unfoldable pub to_ushort : ℤ → ℕ
to_ushort (pos n) = n % 2 ^ 16
to_ushort (negsuc n) = 2 ^ 16 - 1 - n % 2 ^ 16

-- the loop over the servers of a line; it reads two texts in each round
unfoldable pub read_servers : ℕ → Stream → Bytes → Bytes → Route → Route
unfolding getline atoi
read_servers zero stream str_ip str_port rt = rt
read_servers (suc fuel) none str_ip str_port rt = rt
read_servers (suc fuel) (some s) str_ip str_port rt =
    let ip = getline 58 str_ip (some s) in
    let port = getline 44 str_port ip.1 in
    read_servers fuel port.1 ip.0 port.0 (rt ++ ((ip.0, atoi port.0) ∷ []))

unfoldable pub erase_spaces : Bytes → Bytes
unfolding isspace
erase_spaces [] = []
erase_spaces (c ∷ s) = let rest = erase_spaces s in if isspace c then rest else c ∷ rest

-- `std::map`: the entries in ascending order of their keys
abbrev pub RoutingTable : Type 0
RoutingTable = List (ℕ × Route)

unfoldable pub assign : RoutingTable → ℕ → Route → RoutingTable
assign [] port rt = (port, rt) ∷ []
assign ((p, old) ∷ table) port rt =
    let rest = assign table port rt in
    if port == p
    then (port, rt) ∷ table
    else if ltb port p
    then (port, rt) ∷ (p, old) ∷ table
    else (p, old) ∷ rest

-- the port and the route of a line that is not empty
unfoldable pub read_record : Bytes → ℕ × Route
unfolding getline read_servers to_ushort
read_record record_text =
    let port = getline 44 [] (some record_text) in
    (to_ushort (atoi port.0), read_servers (length record_text + 1) port.1 [] port.0 [])

-- one round of the loop over the lines
unfoldable pub read_line : Bytes → RoutingTable → RoutingTable
unfolding erase_spaces assign read_record
read_line line table = elim (erase_spaces line) [
  | [] ↦ table
  | c ∷ s ↦ assign table (read_record (c ∷ s)).0 (read_record (c ∷ s)).1
]

-- the lines of a file; what follows the last line feed is one too
unfoldable pub lines : Bytes → List Bytes
lines [] = [] ∷ []
lines (c ∷ s) =
    let rest = lines s in
    if c == 10 then [] ∷ rest else elim rest [ [] ↦ (c ∷ []) ∷ [] | l ∷ ls ↦ (c ∷ l) ∷ ls ]

unfoldable pub read_lines : List Bytes → RoutingTable → RoutingTable
unfolding read_line
read_lines [] table = table
read_lines (l ∷ ls) table = read_lines ls (read_line l table)

unfoldable pub read_routing_table : Option Bytes → RoutingTable
unfolding read_lines lines
read_routing_table none = (9995, (codes "127.0.0.1", pos 9000) ∷ []) ∷ []
read_routing_table (some config) = read_lines (lines config) []

-- `operator[]` on a copy of the table: a port that is missing has the empty route
unfoldable pub route_of : RoutingTable → ℕ → Route
route_of [] port = []
route_of ((p, rt) ∷ table) port = if p == port then rt else route_of table port

-- `none` for an empty route, where `rand() % sz` divides by zero
unfoldable pub select : RoutingTable → ℕ → ℕ → Option (Bytes × ℤ)
unfolding route_of
select table port random =
    let target_rt = route_of table port in
    elim target_rt [ [] ↦ none | s ∷ rest ↦ get_elem? (s ∷ rest) (random % length (s ∷ rest)) ]

unfoldable pub get_incoming_ports : RoutingTable → List ℕ
get_incoming_ports [] = []
get_incoming_ports ((port, rt) ∷ table) = port ∷ get_incoming_ports table
