-- ===== src/Selector/Table.antt =====
-- Reading a whole configuration, and the choice of a server.
use rest_technosphere_cpp_se.Base.{
  ℕ, zero, suc, ◌%◌, ◌<◌, ◌≡◌, ◌≢◌, refl, sym, ◌∙◌, false, none, some, List, [], ◌∷◌, ◌++◌, Bytes,
  codes, ℤ, pos, atoi, isspace, length, get_elem?, All, All-append, ltb, ◌==◌, inl, inr, ◌⊎◌, arith,
}
use mathlib.Core.List.{append_assoc, append-nil}
use rest_technosphere_cpp_se.Selector.{
  Route, RoutingTable, to_ushort, erase_spaces, assign, read_record, read_line, lines, read_lines,
  read_routing_table, route_of, select,
}
use rest_technosphere_cpp_se.Selector.Lines.{
  Lacks, ServerText, servers_text, route_text, IsServer, line_text, read_record-line_text,
}

-- A port and its servers, as a line of the file gives them.
pub record Entry : Type 0 where
  pub port : Bytes
  pub first : ServerText
  pub others : List ServerText

abbrev pub entry_text : Entry → Bytes
entry_text e = line_text e.port e.first e.others

abbrev pub port_of : Entry → ℕ
port_of e = to_ushort (atoi e.port)

-- each line ends with a line feed
abbrev pub file_text : List Entry → Bytes
file_text [] = []
file_text (e ∷ es) = entry_text e ++ (10 ∷ file_text es)

abbrev pub table_of : List Entry → RoutingTable
table_of [] = []
table_of (e ∷ es) = (port_of e, route_text (e.first ∷ e.others)) ∷ table_of es

-- no blanks, and the delimiters in their places only
pub record IsEntry (e : Entry) : Type 0 where
  pub solid : All (λ b. isspace b ≡ false) (entry_text e)
  pub port : Lacks 44 e.port
  pub servers : All IsServer (e.first ∷ e.others)

-- the ports ascend, as the keys of a `std::map` do
abbrev pub IsAscending : List Entry → Type 0
IsAscending [] = Unit
IsAscending (e ∷ es) = All (λ f. port_of e < port_of f) es × IsAscending es

erase_spaces-solid : (s : Bytes) → All (λ b. isspace b ≡ false) s → erase_spaces s ≡ s
unfolding erase_spaces
erase_spaces-solid [] h = refl
erase_spaces-solid (c ∷ s) h = rw (h.0, erase_spaces-solid s h.1)

solid-Lacks : (s : Bytes) → All (λ b. isspace b ≡ false) s → Lacks 10 s
solid-Lacks [] h = tt
solid-Lacks (c ∷ s) h = (not_feed, solid-Lacks s h.1)
  where
    not_feed : c ≢ 10
    not_feed e = unfold isspace in (absurd (ground arith))

lines-append : (s rest : Bytes) → Lacks 10 s → lines (s ++ (10 ∷ rest)) ≡ s ∷ lines rest
unfolding lines
lines-append [] rest h = refl
lines-append (c ∷ s) rest h =
    let other : (c == 10) ≡ false = ground (arith, h.0) in rw (other, lines-append s rest h.1)

-- a greater key goes to the end
assign-greater :
    (table : RoutingTable) (port : ℕ) (rt : Route)
    → All (λ (e : ℕ × Route). e.0 < port) table
    → assign table port rt ≡ table ++ ((port, rt) ∷ [])
unfolding assign
assign-greater [] port rt h = refl
assign-greater ((p, old) ∷ table) port rt h =
    let differs : (port == p) ≡ false = ground arith in
    let greater : ltb port p ≡ false = ground arith in
    rw (differs, greater, assign-greater table port rt h.1)

read_line-cons :
    (line : Bytes) (table : RoutingTable) (c : ℕ) (s : Bytes)
    → erase_spaces line ≡ c ∷ s
    → read_line line table ≡ assign table (read_record (c ∷ s)).0 (read_record (c ∷ s)).1
unfolding read_line
read_line-cons line table c s e = rw (e, read_line)

not_empty : (p r : Bytes) → (c : ℕ) × (s : Bytes) × (p ++ (44 ∷ r) ≡ c ∷ s)
not_empty [] r = (44, r, refl)
not_empty (c ∷ p) r = (c, p ++ (44 ∷ r), refl)

read_line-entry :
    (e : Entry) (table : RoutingTable)
    → IsEntry e
    → read_line (entry_text e) table ≡ assign table (port_of e) (route_text (e.first ∷ e.others))
read_line-entry e table h =
    let (c, s, shape) = not_empty e.port (servers_text e.first e.others) in
    let record_text = read_record-line_text e.port e.first e.others h.port h.servers in
    read_line-cons (entry_text e) table c s (erase_spaces-solid (entry_text e) h.solid ∙ shape)
    ∙ rw (← shape, record_text)

read_lines-end : (table : RoutingTable) → read_lines ([] ∷ []) table ≡ table
unfolding read_lines read_line erase_spaces
read_lines-end table = refl

read_lines-cons :
    (l : Bytes) (ls : List Bytes) (table : RoutingTable)
    → read_lines (l ∷ ls) table ≡ read_lines ls (read_line l table)
unfolding read_lines
read_lines-cons l ls table = refl

All-map {ℓ κ} :
    {A : Type ℓ} {P Q : A → Type κ} → ((x : A) → P x → Q x) → (xs : List A) → All P xs → All Q xs
All-map f [] h = tt
All-map f (x ∷ xs) h = (f x h.0, All-map f xs h.1)

-- the entries are put behind those that stand there
read_lines-file_text :
    (es : List Entry) (table : RoutingTable)
    → All IsEntry es
    → IsAscending es
    → All (λ (f : ℕ × Route). All (λ e. f.0 < port_of e) es) table
    → read_lines (lines (file_text es)) table ≡ table ++ table_of es
read_lines-file_text [] table h a below =
    unfold lines in (read_lines-end table ∙ sym (append-nil table))
read_lines-file_text (e ∷ es) table h a below =
    let port = port_of e in
    let rt = route_text (e.first ∷ e.others) in
    let heads =
      All-map (λ (f : ℕ × Route) (b : All (λ e. f.0 < port_of e) (e ∷ es)). b.0) table below in
    let tails =
      All-map (λ (f : ℕ × Route) (b : All (λ e. f.0 < port_of e) (e ∷ es)). b.1) table below in
    let one = read_line-entry e table h.0 ∙ assign-greater table port rt heads in
    rw
      (
        lines-append (entry_text e) (file_text es) (solid-Lacks (entry_text e) h.0.solid),
        read_lines-cons (entry_text e) (lines (file_text es)) table,
        one,
      )
      (read_lines-file_text es (table ++ ((port, rt) ∷ [])) h.1 a.1 (
          All-append (λ (f : ℕ × Route). All (λ e. f.0 < port_of e) es) table ((port, rt) ∷ [])
            tails (a.0, tt))
        ∙ rw append_assoc)

-- A configuration whose lines give a port and its servers, the ports ascending, is read to the table
-- of these ports and servers; without the file there is one route, from 9995 to 127.0.0.1:9000.
pub read_routing_table-file_text :
    (es : List Entry)
    → All IsEntry es
    → IsAscending es
    → (read_routing_table (some (file_text es)) ≡ table_of es)
      × (read_routing_table none ≡ (9995, (codes "127.0.0.1", pos 9000) ∷ []) ∷ [])
unfolding read_routing_table
read_routing_table-file_text es h a = (read_lines-file_text es [] h a tt, refl)

get_elem?-some {ℓ} :
    {A : Type ℓ} (xs : List A) (i : ℕ) → i < length xs → (x : A) × (get_elem? xs i ≡ some x)
get_elem?-some [] i h = absurd (omega arith)
get_elem?-some (x ∷ xs) zero h = (x, refl)
get_elem?-some (x ∷ xs) (suc i) h = get_elem?-some xs i (omega arith)

List-cases {ℓ} : {A : Type ℓ} (xs : List A) → (xs ≡ []) ⊎ ((x : A) × (ys : List A) × (xs ≡ x ∷ ys))
List-cases [] = inl refl
List-cases (x ∷ xs) = inr (x, xs, refl)

-- Whatever number is drawn, a port with servers gets one of its own; a port with none divides by
-- zero.
pub select_cases :
    (table : RoutingTable) (port random : ℕ)
    → ((route_of table port ≡ []) × (select table port random ≡ none))
      ⊎ ((server : Bytes × ℤ) × (i : ℕ) × (i < length (route_of table port))
          × (get_elem? (route_of table port) i ≡ some server)
          × (select table port random ≡ some server))
unfolding select
select_cases table port random = elim (List-cases (route_of table port)) [
  | inl e ↦ inl (e, rw (e, select))
  | inr (s, rest, e) ↦
      let i = random % length (s ∷ rest) in
      let below : i < length (s ∷ rest) = grind arith in
      let (server, at_i) = get_elem?-some (s ∷ rest) i below in
      inr (server, i, rw e below, rw e at_i, rw (e, select) at_i)
]
