-- ===== src/Server/Clients.antt =====
-- What a client of one worker sees of what a client of another has stored.
use rest_technosphere_cpp_se.Base.{
  ℕ, ◌≡◌, refl, ap, ◌∙◌, Option, List, [], ◌∷◌, ◌++◌, Bytes, codes, ==_refl, Option-cases,
  Bool-cases, inl, inr, true, ◌⊎◌, if◌then◌else◌,
}
use rest_technosphere_cpp_se.Memory.{Mem}
use rest_technosphere_cpp_se.PosixTable
use rest_technosphere_cpp_se.PosixTable.Meaning.{IsValid}
use rest_technosphere_cpp_se.Command.{
  cmd_get, cmd_set, cmd_none, UserCommand, read_from_buffer, get_key_param, get_value_param,
}
use rest_technosphere_cpp_se.Command.Tokens.{read_from_buffer-IsServable}
use rest_technosphere_cpp_se.Worker.{WorkerProcess, execute_query, conn_readcb, answer}
use rest_technosphere_cpp_se.Worker.Service.{set-get}
use rest_technosphere_cpp_se.Worker.Connections.{output_of, add_line, output_of-conn_readcb}
use rest_technosphere_cpp_se.Server.{
  Server, ServerEvent, readable, in_loop, worker_reads, step, run,
}

-- none of the events, one after the other, changes a byte of the table
abbrev pub IsQuiet : Server → List ServerEvent → Type 0
IsQuiet s [] = Unit
IsQuiet s (e ∷ es) = ((step s e).memory ≡ s.memory) × IsQuiet (step s e) es

answer-get_memory : (query : UserCommand) (now : ℕ) (m : Mem) → (answer cmd_get query now m).1 ≡ m
unfolding answer
answer-get_memory query now m = elim (Option-cases (PosixTable.get m (get_key_param query)).0) [
  | inl o ↦ rw (o, answer)
  | inr (v, o) ↦ rw (o, answer)
]

-- the table behind a command
worker_reads-memory :
    (s : Server) (i : ℕ) (readln : ℕ → Option Bytes) (id now : ℕ)
    → (s.workers i).looping ≡ true
    → let query = read_from_buffer readln in
      (worker_reads s i readln id now).memory ≡ (answer query.operation query now s.memory).1
unfolding worker_reads in_loop conn_readcb execute_query
worker_reads-memory s i readln id now runs = rw runs refl

-- an operation whose answer leaves the table as it is leaves it so from any worker
pub worker_reads-quiet :
    (s : Server) (i : ℕ) (readln : ℕ → Option Bytes) (id now : ℕ)
    → let query = read_from_buffer readln in
      (answer query.operation query now s.memory).1 ≡ s.memory
      → (step s (readable i readln id now)).memory ≡ s.memory
unfolding step worker_reads in_loop
worker_reads-quiet s i readln id now same = elim (Bool-cases (s.workers i).looping) [
  | inl e ↦ worker_reads-memory s i readln id now e ∙ same
  | inr e ↦ rw e refl
]

-- a `get` is quiet, and so is a command that is none
pub asking-quiet :
    (s : Server) (i : ℕ) (readln : ℕ → Option Bytes) (id now : ℕ)
    → ((read_from_buffer readln).operation ≡ cmd_get)
      ⊎ ((read_from_buffer readln).operation ≡ cmd_none)
    → (step s (readable i readln id now)).memory ≡ s.memory
unfolding answer
asking-quiet s i readln id now which =
    let query = read_from_buffer readln in
    worker_reads-quiet s i readln id now (elim which [
      | inl e ↦ ap (λ op. (answer op query now s.memory).1) e ∙ answer-get_memory query now s.memory
      | inr e ↦ ap (λ op. (answer op query now s.memory).1) e
    ])

run-quiet : (es : List ServerEvent) (s : Server) → IsQuiet s es → (run s es).memory ≡ s.memory
unfolding run
run-quiet [] s q = refl
run-quiet (e ∷ es) s q = run-quiet es (step s e) q.1 ∙ q.0

in_loop-runs : (w after : WorkerProcess) → w.looping ≡ true → in_loop w after ≡ after
unfolding in_loop
in_loop-runs w after e = ap (λ b. if b then after else w) e

-- the lines of the connection that has asked
worker_reads-output :
    (s : Server) (i : ℕ) (readln : ℕ → Option Bytes) (id now : ℕ)
    → (s.workers i).looping ≡ true
    → let query = read_from_buffer readln in
      output_of id ((worker_reads s i readln id now).workers i).conn_list
      ≡ add_line
          (answer query.operation query now s.memory).0
          (output_of id (s.workers i).conn_list)
unfolding worker_reads
worker_reads-output s i readln id now runs =
    let w : WorkerProcess = record (s.workers i) { memory = s.memory } in
    rw (==_refl i) (
      ap (λ v. output_of id v.conn_list) (in_loop-runs w (conn_readcb w readln id now) runs)
      ∙ output_of-conn_readcb w readln id now id
      ∙ rw (==_refl id))

-- A client of worker `i`, whose loop runs, stores a value with success. Then come any events none of
-- which changes a byte of the table, and no two callbacks or rounds overlap. A client of any worker `j`
-- whose loop runs at the end, that then asks for the key, is sent the value.
pub set_then_get :
    (s : Server) (i j id other now later : ℕ) (set_line get_line : ℕ → Option Bytes)
    (between : List ServerEvent)
    → let stored = read_from_buffer set_line in
      let asked = read_from_buffer get_line in
      let before = run s (readable i set_line id now ∷ between) in
      IsValid s.memory
      → (s.workers i).looping ≡ true
      → (before.workers j).looping ≡ true
      → stored.operation ≡ cmd_set
      → asked.operation ≡ cmd_get
      → get_key_param asked ≡ get_key_param stored
      → (answer cmd_set stored now s.memory).0 ≡ codes "200 SET OK"
      → IsQuiet (step s (readable i set_line id now)) between
      → output_of other ((step before (readable j get_line other later)).workers j).conn_list
        ≡ add_line
            (codes "200 " ++ get_value_param stored)
            (output_of other (before.workers j).conn_list)
unfolding step run
set_then_get s i j id other now later set_line get_line between w runs runs_too is_set is_get same
      ok quiet =
    let stored = read_from_buffer set_line in
    let asked = read_from_buffer get_line in
    let first = worker_reads s i set_line id now in
    let before = run first between in
    let table : before.memory ≡ (answer cmd_set stored now s.memory).1 =
      run-quiet between first quiet
      ∙ worker_reads-memory s i set_line id now runs
      ∙ ap (λ op. (answer op stored now s.memory).1) is_set in
    let text : (answer asked.operation asked later before.memory).0
        ≡ codes "200 " ++ get_value_param stored =
      ap (λ op. (answer op asked later before.memory).0) is_get
      ∙ ap (λ m. (answer cmd_get asked later m).0) table
      ∙ set-get stored asked now later s.memory w (read_from_buffer-IsServable set_line) ok same in
    worker_reads-output before j get_line other later runs_too
    ∙ ap (λ t. add_line t (output_of other (before.workers j).conn_list)) text
