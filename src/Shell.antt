-- ===== src/Shell.antt =====
-- The shell of p4/src: its tokens and command sequences (CmdInterperter.cpp), commands with their
-- redirections (CommandItem.cpp, OperItem.cpp) and the run of a sequence (LisonShell.cpp). Processes and
-- descriptors are the system's: the status that `wait` gives for the n-th command that is run is the
-- argument `status`. `none` is undefined behaviour, such as a read past the end of a vector.
pub mod Tokenizer
pub mod Tokens
pub mod Sequence
pub mod Making
pub mod Building
pub mod Running
pub mod Descriptors
pub mod Processes
pub mod Redirection
pub mod Pipeline
use rest_technosphere_cpp_se.Base.{
  ℕ, zero, suc, ◌+◌, ◌-◌, ◌/◌, ◌%◌, ◌^◌, Bool, true, false, not, ◌&&◌, ◌||◌, Option, none, some,
  List, [], ◌∷◌, ◌++◌, Bytes, codes, text_eq, isspace, ◌==◌, if◌then◌else◌,
}
use Tokenizer.{tokenize_line}

pub data OpType : Type 0 where
  op_and op_or op_pipeline op_run_in_background op_delimiter : OpType

unfoldable pub is_operator : Bytes → Bool
unfolding text_eq
is_operator s =
    text_eq s (codes "||")
    || text_eq s (codes "&&")
    || text_eq s (codes "|")
    || text_eq s (codes "&")

-- A CommandItem, of whatever a command is built to, or an OperItem.
pub data Item {ℓ} (A : Type ℓ) : Type ℓ where
  cmd : A → Item A
  oper : OpType → Item A

-- the chain of tests on an operator's token; `none` is the null pointer
unfoldable pub oper_of : Bytes → Option OpType
unfolding text_eq
oper_of token =
    if text_eq token (codes "|")
    then some op_pipeline
    else if text_eq token (codes "||")
    then some op_or
    else if text_eq token (codes "&")
    then some op_run_in_background
    else if text_eq token (codes "&&")
    then some op_and
    else if text_eq token (codes ";")
    then some op_delimiter
    else none

-- `make` builds a CommandItem of its tokens; `none` is a read behind the tokens.
module _ {ℓ} {A : Type ℓ} (make : List Bytes → Option A) where
  unfoldable pub push_command : List (Item A) → List Bytes → Option (List (Item A))
  push_command result current = elim (make current) [
    | none ↦ none
    | some c ↦ some (result ++ (cmd c ∷ []))
  ]

  unfoldable pub push_oper : List (Item A) → Option OpType → Option (List (Item A))
  push_oper result none = none
  push_oper result (some o) = some (result ++ (oper o ∷ []))

  -- what a token does to the sequence and the current command
  unfoldable pub build_step :
      List (Item A) → List Bytes → Bytes → Option (List (Item A) × List Bytes)
  unfolding is_operator oper_of push_command push_oper
  build_step result current token =
      if not (is_operator token)
      then some (result, current ++ (token ∷ []))
      else elim (push_command result current) [
        | none ↦ none
        | some r ↦ elim (push_oper r (oper_of token)) [ none ↦ none | some q ↦ some (q, []) ]
      ]

  -- the command that is left at the end
  unfoldable pub last_command : List (Item A) → List Bytes → Option (List (Item A))
  unfolding push_command
  last_command result [] = some result
  last_command result (t ∷ ts) = push_command result (t ∷ ts)

  -- the first loop, which reads the tokens
  unfoldable pub build_loop : List (Item A) → List Bytes → List Bytes → Option (List (Item A))
  unfolding build_step last_command
  build_loop result current [] = last_command result current
  build_loop result current (token ∷ tokens) = elim (build_step result current token) [
    | none ↦ none
    | some (r, c) ↦ build_loop r c tokens
  ]

-- A CommandItem: its arguments, the files that `<` and `>` name (the last of each counts).
pub record CommandItem : Type 0 where
  pub args : List Bytes
  pub stdin_file : Option Bytes
  pub stdout_file : Option Bytes

-- the constructor's loop over the tokens
unfoldable pub read_tokens : CommandItem → List Bytes → Option CommandItem
unfolding text_eq
read_tokens c [] = some c
read_tokens c (t ∷ []) =
    if text_eq t (codes "<") || text_eq t (codes ">")
    then none
    else some (record c { args = c.args ++ (t ∷ []) })
read_tokens c (t ∷ f ∷ rest) =
    let stdin = read_tokens (record c { stdin_file = some f }) rest in
    let stdout = read_tokens (record c { stdout_file = some f }) rest in
    let plain = read_tokens (record c { args = c.args ++ (t ∷ []) }) (f ∷ rest) in
    if text_eq t (codes "<") then stdin else if text_eq t (codes ">") then stdout else plain

unfoldable pub new_command_item : List Bytes → Option CommandItem
unfolding read_tokens
new_command_item = read_tokens (record { args = []; stdin_file = none; stdout_file = none })

-- WIFEXITED(status) and WEXITSTATUS(status)
abbrev pub has_exited : ℕ → Bool
has_exited status = status % 2 ^ 7 == 0

abbrev pub exit_status : ℕ → ℕ
exit_status status = status / 2 ^ 8 % 2 ^ 8

-- the value of WIFEXITED is 0 in the second branch
unfoldable pub get_exit_code : ℕ → ℕ
get_exit_code status = if has_exited status then exit_status status else 0

-- the test for the `break`
unfoldable pub stops : OpType → ℕ → Bool
stops op_or code = code == 0
stops op_and code = not (code == 0)
stops _ code = false

module _ {ℓ} {A : Type ℓ} (status : ℕ → A → ℕ) where
  -- `run_sequence` from the n-th run on, with the exit code of the one before: what is run
  unfoldable pub run_from : ℕ → ℕ → List (Item A) → List A
  unfolding get_exit_code stops
  run_from n code [] = []
  run_from n code (cmd c ∷ rest) = c ∷ run_from (suc n) (get_exit_code (status n c)) rest
  run_from n code (oper o ∷ rest) =
      let more = run_from n code rest in if stops o code then [] else more

  -- the exit code -1 before the first command
  unfoldable pub run_sequence : List (Item A) → List A
  unfolding run_from
  run_sequence items = run_from 0 (2 ^ 32 - 1) items

-- The pipes that `build_command_sequence` sets up: for a `|` at place i, the commands before and behind
-- it, at i - 1 and i + 1. Without a command there the code dereferences what is none.
unfoldable pub is_command {ℓ} : {A : Type ℓ} → List (Item A) → Bool
is_command [] = false
is_command (cmd c ∷ rest) = true
is_command (oper o ∷ rest) = false

abbrev pub is_pipeline : OpType → Bool
is_pipeline op_pipeline = true
is_pipeline _ = false

unfoldable pub pipes_from {ℓ} : {A : Type ℓ} → ℕ → Bool → List (Item A) → Option (List (ℕ × ℕ))
unfolding is_command
pipes_from i before [] = some []
pipes_from i before (cmd c ∷ rest) = pipes_from (i + 1) true rest
pipes_from i before (oper o ∷ rest) =
    let more = pipes_from (i + 1) false rest in
    if is_pipeline o
    then (if before && is_command rest
        then elim more [ none ↦ none | some ps ↦ some ((i - 1, i + 1) ∷ ps) ]
        else none)
    else more

unfoldable pub pipes {ℓ} : {A : Type ℓ} → List (Item A) → Option (List (ℕ × ℕ))
unfolding pipes_from
pipes items = pipes_from 0 false items

-- `build_command_sequence`: the sequence, if the loop that sets up the pipes finds the commands it
-- connects. Which descriptors it gives them is module Descriptors.
unfoldable pub build {ℓ} :
    {A : Type ℓ} → (List Bytes → Option A) → List Bytes → Option (List (Item A))
unfolding build_loop pipes
build make tokens = elim (build_loop make [] [] tokens) [
  | none ↦ none
  | some items ↦ elim (pipes items) [ none ↦ none | some ps ↦ some items ]
]

-- What `execute_line` does with a line: nothing, a run in this process, or a run in a child.
pub data Launch {ℓ} (A : Type ℓ) : Type ℓ where
  nothing : Launch A
  foreground : List (Item A) → Launch A
  background : List (Item A) → Launch A

abbrev pub is_background : OpType → Bool
is_background op_run_in_background = true
is_background _ = false

unfoldable pub ends_in_background {ℓ} : {A : Type ℓ} → List (Item A) → Bool
ends_in_background [] = false
ends_in_background (cmd c ∷ []) = false
ends_in_background (oper o ∷ []) = is_background o
ends_in_background (x ∷ y ∷ rest) = ends_in_background (y ∷ rest)

unfoldable pub execute_line {ℓ} : {A : Type ℓ} → (List Bytes → Option A) → Bytes → Option (Launch A)
unfolding tokenize_line build ends_in_background
execute_line make line = elim (tokenize_line line) [
  | [] ↦ some nothing
  | t ∷ ts ↦ elim (build make (t ∷ ts)) [
    | none ↦ none
    | some items ↦ some (if ends_in_background items then background items else foreground items)
  ]
]
