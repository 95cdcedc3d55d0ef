-- ===== src/Examples/Shell.antt =====
-- The shell: lines, sequences and runs, and the results at concrete inputs.
use rest_technosphere_cpp_se.Base.{
  ℕ, ◌≡◌, refl, inl, inr, none, some, List, [], ◌∷◌, Bytes, codes, text_eq, isspace, All, ◌==◌,
  if◌then◌else◌,
}
use rest_technosphere_cpp_se.Shell.{
  op_and, op_pipeline, op_run_in_background, Item, cmd, oper, build, new_command_item, run_sequence,
  run_from, get_exit_code, pipes, execute_line, background,
}
use rest_technosphere_cpp_se.Shell.Tokenizer.{tokenize_line}
use rest_technosphere_cpp_se.Shell.Tokens.{
  is_special, IsLexeme, spaced_line, tokenize_line-spaced_line,
}
use rest_technosphere_cpp_se.Shell.Sequence.{spell}
use rest_technosphere_cpp_se.Shell.Running.{commands}

program : Unit {0}
unfolding isspace text_eq tokenize_line build new_command_item run_sequence run_from get_exit_code
    pipes execute_line is_special spaced_line spell commands
program = tt

-- p4/tests/3.sh
tokens_of_line :
    tokenize_line (codes "false   ||echo 2-false")
    ≡ codes "false" ∷ codes "||" ∷ codes "echo" ∷ codes "2-false" ∷ []
unfolding program
tokens_of_line = refl

-- quotation marks are kept
tokens_of_quotes : tokenize_line (codes "a 'b c'") ≡ codes "a" ∷ codes "'b c'" ∷ []
unfolding program
tokens_of_quotes = refl

redirections :
    new_command_item (codes "cat" ∷ codes "<" ∷ codes "f" ∷ codes ">" ∷ codes "g" ∷ [])
    ≡ some (record {
      args = codes "cat" ∷ [];
      stdin_file = some (codes "f");
      stdout_file = some (codes "g");
    })
unfolding program
redirections = refl

-- p4/tests/5.sh
background_line :
    execute_line (λ ts. some ts) (codes "echo a | cat &")
    ≡ some (
        background (
          cmd (codes "echo" ∷ codes "a" ∷ [])
          ∷ oper op_pipeline
          ∷ cmd (codes "cat" ∷ [])
          ∷ oper op_run_in_background
          ∷ []))
unfolding program
background_line = refl

abbrev piped : List (Item ℕ)
piped = cmd 1 ∷ oper op_pipeline ∷ cmd 2 ∷ []

one_pipe : pipes piped ≡ some ((0, 2) ∷ [])
unfolding program
one_pipe = refl

-- a `|` at the end of the line reads past the sequence
abbrev dangling : List (Item ℕ)
dangling = cmd 1 ∷ oper op_pipeline ∷ []

dangling_pipe : pipes dangling ≡ none
unfolding program
dangling_pipe = refl

abbrev line_tokens : List Bytes
line_tokens = codes "ls" ∷ codes "|" ∷ codes "wc" ∷ []

line_tokens-IsLexeme : All IsLexeme line_tokens
unfolding program
line_tokens-IsLexeme = (
  record { filled = λ e. cc; bytes = inl (refl, (refl, tt)) },
  (
    record { filled = λ e. cc; bytes = inr (refl, tt) },
    (record { filled = λ e. cc; bytes = inl (refl, (refl, tt)) }, tt),
  ),
)

tokenize_line-spaced_line_example : tokenize_line (spaced_line line_tokens) ≡ line_tokens
tokenize_line-spaced_line_example = tokenize_line-spaced_line line_tokens line_tokens-IsLexeme

-- a line that ends in `|`, and one that ends in `<`
refused :
    (build new_command_item (codes "ls" ∷ codes "|" ∷ []) ≡ none)
    × (build new_command_item (codes "cat" ∷ codes "<" ∷ []) ≡ none)
unfolding program
refused = (refl, refl)

-- command 1 fails with code 1, all others succeed
abbrev statuses : ℕ → ℕ → ℕ
statuses n c = if c == 1 then 256 else 0

abbrev chain : List (Item ℕ)
chain = cmd 0 ∷ oper op_and ∷ cmd 1 ∷ oper op_and ∷ cmd 2 ∷ []

chain_stops : run_sequence statuses chain ≡ 0 ∷ 1 ∷ []
unfolding program
chain_stops = refl

-- every command is ended by signal 9
abbrev killed : ℕ → ℕ → ℕ
killed n c = 9
