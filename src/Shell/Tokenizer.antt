-- ===== src/Shell/Tokenizer.antt =====
-- The split of a command line into tokens, `tokenize_line` of p4/src/CmdInterperter.cpp.
use rest_technosphere_cpp_se.Base.{
  ℕ, ◌||◌, List, [], ◌∷◌, ◌++◌, Bytes, isspace, ◌==◌, if◌then◌else◌,
}

-- The local variables of `tokenize_line`, and the tokens so far.
pub record Tokenizer : Type 0 where
  pub cmd_buffer : Bytes
  pub operator_buffer : Bytes
  pub quoted_arg_buffer : Bytes
  pub tokens : List Bytes

-- `collect_token_from_buffer`; the caller clears the buffer
unfoldable pub collect_token : List Bytes → Bytes → List Bytes
collect_token tokens [] = tokens
collect_token tokens (c ∷ s) = tokens ++ ((c ∷ s) ∷ [])

-- both buffers, in the order of the code
unfoldable pub collect_both : Tokenizer → List Bytes
unfolding collect_token
collect_both t = collect_token (collect_token t.tokens t.cmd_buffer) t.operator_buffer

-- a round inside quotation marks; `quote` is the one that opened
unfoldable pub quoted_step : Tokenizer → ℕ → Bytes → ℕ → Tokenizer
unfolding collect_token
quoted_step t quote s c =
    let longer = quote ∷ (s ++ (c ∷ [])) in
    if c == quote
    then record t { tokens = collect_token t.tokens longer; quoted_arg_buffer = [] }
    else record t { quoted_arg_buffer = longer }

-- a round outside quotation marks
unfoldable pub plain_step : Tokenizer → ℕ → Tokenizer
unfolding collect_both isspace
plain_step t c =
    if isspace c
    then record t { tokens = collect_both t; cmd_buffer = []; operator_buffer = [] }
    else if c == b'<' || c == b'>' || c == b';'
    then record t {
      tokens = collect_both t ++ ((c ∷ []) ∷ []);
      cmd_buffer = [];
      operator_buffer = [];
    }
    else if c == b'&' || c == b'|'
    then record t {
      tokens = collect_token t.tokens t.cmd_buffer;
      cmd_buffer = [];
      operator_buffer = t.operator_buffer ++ (c ∷ []);
    }
    else if c == 39 || c == 34
    then record t {
      tokens = collect_both t;
      cmd_buffer = [];
      operator_buffer = [];
      quoted_arg_buffer = c ∷ [];
    }
    else record t {
      tokens = collect_token t.tokens t.operator_buffer;
      cmd_buffer = t.cmd_buffer ++ (c ∷ []);
      operator_buffer = [];
    }

unfoldable pub token_step : Tokenizer → ℕ → Tokenizer
unfolding quoted_step plain_step
token_step t c = elim t.quoted_arg_buffer [
  | [] ↦ plain_step t c
  | quote ∷ s ↦ quoted_step t quote s c
]

unfoldable pub token_loop : Tokenizer → Bytes → Tokenizer
unfolding token_step
token_loop t [] = t
token_loop t (c ∷ cs) = token_loop (token_step t c) cs

abbrev pub fresh : Tokenizer
fresh = record { cmd_buffer = []; operator_buffer = []; quoted_arg_buffer = []; tokens = [] }

unfoldable pub tokenize_line : Bytes → List Bytes
unfolding token_loop collect_both
tokenize_line line = collect_both (token_loop fresh line)
