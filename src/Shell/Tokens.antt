-- ===== src/Shell/Tokens.antt =====
-- The tokens of a line whose words and operators are set apart by blanks.
use rest_technosphere_cpp_se.Base.{
  ℕ, ◌≡◌, ◌≢◌, refl, ◌∙◌, ap, ◌⊎◌, inl, inr, Bool, true, false, ◌||◌, List, [], ◌∷◌, ◌++◌, Bytes,
  All, isspace, arith, ◌==◌,
}
use mathlib.Core.List.{append-nil, append_assoc}
use rest_technosphere_cpp_se.Shell.Tokenizer.{
  Tokenizer, collect_token, collect_both, token_step, token_loop, tokenize_line,
}

-- a byte of an operator, and a byte that is neither that nor special
abbrev pub is_operator_byte : ℕ → Bool
is_operator_byte c = c == b'&' || c == b'|'

unfoldable pub is_special : ℕ → Bool
unfolding isspace
is_special c =
    isspace c || (c == b'<' || c == b'>' || c == b';') || is_operator_byte c || (c == 39 || c == 34)

-- a word, or a run of operator bytes
pub record IsLexeme (t : Bytes) : Type 0 where
  pub filled : t ≢ []
  pub bytes : (All (λ c. is_special c ≡ false) t) ⊎ (All (λ c. is_operator_byte c ≡ true) t)

-- the line with a blank behind each token
unfoldable pub spaced_line : List Bytes → Bytes
spaced_line [] = []
spaced_line (t ∷ ts) = t ++ (32 ∷ spaced_line ts)

abbrev word_state : Bytes → List Bytes → Tokenizer
word_state s tokens = record {
  cmd_buffer = s;
  operator_buffer = [];
  quoted_arg_buffer = [];
  tokens = tokens;
}

abbrev oper_state : Bytes → List Bytes → Tokenizer
oper_state s tokens = record {
  cmd_buffer = [];
  operator_buffer = s;
  quoted_arg_buffer = [];
  tokens = tokens;
}

word_step :
    (s : Bytes) (tokens : List Bytes) (c : ℕ)
    → is_special c ≡ false
    → token_step (word_state s tokens) c ≡ word_state (s ++ (c ∷ [])) tokens
unfolding token_step is_special
word_step s tokens c h = ground arith

oper_step :
    (s : Bytes) (tokens : List Bytes) (c : ℕ)
    → is_operator_byte c ≡ true
    → token_step (oper_state s tokens) c ≡ oper_state (s ++ (c ∷ [])) tokens
unfolding token_step
oper_step s tokens c h = ground arith

word_loop :
    (t s : Bytes) (tokens : List Bytes) (rest : Bytes)
    → All (λ c. is_special c ≡ false) t
    → token_loop (word_state s tokens) (t ++ rest) ≡ token_loop (word_state (s ++ t) tokens) rest
unfolding token_loop
word_loop [] s tokens rest h = rw (append-nil s)
word_loop (c ∷ t) s tokens rest h =
    ap (λ l. token_loop l (t ++ rest)) (word_step s tokens c h.0)
    ∙ word_loop t (s ++ (c ∷ [])) tokens rest h.1
    ∙ rw append_assoc

oper_loop :
    (t s : Bytes) (tokens : List Bytes) (rest : Bytes)
    → All (λ c. is_operator_byte c ≡ true) t
    → token_loop (oper_state s tokens) (t ++ rest) ≡ token_loop (oper_state (s ++ t) tokens) rest
unfolding token_loop
oper_loop [] s tokens rest h = rw (append-nil s)
oper_loop (c ∷ t) s tokens rest h =
    ap (λ l. token_loop l (t ++ rest)) (oper_step s tokens c h.0)
    ∙ oper_loop t (s ++ (c ∷ [])) tokens rest h.1
    ∙ rw append_assoc

collect_token_lem :
    (tokens : List Bytes) (t : Bytes) → t ≢ [] → collect_token tokens t ≡ tokens ++ (t ∷ [])
unfolding collect_token
collect_token_lem tokens [] h = absurd (h refl)
collect_token_lem tokens (c ∷ t) h = refl

word_end :
    (t : Bytes) (tokens : List Bytes)
    → t ≢ []
    → token_step (word_state t tokens) 32 ≡ word_state [] (tokens ++ (t ∷ []))
unfolding token_step
word_end t tokens h = rw (← collect_token_lem tokens t h) (unfold token_step in refl)

oper_end :
    (t : Bytes) (tokens : List Bytes)
    → t ≢ []
    → token_step (oper_state t tokens) 32 ≡ word_state [] (tokens ++ (t ∷ []))
unfolding token_step
oper_end t tokens h = rw (← collect_token_lem tokens t h) (unfold token_step in refl)

lexeme_loop :
    (t : Bytes) (tokens : List Bytes) (rest : Bytes)
    → IsLexeme t
    → token_loop (word_state [] tokens) (t ++ (32 ∷ rest))
      ≡ token_loop (word_state [] (tokens ++ (t ∷ []))) rest
unfolding token_loop
lexeme_loop t tokens rest h = elim h.bytes [
  | inl w ↦
      word_loop t [] tokens (32 ∷ rest) w ∙ ap (λ l. token_loop l rest) (word_end t tokens h.filled)
  | inr o ↦
      oper_loop t [] tokens (32 ∷ rest) o ∙ ap (λ l. token_loop l rest) (oper_end t tokens h.filled)
]

line_loop :
    (ts tokens : List Bytes)
    → All IsLexeme ts
    → token_loop (word_state [] tokens) (spaced_line ts) ≡ word_state [] (tokens ++ ts)
unfolding spaced_line
line_loop [] tokens h = rw (append-nil tokens) (unfold token_loop in refl)
line_loop (t ∷ ts) tokens h =
    lexeme_loop t tokens (spaced_line ts) h.0
    ∙ line_loop ts (tokens ++ (t ∷ [])) h.1
    ∙ rw append_assoc

-- Words and operators that are set apart by blanks come back as the tokens of the line.
pub tokenize_line-spaced_line :
    (ts : List Bytes) → All IsLexeme ts → tokenize_line (spaced_line ts) ≡ ts
unfolding tokenize_line
tokenize_line-spaced_line ts h = ap collect_both (line_loop ts [] h) ∙ (unfold collect_both in refl)
