-- ===== src/Command/Tokens.antt =====
-- The tokens of a line: their form, and that quoted tokens are read back as they were written.
use rest_technosphere_cpp_se.Base.{
  ℕ, ◌<◌, ◌≡◌, ◌≢◌, refl, ◌∙◌, ap, inl, inr, true, false, Option, List, [], ◌∷◌, ◌++◌, Bytes, All,
  All-append, IsText, isspace, ◌==◌, arith, Bool-cases, Option-cases,
}
use mathlib.Core.List.{append-nil, append_assoc}
use rest_technosphere_cpp_se.Command.{
  Lexer, collect_token, is_quote, lex_step, lex, fresh, parse, until_zero, wait_line, max_tries,
  read_from_buffer,
}
use rest_technosphere_cpp_se.Command.Params.{
  IsServable, interpret-IsServable, new_command-IsServable,
}

-- a token: at least one byte, and no quotation mark
pub record IsToken (t : Bytes) : Type 0 where
  pub filled : t ≢ []
  pub clean : All (λ c. is_quote c ≡ false) t

-- what `P` says of every byte of the line it says of every byte of every token
record Carries (P : ℕ → Type 0) (l : Lexer) : Type 0 where
  std : All P l.std_buffer
  quoted : All P l.quoted_arg_buffer
  tokens : All (All P) l.tokens

module _ (P : ℕ → Type 0) where
  collect-All :
      (ts : List Bytes) (s : Bytes) → All (All P) ts → All P s → All (All P) (collect_token ts s)
  unfolding collect_token
  collect-All ts [] ht hs = ht
  collect-All ts (c ∷ s) ht hs = All-append (All P) ts ((c ∷ s) ∷ []) ht (hs, tt)

  step-Carries : (l : Lexer) (c : ℕ) → Carries P l → P c → Carries P (lex_step l c)
  unfolding lex_step
  step-Carries l c h p =
      let longer_std = All-append P l.std_buffer (c ∷ []) h.std (p, tt) in
      let longer_quoted = All-append P l.quoted_arg_buffer (c ∷ []) h.quoted (p, tt) in
      let with_std = collect-All l.tokens l.std_buffer h.tokens h.std in
      let with_quoted = collect-All l.tokens l.quoted_arg_buffer h.tokens h.quoted in
      elim (Bool-cases l.quotes_on) [
        | inl q ↦ elim (Bool-cases (is_quote c)) [
          | inl e ↦ rw (lex_step, q, e) (record { std = h.std; quoted = tt; tokens = with_quoted })
          | inr e ↦
              rw (lex_step, q, e)
                (record { std = h.std; quoted = longer_quoted; tokens = h.tokens })
        ]
        | inr q ↦ elim (Bool-cases (isspace c)) [
          | inl s ↦ rw (lex_step, q, s) (record { std = tt; quoted = h.quoted; tokens = with_std })
          | inr s ↦ elim (Bool-cases (is_quote c)) [
            | inl e ↦
                rw (lex_step, q, s, e) (record { std = tt; quoted = h.quoted; tokens = with_std })
            | inr e ↦
                rw (lex_step, q, s, e)
                  (record { std = longer_std; quoted = h.quoted; tokens = h.tokens })
          ]
        ]
      ]

  lex-Carries : (l : Lexer) (line : Bytes) → Carries P l → All P line → Carries P (lex l line)
  unfolding lex
  lex-Carries l [] h p = h
  lex-Carries l (c ∷ cs) h p = lex-Carries (lex_step l c) cs (step-Carries l c h p.0) p.1

  parse-All : (line : Bytes) → All P line → All (All P) (parse line)
  unfolding parse
  parse-All line p =
      let h = lex-Carries fresh line (record { std = tt; quoted = tt; tokens = tt }) p in
      collect-All (lex fresh line).tokens (lex fresh line).std_buffer h.tokens h.std

until_zero-IsText : (line : Bytes) → IsText (until_zero line)
unfolding until_zero
until_zero-IsText [] = tt
until_zero-IsText (c ∷ s) = elim (Bool-cases (c == 0)) [
  | inl e ↦ rw (until_zero, e) tt
  | inr e ↦ rw (until_zero, e) (ground arith, until_zero-IsText s)
]

-- Whatever arrives on the connection, in however many pieces, the command that is read can be
-- served: its key and value fit their fields, and the lifetime of a `set` is an `int` of ten or more.
pub read_from_buffer-IsServable : (readln : ℕ → Option Bytes) → IsServable (read_from_buffer readln)
unfolding read_from_buffer
read_from_buffer-IsServable readln = elim (Option-cases (wait_line readln max_tries 0)) [
  | inl o ↦ rw (read_from_buffer, o) new_command-IsServable
  | inr (line, o) ↦
      rw (read_from_buffer, o)
        (interpret-IsServable (parse (until_zero line))
          (parse-All (λ c. 0 < c) (until_zero line) (until_zero-IsText line)))
]

-- a client's line: each token in quotation marks, with a blank behind it
unfoldable pub quoted_line : List Bytes → Bytes
quoted_line [] = []
quoted_line (t ∷ ts) = 39 ∷ (t ++ (39 ∷ (32 ∷ quoted_line ts)))

abbrev ready : List Bytes → Lexer
ready tokens = record {
  std_buffer = [];
  quoted_arg_buffer = [];
  quotes_on = false;
  tokens = tokens;
}

abbrev inside : Bytes → List Bytes → Lexer
inside s tokens = record {
  std_buffer = [];
  quoted_arg_buffer = s;
  quotes_on = true;
  tokens = tokens;
}

inside_step :
    (s : Bytes) (tokens : List Bytes) (c : ℕ)
    → is_quote c ≡ false
    → lex_step (inside s tokens) c ≡ inside (s ++ (c ∷ [])) tokens
unfolding lex_step
inside_step s tokens c h = rw (lex_step, h)

lex_inside :
    (t s : Bytes) (tokens : List Bytes) (rest : Bytes)
    → All (λ c. is_quote c ≡ false) t
    → lex (inside s tokens) (t ++ rest) ≡ lex (inside (s ++ t) tokens) rest
unfolding lex
lex_inside [] s tokens rest h = rw (append-nil s)
lex_inside (c ∷ t) s tokens rest h =
    ap (λ l. lex l (t ++ rest)) (inside_step s tokens c h.0)
    ∙ lex_inside t (s ++ (c ∷ [])) tokens rest h.1
    ∙ rw append_assoc

collect_token_lem :
    (tokens : List Bytes) (t : Bytes) → t ≢ [] → collect_token tokens t ≡ tokens ++ (t ∷ [])
unfolding collect_token
collect_token_lem tokens [] h = absurd (h refl)
collect_token_lem tokens (c ∷ t) h = refl

lex_close :
    (t : Bytes) (tokens : List Bytes) (rest : Bytes)
    → t ≢ []
    → lex (inside t tokens) (39 ∷ 32 ∷ rest) ≡ lex (ready (tokens ++ (t ∷ []))) rest
unfolding lex
lex_close t tokens rest h = rw (← collect_token_lem tokens t h) (unfold lex_step in refl)

lex-quoted_line :
    (ts tokens : List Bytes)
    → All IsToken ts
    → lex (ready tokens) (quoted_line ts) ≡ ready (tokens ++ ts)
unfolding quoted_line lex
lex-quoted_line [] tokens h = rw (append-nil tokens)
lex-quoted_line (t ∷ ts) tokens h =
    opens
    ∙ lex_inside t [] tokens (39 ∷ (32 ∷ quoted_line ts)) h.0.clean
    ∙ lex_close t tokens (quoted_line ts) h.0.filled
    ∙ lex-quoted_line ts (tokens ++ (t ∷ [])) h.1
    ∙ rw append_assoc
  where
    opens :
        lex (ready tokens) (39 ∷ (t ++ (39 ∷ (32 ∷ quoted_line ts))))
        ≡ lex (inside [] tokens) (t ++ (39 ∷ (32 ∷ quoted_line ts)))
    opens = refl

-- Tokens that a client writes in quotation marks are read back exactly, blanks and all.
pub parse-quoted_line : (ts : List Bytes) → All IsToken ts → parse (quoted_line ts) ≡ ts
unfolding parse
parse-quoted_line ts h = rw (lex-quoted_line ts [] h) (unfold collect_token in refl)
