-- ===== src/Shell/Sequence.antt =====
-- The first loop of `build_command_sequence` on commands as they are: total, faithful to the tokens,
-- commands and operators in turn.
use rest_technosphere_cpp_se.Base.{
  ◌≡◌, ◌≢◌, refl, sym, ◌∙◌, ap, inl, inr, true, false, Option, some, List, [], ◌∷◌, ◌++◌, Bytes,
  codes, text_eq, text_eq→eq, Bool-cases,
}
use mathlib.Core.List.{append-nil, append_assoc}
use rest_technosphere_cpp_se.Shell.{
  OpType, op_and, op_or, op_pipeline, op_run_in_background, op_delimiter, Item, cmd, oper,
  is_operator, oper_of, push_command, push_oper, build_step, last_command, build_loop,
}

-- how an operator is written
unfoldable pub spell_op : OpType → Bytes
spell_op op_and = codes "&&"
spell_op op_or = codes "||"
spell_op op_pipeline = codes "|"
spell_op op_run_in_background = codes "&"
spell_op op_delimiter = codes ";"

-- the tokens that a sequence was built of
unfoldable pub spell : List (Item (List Bytes)) → List Bytes
spell [] = []
spell (cmd ts ∷ rest) = ts ++ spell rest
spell (oper o ∷ rest) = spell_op o ∷ spell rest

-- commands and operators in turn, from a command on, with no OP_DELIMITER
unfoldable pub IsAlternating {ℓ} : {A : Type ℓ} → List (Item A) → Type 0
IsAlternating [] = Unit
IsAlternating (oper o ∷ rest) = ⊥
IsAlternating (cmd c ∷ []) = Unit
IsAlternating (cmd c ∷ cmd d ∷ rest) = ⊥
IsAlternating (cmd c ∷ oper o ∷ rest) = (o ≢ op_delimiter) × IsAlternating rest

-- ... and an operator at the end
abbrev IsClosed {ℓ} : {A : Type ℓ} → List (Item A) → Type 0
IsClosed [] = Unit
IsClosed (oper o ∷ rest) = ⊥
IsClosed (cmd c ∷ []) = ⊥
IsClosed (cmd c ∷ cmd d ∷ rest) = ⊥
IsClosed (cmd c ∷ oper o ∷ rest) = (o ≢ op_delimiter) × IsClosed rest

IsClosed-append {ℓ} :
    {A : Type ℓ} (r : List (Item A)) (c : A) (o : OpType)
    → o ≢ op_delimiter
    → IsClosed r
    → IsClosed (r ++ (cmd c ∷ oper o ∷ []))
IsClosed-append [] c o d h = (d, tt)
IsClosed-append (oper p ∷ r) c o d h = absurd h
IsClosed-append (cmd b ∷ []) c o d h = absurd h
IsClosed-append (cmd b ∷ cmd b' ∷ r) c o d h = absurd h
IsClosed-append (cmd b ∷ oper p ∷ r) c o d h = (h.0, IsClosed-append r c o d h.1)

IsAlternating-closed {ℓ} : {A : Type ℓ} (r : List (Item A)) → IsClosed r → IsAlternating r
unfolding IsAlternating
IsAlternating-closed [] h = tt
IsAlternating-closed (oper p ∷ r) h = absurd h
IsAlternating-closed (cmd b ∷ []) h = absurd h
IsAlternating-closed (cmd b ∷ cmd b' ∷ r) h = absurd h
IsAlternating-closed (cmd b ∷ oper p ∷ r) h = (h.0, IsAlternating-closed r h.1)

IsAlternating-append {ℓ} :
    {A : Type ℓ} (r : List (Item A)) (c : A) → IsClosed r → IsAlternating (r ++ (cmd c ∷ []))
unfolding IsAlternating
IsAlternating-append [] c h = tt
IsAlternating-append (oper p ∷ r) c h = absurd h
IsAlternating-append (cmd b ∷ []) c h = absurd h
IsAlternating-append (cmd b ∷ cmd b' ∷ r) c h = absurd h
IsAlternating-append (cmd b ∷ oper p ∷ r) c h = (h.0, IsAlternating-append r c h.1)

spell-append : (r s : List (Item (List Bytes))) → spell (r ++ s) ≡ spell r ++ spell s
unfolding spell
spell-append [] s = refl
spell-append (cmd ts ∷ r) s = rw (spell-append r s, append_assoc)
spell-append (oper o ∷ r) s = rw (spell-append r s)

-- an operator's token has an operator, which is written like it
pub record Reads (token : Bytes) (o : OpType) : Type 0 where
  pub reads : oper_of token ≡ some o
  pub written : spell_op o ≡ token
  pub no_delimiter : o ≢ op_delimiter

reads_as :
    (token : Bytes) (o : OpType)
    → text_eq token (spell_op o) ≡ true
    → oper_of (spell_op o) ≡ some o
    → o ≢ op_delimiter
    → Reads token o
reads_as token o e r d =
    let same : token ≡ spell_op o = text_eq→eq token (spell_op o) e in
    record { reads = ap oper_of same ∙ r; written = sym same; no_delimiter = d }

pub operator-Reads : (token : Bytes) → is_operator token ≡ true → (o : OpType) × Reads token o
unfolding is_operator oper_of spell_op
operator-Reads token h = elim (Bool-cases (text_eq token (codes "||"))) [
  | inl e ↦ (op_or, reads_as token op_or e refl (λ x. cc))
  | inr e ↦ elim (Bool-cases (text_eq token (codes "&&"))) [
    | inl f ↦ (op_and, reads_as token op_and f refl (λ x. cc))
    | inr f ↦ elim (Bool-cases (text_eq token (codes "|"))) [
      | inl g ↦ (op_pipeline, reads_as token op_pipeline g refl (λ x. cc))
      | inr g ↦ elim (Bool-cases (text_eq token (codes "&"))) [
        | inl k ↦ (op_run_in_background, reads_as token op_run_in_background k refl (λ x. cc))
        | inr k ↦ absurd (cc (rw (is_operator, e, f, g, k) at h))
      ]
    ]
  ]
]

-- the tokens of a command, as they are
abbrev pub group : List Bytes → Option (List Bytes)
group ts = some ts

-- a sequence that spells the tokens
pub record Spells (built : Option (List (Item (List Bytes)))) (tokens : List Bytes) : Type 0 where
  pub items : List (Item (List Bytes))
  pub total : built ≡ some items
  pub spelled : spell items ≡ tokens
  pub shape : IsAlternating items

last_command-Spells :
    (result : List (Item (List Bytes))) (current : List Bytes)
    → IsClosed result
    → Spells (last_command group result current) (spell result ++ current)
unfolding last_command push_command
last_command-Spells result [] h = record {
  items = result;
  total = refl;
  spelled = sym (append-nil (spell result));
  shape = IsAlternating-closed result h;
}
last_command-Spells result (t ∷ ts) h = record {
  items = result ++ (cmd (t ∷ ts) ∷ []);
  total = refl;
  spelled =
      spell-append result (cmd (t ∷ ts) ∷ [])
      ∙ ap (λ s. spell result ++ s) (unfold spell in append-nil (t ∷ ts));
  shape = IsAlternating-append result (t ∷ ts) h;
}

pub build_step-word :
    (result : List (Item (List Bytes))) (current : List Bytes) (token : Bytes)
    → is_operator token ≡ false
    → build_step group result current token ≡ some (result, current ++ (token ∷ []))
unfolding build_step
build_step-word result current token e = rw (build_step, e)

build_step-oper :
    (result : List (Item (List Bytes))) (current : List Bytes) (token : Bytes) (o : OpType)
    → is_operator token ≡ true
    → oper_of token ≡ some o
    → build_step group result current token ≡ some (result ++ (cmd current ∷ oper o ∷ []), [])
unfolding build_step push_command push_oper
build_step-oper result current token o e r =
    rw (build_step, e, r, push_command, push_oper, append_assoc)

spell-push :
    (result : List (Item (List Bytes))) (current tokens : List Bytes) (token : Bytes) (o : OpType)
    → spell_op o ≡ token
    → spell (result ++ (cmd current ∷ oper o ∷ [])) ++ tokens
      ≡ spell result ++ (current ++ (token ∷ tokens))
unfolding spell
spell-push result current tokens token o e =
    rw (spell-append result (cmd current ∷ oper o ∷ []), e) (simp append_assoc)

pub build_loop-Spells :
    (result : List (Item (List Bytes))) (current tokens : List Bytes)
    → IsClosed result
    → Spells (build_loop group result current tokens) (spell result ++ (current ++ tokens))
unfolding build_loop
build_loop-Spells result current [] h =
    rw (append-nil current) (last_command-Spells result current h)
build_loop-Spells result current (token ∷ tokens) h = elim (Bool-cases (is_operator token)) [
  | inr e ↦
      let ih = build_loop-Spells result (current ++ (token ∷ [])) tokens h in
      rw (build_loop, build_step-word result current token e) (rw append_assoc at ih)
  | inl e ↦
      let (o, r) = operator-Reads token e in
      let ih =
        build_loop-Spells (result ++ (cmd current ∷ oper o ∷ [])) [] tokens
          (IsClosed-append result current o r.no_delimiter h) in
      rw (build_loop, build_step-oper result current token o e r.reads)
        (rw (spell-push result current tokens token o r.written) at ih)
]
