-- ===== src/Worker/Service.antt =====
-- What clients see: a stored value comes back, a deleted one does not, and the shared table stays
-- well formed whatever bytes they send.
use rest_technosphere_cpp_se.Base.{
  ℕ, ◌≡◌, ◌∙◌, ap, inl, inr, Option, none, some, ◌++◌, Bytes, codes, text_eq_refl, arith,
  Option-cases,
}
use rest_technosphere_cpp_se.Memory.{Mem, strcpy, c_string}
use rest_technosphere_cpp_se.Memory.Laws.{c_string-strcpy}
use rest_technosphere_cpp_se.Records.{Fits}
use rest_technosphere_cpp_se.PosixTable
use rest_technosphere_cpp_se.PosixTable.{Status, done, failed, value_size, contents}
use rest_technosphere_cpp_se.PosixTable.Meaning.{
  IsValid, get-contents, set-contents, set-IsValid, set_cases,
}
use rest_technosphere_cpp_se.PosixTable.Deletion.{del-contents, del-IsValid}
use rest_technosphere_cpp_se.Command.{
  Operation, cmd_get, cmd_set, cmd_del, cmd_none, cmd_term, UserCommand, get_key_param,
  get_value_param, read_from_buffer,
}
use rest_technosphere_cpp_se.Command.Params.{IsServable}
use rest_technosphere_cpp_se.Command.Tokens.{read_from_buffer-IsServable}
use rest_technosphere_cpp_se.Worker.{WorkerProcess, ok_or, answer, execute_query, conn_readcb}

module _ (query : UserCommand) (now : ℕ) (m : Mem) where
  -- the value is copied into the query's own block and read back from there
  answer_get-some :
      (value : Bytes)
      → Fits value_size value
      → contents m (get_key_param query) ≡ some value
      → (answer cmd_get query now m).0 ≡ codes "200 " ++ value
  unfolding answer get_value_param
  answer_get-some value v h =
      let found : (PosixTable.get m (get_key_param query)).0 ≡ some value =
        get-contents m (get_key_param query) ∙ h in
      let copied : c_string 960 (strcpy query.params 64 value) 64 ≡ value =
        c_string-strcpy 960 query.params 64 value v.text (omega (arith, v.fits)) in
      rw (answer, found) (ap (λ s. codes "200 " ++ s) copied)

  answer_get-none :
      contents m (get_key_param query) ≡ none
      → (answer cmd_get query now m).0 ≡ codes "201 Key not found"
  unfolding answer
  answer_get-none h =
      let found : (PosixTable.get m (get_key_param query)).0 ≡ none =
        get-contents m (get_key_param query) ∙ h in
      rw (answer, found)

module _ (stored asked : UserCommand) (now later : ℕ) (m : Mem) (w : IsValid m)
    (s : IsServable stored) where
  -- A `get` of the key that a `set` has just stored is answered with the stored value.
  pub set-get :
      (answer cmd_set stored now m).0 ≡ codes "200 SET OK"
      → get_key_param asked ≡ get_key_param stored
      → (answer cmd_get asked later (answer cmd_set stored now m).1).0
        ≡ codes "200 " ++ get_value_param stored
  unfolding answer ok_or
  set-get accepted same =
      let u = PosixTable.set m (get_key_param stored) (get_value_param stored) stored.ttl now in
      elim (set_cases m (get_key_param stored) (get_value_param stored) stored.ttl now) [
        | inr (e, _) ↦ absurd (ground arith)
        | inl e ↦ answer_get-some asked later u.memory (get_value_param stored) s.value (
            ap (contents u.memory) same
            ∙ set-contents m (get_key_param stored) (get_value_param stored) stored.ttl now w s.key
                s.value e (get_key_param stored) s.key
            ∙ rw (text_eq_refl (get_key_param stored)))
      ]

-- A `get` of a key that a `del` has been asked to delete is answered with "not found", whether the
-- key was there or not.
del-get :
    (deleted asked : UserCommand) (now later : ℕ) (m : Mem)
    → IsValid m
    → IsServable deleted
    → get_key_param asked ≡ get_key_param deleted
    → (answer cmd_get asked later (answer cmd_del deleted now m).1).0 ≡ codes "201 Key not found"
unfolding answer
del-get deleted asked now later m w s same =
    let u = PosixTable.del m (get_key_param deleted) in
    answer_get-none asked later u.memory (
      ap (contents u.memory) same
      ∙ del-contents m (get_key_param deleted) w s.key (get_key_param deleted) s.key
      ∙ rw (text_eq_refl (get_key_param deleted)))

answer-IsValid :
    (op : Operation) (query : UserCommand) (now : ℕ) (m : Mem)
    → IsValid m
    → IsServable query
    → IsValid (answer op query now m).1
unfolding answer
answer-IsValid cmd_get query now m w s =
    elim (Option-cases (PosixTable.get m (get_key_param query)).0) [
      | inl o ↦ rw (answer, o) w
      | inr (v, o) ↦ rw (answer, o) w
    ]
answer-IsValid cmd_set query now m w s =
    set-IsValid m (get_key_param query) (get_value_param query) query.ttl now w s.key s.value
answer-IsValid cmd_del query now m w s = del-IsValid m (get_key_param query) w
answer-IsValid cmd_none query now m w s = w
answer-IsValid cmd_term query now m w s = w

-- Whatever bytes a client sends, serving them keeps the shared table well formed.
pub conn_readcb-IsValid :
    (worker : WorkerProcess) (readln : ℕ → Option Bytes) (id now : ℕ)
    → IsValid worker.memory
    → IsValid (conn_readcb worker readln id now).memory
unfolding conn_readcb execute_query
conn_readcb-IsValid worker readln id now w =
    let query = read_from_buffer readln in
    answer-IsValid query.operation query now worker.memory w (read_from_buffer-IsServable readln)
