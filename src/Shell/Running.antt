-- ===== src/Shell/Running.antt =====
-- The run of a sequence.
use rest_technosphere_cpp_se.Base.{
  ℕ, suc, ◌-◌, ◌^◌, ◌≡◌, ◌≢◌, refl, ap, inl, inr, false, List, [], ◌∷◌, ◌++◌, Bool-cases,
}
use rest_technosphere_cpp_se.Shell.{
  OpType, op_and, op_or, op_pipeline, op_run_in_background, op_delimiter, Item, cmd, oper,
  has_exited, get_exit_code, stops, run_from, run_sequence,
}

-- the commands of a sequence
unfoldable pub commands {ℓ} : {A : Type ℓ} → List (Item A) → List A
commands [] = []
commands (cmd c ∷ rest) = c ∷ commands rest
commands (oper o ∷ rest) = commands rest

-- the operators of a sequence are none but `&&`, `|`, `&` and `;`
abbrev pub HasNoOr {ℓ} : {A : Type ℓ} → List (Item A) → Type 0
HasNoOr [] = Unit
HasNoOr (cmd c ∷ rest) = HasNoOr rest
HasNoOr (oper o ∷ rest) = (o ≢ op_or) × HasNoOr rest

module _ {ℓ} {A : Type ℓ} (status : ℕ → A → ℕ) where
  run_from-prefix :
      (n code : ℕ) (items : List (Item A))
      → (skipped : List A) × (run_from status n code items ++ skipped ≡ commands items)
  unfolding run_from commands
  run_from-prefix n code [] = ([], refl)
  run_from-prefix n code (cmd c ∷ rest) =
      let (skipped, e) = run_from-prefix (suc n) (get_exit_code (status n c)) rest in
      (skipped, ap (◌∷◌ c) e)
  run_from-prefix n code (oper o ∷ rest) = elim (Bool-cases (stops o code)) [
    | inl s ↦ (commands rest, rw (run_from, s))
    | inr s ↦ let (skipped, e) = run_from-prefix n code rest in (skipped, rw (run_from, s) e)
  ]

  -- Whatever the commands return, the shell runs the commands of the line in order from the first on, up
  -- to some place, and none behind it.
  run_sequence-prefix :
      (items : List (Item A))
      → (skipped : List A) × (run_sequence status items ++ skipped ≡ commands items)
  unfolding run_sequence
  run_sequence-prefix items = run_from-prefix 0 (2 ^ 32 - 1) items

  run_from_all :
      (n : ℕ) (items : List (Item A))
      → HasNoOr items
      → ((k : ℕ) (c : A) → get_exit_code (status k c) ≡ 0)
      → run_from status n 0 items ≡ commands items
  unfolding run_from commands
  run_from_all n [] h z = refl
  run_from_all n (cmd c ∷ rest) h z = rw (z n c) (ap (◌∷◌ c) (run_from_all (suc n) rest h z))
  run_from_all n (oper o ∷ rest) h z =
      let goes_on : stops o 0 ≡ false = zero_goes_on o h.0 in
      rw (run_from, goes_on) (run_from_all n rest h.1 z)
    where
      zero_goes_on : (p : OpType) → p ≢ op_or → stops p 0 ≡ false
      zero_goes_on op_or d = absurd (d refl)
      zero_goes_on op_and d = refl
      zero_goes_on op_pipeline d = refl
      zero_goes_on op_run_in_background d = refl
      zero_goes_on op_delimiter d = refl

  -- If every command counts as successful and the line has no `||`, every command of it is run.
  run_sequence_all :
      (c : A) (rest : List (Item A))
      → HasNoOr rest
      → ((k : ℕ) (d : A) → get_exit_code (status k d) ≡ 0)
      → run_sequence status (cmd c ∷ rest) ≡ commands (cmd c ∷ rest)
  unfolding run_sequence run_from commands
  run_sequence_all c rest h z = rw (z 0 c) (ap (◌∷◌ c) (run_from_all 1 rest h z))

  -- A command that a signal has ended counts as successful: the command behind `&&` is run after it, and
  -- the one behind `||` is not.
  run_sequence_signal :
      (a b : A) (rest : List (Item A))
      → has_exited (status 0 a) ≡ false
      → (run_sequence status (cmd a ∷ oper op_and ∷ cmd b ∷ rest)
          ≡ a ∷ b ∷ run_from status 2 (get_exit_code (status 1 b)) rest)
        × (run_sequence status (cmd a ∷ oper op_or ∷ cmd b ∷ rest) ≡ a ∷ [])
  unfolding run_sequence run_from get_exit_code
  run_sequence_signal a b rest h =
      let z : get_exit_code (status 0 a) ≡ 0 = rw (get_exit_code, h) in
      (rw (z, get_exit_code), rw (z, get_exit_code))
