-- ===== src/Shell/Building.antt =====
-- `build_command_sequence` (p4/src/CmdInterperter.cpp) with the construction of the commands, which can
-- fail, and the loop that sets up the pipes.
use rest_technosphere_cpp_se.Base.{Bool, true, false, Option, none, some, List, [], ◌∷◌}
use rest_technosphere_cpp_se.Shell.{Item, cmd, oper, is_pipeline}

-- a sequence that ends in `|`
unfoldable pub ends_in_pipe {ℓ} : {A : Type ℓ} → List (Item A) → Bool
ends_in_pipe [] = false
ends_in_pipe (cmd c ∷ []) = false
ends_in_pipe (oper o ∷ []) = is_pipeline o
ends_in_pipe (x ∷ y ∷ rest) = ends_in_pipe (y ∷ rest)

abbrev is_found {ℓ} : {A : Type ℓ} → Option A → Bool
is_found none = false
is_found (some x) = true
