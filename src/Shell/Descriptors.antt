-- ===== src/Shell/Descriptors.antt =====
-- The descriptors of a pipeline: the pipes of `build_command_sequence` (p4/src/CmdInterperter.cpp), the
-- redirections of a command and what `run` does with them in the child and in the shell
-- (p4/src/CommandItem.cpp). Descriptor tables are the system's: the operations and what POSIX says of
-- them are the record Descriptors.
use rest_technosphere_cpp_se.Base.{
  ℕ, suc, ◌≡◌, Bool, true, false, Option, none, some, List, [], ◌∷◌, ◌==◌, if◌then◌else◌,
}
use rest_technosphere_cpp_se.Shell.{OpType, Item, cmd, oper, is_pipeline}

abbrev pub or_else {ℓ} : {A : Type ℓ} → Option A → Option A → Option A
or_else none y = y
or_else (some x) y = some x

-- `at` is what a descriptor refers to in a table, if it is open. `dup2` fails and changes nothing if its
-- first argument is not open.
pub record Descriptors (File Table : Type 0) : Type 0 where
  pub at : Table → ℕ → Option File
  pub close : Table → ℕ → Table
  pub dup2 : Table → ℕ → ℕ → Table
  pub at-close : (t : Table) (fd n : ℕ) → at (close t fd) n ≡ (if fd == n then none else at t n)
  pub at-dup2 :
      (t : Table) (old new n : ℕ)
      → at (dup2 t old new) n ≡ (if new == n then or_else (at t old) (at t new) else at t n)

-- The fields of CommandItem that `run` reads, but for the arguments.
pub record Redirections : Type 0 where
  pub stdin_fd : ℕ
  pub stdout_fd : ℕ
  pub other_side_of_pipe_fd : ℕ
  pub stdin_redirected : Bool
  pub stdout_redirected : Bool

-- the initial values; the descriptors are not set
abbrev pub no_redirections : Redirections
no_redirections = record {
  stdin_fd = 0;
  stdout_fd = 0;
  other_side_of_pipe_fd = 0;
  stdin_redirected = false;
  stdout_redirected = false;
}

unfoldable pub redirect_stdin : Redirections → ℕ → ℕ → Redirections
redirect_stdin c fd other_side_fd = record c {
  stdin_fd = fd;
  stdin_redirected = true;
  other_side_of_pipe_fd = other_side_fd;
}

unfoldable pub redirect_stdout : Redirections → ℕ → ℕ → Redirections
redirect_stdout c fd other_side_fd = record c {
  stdout_fd = fd;
  stdout_redirected = true;
  other_side_of_pipe_fd = other_side_fd;
}

-- what comes behind a command that is done
unfoldable pub emit :
    Option Redirections → Option (List (Item Redirections)) → Option (List (Item Redirections))
emit _ none = none
emit none (some items) = some items
emit (some c) (some items) = some (cmd c ∷ items)

unfoldable pub emit_oper :
    OpType → Option (List (Item Redirections)) → Option (List (Item Redirections))
emit_oper o none = none
emit_oper o (some items) = some (oper o ∷ items)

-- The loop that sets up the pipes, with the command before and what `pipe` gives at each call, the end to
-- read first. `none` is a `|` without a command on a side, or no further pipe.
unfoldable pub connect :
    Option Redirections
    → List (ℕ × ℕ)
    → List (Item Redirections)
    → Option (List (Item Redirections))
unfolding redirect_stdin redirect_stdout emit emit_oper
connect before fds [] = emit before (some [])
connect before fds (cmd c ∷ rest) = emit before (connect (some c) fds rest)
connect before fds (oper o ∷ []) = if is_pipeline o then none else emit before (some (oper o ∷ []))
connect before fds (oper o ∷ oper p ∷ rest) =
    let more = emit before (emit_oper o (connect none fds (oper p ∷ rest))) in
    if is_pipeline o then none else more
connect before [] (oper o ∷ cmd c ∷ rest) =
    let more = emit before (emit_oper o (connect (some c) [] rest)) in
    if is_pipeline o then none else more
connect none ((reader, writer) ∷ fds) (oper o ∷ cmd c ∷ rest) =
    let more = emit_oper o (connect (some c) ((reader, writer) ∷ fds) rest) in
    if is_pipeline o then none else more
connect (some b) ((reader, writer) ∷ fds) (oper o ∷ cmd c ∷ rest) =
    let joined =
      emit (some (redirect_stdout b writer reader))
        (emit_oper o (connect (some (redirect_stdin c reader writer)) fds rest)) in
    let apart = emit (some b) (emit_oper o (connect (some c) ((reader, writer) ∷ fds) rest)) in
    if is_pipeline o then joined else apart

module _ {File Table : Type 0} (d : Descriptors File Table) where
  -- `other_side_of_pipe_fd`, closed unless it is 0
  unfoldable pub close_other : ℕ → Table → Table
  close_other other t = if other == 0 then t else d.close t other

  -- the redirection of one descriptor in the child
  unfoldable pub redirected : ℕ → ℕ → ℕ → Table → Table
  unfolding close_other
  redirected fileno fd other t =
      close_other other (d.close (d.dup2 (d.close t fileno) fd fileno) fd)

  -- the child's table when it calls `execvp`; descriptors with FD_CLOEXEC are still in it
  unfoldable pub child : Redirections → Table → Table
  unfolding redirected
  child c t =
      let other = if c.stdin_redirected then 0 else c.other_side_of_pipe_fd in
      let in_place =
        if c.stdin_redirected then redirected 0 c.stdin_fd c.other_side_of_pipe_fd t else t in
      if c.stdout_redirected then redirected 1 c.stdout_fd other in_place else in_place

  -- the shell's table when `run` returns
  unfoldable pub parent : Redirections → Table → Table
  parent c t =
      let closed = if c.stdin_redirected then d.close t c.stdin_fd else t in
      if c.stdout_redirected then d.close closed c.stdout_fd else closed

  -- Commands one after the other, from the n-th on: the tables of the children that are started, and
  -- the shell's, at the end or in a `wait` that never returns. Whether the n-th `wait` returns is
  -- `ends n`.
  unfoldable pub run_commands : (ℕ → Bool) → ℕ → Table → List Redirections → List Table × Table
  unfolding child parent
  run_commands ends n t [] = ([], t)
  run_commands ends n t (c ∷ cs) =
      let after = parent c t in
      let (tables, end) = run_commands ends (suc n) after cs in
      if ends n then (child c t ∷ tables, end) else (child c t ∷ [], after)
