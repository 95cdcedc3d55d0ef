-- ===== src/Shell/Processes.antt =====
-- The shell's own record of its processes, p4/src/LisonShell.cpp with the part of `CommandItem::run` that
-- the shell does for a child (p4/src/CommandItem.cpp). `fork`, `wait` and `kill` are the system's: their
-- results are arguments. Statuses are bit patterns of 32 bits, as in module Shell.
use rest_technosphere_cpp_se.Base.{
  ℕ, ◌-◌, ◌^◌, ◌≡◌, refl, ap, ◌∙◌, Bool, true, false, not, Option, none, some, List, [], ◌∷◌, ◌==◌,
  ◌&&◌, ◌||◌, sym, if◌then◌else◌, arith,
}
use rest_technosphere_cpp_se.Shell.{get_exit_code}

-- The static members; `child_processes` is the set of the process ids for which it is true.
pub record LisonShell : Type 0 where
  pub is_initialized : Bool
  pub master_pid : ℕ
  pub shell_pid : ℕ
  pub child_processes : ℕ → Bool

unfoldable pub insert : (ℕ → Bool) → ℕ → ℕ → Bool
insert set pid p = if pid == p then true else set p

unfoldable pub erase : (ℕ → Bool) → ℕ → ℕ → Bool
erase set pid p = if pid == p then false else set p

unfoldable pub init : LisonShell → ℕ → LisonShell
init s pid =
    if not s.is_initialized
    then record s { master_pid = pid; shell_pid = pid; is_initialized = true }
    else s

-- `interrupt_handler`: the processes that SIGINT is sent to, and whether the process exits
unfoldable pub interrupt_handler : LisonShell → ℕ → ℕ → (ℕ → Bool) × Bool
interrupt_handler s signum pid =
    if signum == 2 then (s.child_processes, not (pid == s.shell_pid)) else ((λ p. false), false)

-- the value -1 of `status` before `wait`
abbrev pub unset : ℕ
unset = 2 ^ 32 - 1

-- `run` in the shell after a `fork` that gave `pid`. `wait` gives a process and its status, or -1 when
-- there is no child left, and then leaves `status` as it is.
unfoldable pub run : LisonShell → ℕ → Option (ℕ × ℕ) → LisonShell × ℕ
unfolding insert erase
run s pid none =
    (record s { child_processes = erase (insert s.child_processes pid) (2 ^ 32 - 1) }, unset)
run s pid (some (waited, status)) =
    (record s { child_processes = erase (insert s.child_processes pid) waited }, status)

-- the commands of a sequence, one after the other
unfoldable pub run_all : LisonShell → List (ℕ × Option (ℕ × ℕ)) → LisonShell
unfolding run
run_all s [] = s
run_all s ((pid, waited) ∷ rest) = run_all (run s pid waited).0 rest

-- `run` once the child is on record and before `wait` returns
unfoldable pub start_child : LisonShell → ℕ → LisonShell
unfolding insert
start_child s pid = record s { child_processes = insert s.child_processes pid }

-- `wait` returned the process at some point
unfoldable pub was_waited_for : ℕ → List (ℕ × Option (ℕ × ℕ)) → Bool
was_waited_for p [] = false
was_waited_for p ((pid, none) ∷ rest) = was_waited_for p rest
was_waited_for p ((pid, some (waited, status)) ∷ rest) = waited == p || was_waited_for p rest

-- the process was started by a command, and neither the `wait` of that command nor a later one
-- returned it
unfoldable pub was_left : ℕ → List (ℕ × Option (ℕ × ℕ)) → Bool
unfolding was_waited_for
was_left p [] = false
was_left p ((pid, waited) ∷ rest) =
    pid == p && not (was_waited_for p ((pid, waited) ∷ rest)) || was_left p rest

run-child_processes :
    (s : LisonShell) (pid p : ℕ) (waited : Option (ℕ × ℕ))
    → (2 ^ 32 - 1 == p) ≡ false
    → (run s pid waited).0.child_processes p
      ≡ (not (was_waited_for p ((pid, waited) ∷ [])) && (pid == p || s.child_processes p))
unfolding run insert erase was_waited_for
run-child_processes s pid p none n = rw n (ground arith)
run-child_processes s pid p (some (waited, status)) n = ground arith

left_bool :
    (own now before later left : Bool)
    → (not later && (not now && (own || before)) || left)
      ≡ (not (now || later) && before || (own && not (now || later) || left))
left_bool own now before true left = ground arith
left_bool own now before false left = ground arith

was_waited_for-next :
    (p pid : ℕ) (waited : Option (ℕ × ℕ)) (rest : List (ℕ × Option (ℕ × ℕ)))
    → was_waited_for p ((pid, waited) ∷ rest)
      ≡ (was_waited_for p ((pid, waited) ∷ []) || was_waited_for p rest)
unfolding was_waited_for
was_waited_for-next p pid none rest = refl
was_waited_for-next p pid (some (waited, status)) rest = ground arith

run_all-child_processes :
    (runs : List (ℕ × Option (ℕ × ℕ))) (s : LisonShell) (p : ℕ)
    → (2 ^ 32 - 1 == p) ≡ false
    → (run_all s runs).child_processes p
      ≡ (not (was_waited_for p runs) && s.child_processes p || was_left p runs)
unfolding run_all was_left
run_all-child_processes [] s p n = unfold was_waited_for in ground arith
run_all-child_processes ((pid, waited) ∷ rest) s p n =
    run_all-child_processes rest (run s pid waited).0 p n
    ∙ ap (λ b. not (was_waited_for p rest) && b || was_left p rest)
        (run-child_processes s pid p waited n)
    ∙ left_bool (pid == p) (was_waited_for p ((pid, waited) ∷ [])) (s.child_processes p)
        (was_waited_for p rest) (was_left p rest)
    ∙ ap (λ b. not b && s.child_processes p || (pid == p && not b || was_left p rest))
        (sym (was_waited_for-next p pid waited rest))

-- Whatever `wait` has returned to the commands run so far, an ended background child included: SIGINT
-- then goes to a process exactly if it was on record before and no `wait` has returned it, or if a
-- command started it and neither that command's `wait` nor a later one has returned it; while a
-- further command is awaited, it goes to that command's process as well. The number -1 is no process.
-- A command whose `wait` finds no child is given the exit code 0.
pub interrupt_handler-run_all :
    (runs : List (ℕ × Option (ℕ × ℕ))) (s : LisonShell) (p own pid : ℕ)
    → (2 ^ 32 - 1 == p) ≡ false
    → let after = not (was_waited_for p runs) && s.child_processes p || was_left p runs in
      ((interrupt_handler (run_all s runs) 2 own).0 p ≡ after)
      × ((interrupt_handler (start_child (run_all s runs) pid) 2 own).0 p ≡ (pid == p || after))
      × (get_exit_code (run s pid none).1 ≡ 0)
unfolding interrupt_handler start_child insert run get_exit_code
interrupt_handler-run_all runs s p own pid n =
    let e = run_all-child_processes runs s p n in (e, rw e (ground arith), refl)
