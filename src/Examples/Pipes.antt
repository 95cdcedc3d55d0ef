-- ===== src/Examples/Pipes.antt =====
-- The descriptors of a line with three commands, over tables that are functions, and the processes of another.
use rest_technosphere_cpp_se.Base.{
  ℕ, ◌+◌, ◌≡◌, refl, ◌&&◌, ◌||◌, not, true, false, Option, none, some, List, [], ◌∷◌, ◌==◌,
  if◌then◌else◌, arith,
}
use rest_technosphere_cpp_se.Shell.{Item, run_sequence, get_exit_code}
use rest_technosphere_cpp_se.Shell.Processes.{
  LisonShell, init, run, run_all, start_child, was_left, was_waited_for, interrupt_handler,
  interrupt_handler-run_all,
}
use rest_technosphere_cpp_se.Shell.Descriptors.{
  Descriptors, Redirections, no_redirections, or_else, connect, run_commands,
}
use rest_technosphere_cpp_se.Shell.Redirection.{IsReady, source}
use rest_technosphere_cpp_se.Shell.Pipeline.{
  piped, links, standard_files, is_end, run_sequence-piped,
}

abbrev Table : Type 0
Table = ℕ → Option ℕ

abbrev close : Table → ℕ → Table
close t fd n = if fd == n then none else t n

abbrev dup2 : Table → ℕ → ℕ → Table
dup2 t old new n = if new == n then or_else (t old) (t new) else t n

abbrev tables : Descriptors ℕ Table
tables = record {
  at = λ t n. t n;
  close = close;
  dup2 = dup2;
  at-close = λ t fd n. refl;
  at-dup2 = λ t old new n. refl;
}

-- everything but 9 is open; the first command reads from a file, and there are two pipes
abbrev shell_table : Table
shell_table n = if n == 9 then none else some (n + 100)

abbrev from_file : Redirections
from_file = record no_redirections { stdin_fd = 3; stdin_redirected = true }

abbrev two_pipes : List (ℕ × ℕ)
two_pipes = (4, 5) ∷ (6, 7) ∷ []

from_file-IsReady : IsReady from_file two_pipes
from_file-IsReady = record { output = refl; input = λ e. omega arith; other = λ e. absurd (cc) }

-- what the three commands read and write
three_links :
    links tables shell_table (source tables from_file shell_table) two_pipes
    ≡ (some 103, some 105) ∷ (some 104, some 107) ∷ (some 106, some 101) ∷ []
unfolding links source
three_links = refl

run_sequence-piped_example :
    (items : List (Item Redirections)) × (connect none two_pipes (piped from_file two_pipes)
      ≡ some items)
    × (standard_files tables
          (run_commands tables (λ n. true) 0 shell_table (run_sequence (λ n c. 256) items)).0
        ≡ links tables shell_table (source tables from_file shell_table) two_pipes)
    × ((n : ℕ)
        → (run_commands tables (λ n. true) 0 shell_table (run_sequence (λ n c. 256) items)).1 n ≡ (
            if (from_file.stdin_redirected && from_file.stdin_fd == n) || is_end n two_pipes
            then none
            else shell_table n))
run_sequence-piped_example =
    run_sequence-piped tables (λ n c. 256) (λ n. true) two_pipes from_file shell_table (λ n. refl)
      from_file-IsReady (omega arith)

-- 15 was on record before; the second command's `wait` returns a background child, 20, and the third's
-- the first child of all, so that 12 and 13 are left
abbrev shell : LisonShell
shell =
    init
      (record {
        is_initialized = false;
        master_pid = 0;
        shell_pid = 0;
        child_processes = λ p. p == 15;
      })
      10

abbrev started : List (ℕ × Option (ℕ × ℕ))
started = (11, none) ∷ (12, some (20, 0)) ∷ (13, some (11, 256)) ∷ []

left_pids :
    (was_left 11 started ≡ false)
    × (was_left 12 started ≡ true)
    × (was_left 13 started ≡ true)
    × (was_waited_for 15 started ≡ false)
unfolding was_left was_waited_for
left_pids = (refl, refl, refl, refl)

interrupt_handler-run_all_example :
    let after =
      not (was_waited_for 12 started) && shell.child_processes 12 || was_left 12 started in
    ((interrupt_handler (run_all shell started) 2 10).0 12 ≡ after)
    × ((interrupt_handler (start_child (run_all shell started) 14) 2 10).0 12 ≡ (14 == 12 || after))
    × (get_exit_code (run shell 14 none).1 ≡ 0)
interrupt_handler-run_all_example = interrupt_handler-run_all started shell 12 10 14 refl
