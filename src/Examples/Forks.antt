-- ===== src/Examples/Forks.antt =====
-- The forks of server 2.0 with descriptor tables that are lists; the second `fork` fails.
use rest_technosphere_cpp_se.Base.{
  ℕ, zero, suc, ◌≡◌, ◌≤◌, refl, true, false, Option, none, some, List, [], ◌∷◌, ◌++◌, length, ℤ,
  pos, negsuc, ◌==◌, if◌then◌else◌, arith, ◌+◌,
}
use rest_technosphere_cpp_se.Forks.{
  File, first, second, other, Sockets, Forked, Master, contains, insert, fork_worker, fork_workers,
  fork_cleaner, main, signal_cb,
}
use rest_technosphere_cpp_se.Forks.Channels.{main-at}

abbrev Files : Type 0
Files = List (Option File)

abbrev file_at : Files → ℕ → Option File
file_at [] n = none
file_at (f ∷ fs) zero = f
file_at (f ∷ fs) (suc n) = file_at fs n

abbrev without : Files → ℕ → Files
without [] fd = []
without (f ∷ fs) zero = none ∷ fs
without (f ∷ fs) (suc fd) = f ∷ without fs fd

abbrev with_pair : ℕ → Files → ℕ × ℕ × Files
with_pair k t = (length t, suc (length t), t ++ (some (first k) ∷ some (second k) ∷ []))

file_at-without :
    (t : Files) (fd n : ℕ) → file_at (without t fd) n ≡ (if fd == n then none else file_at t n)
file_at-without [] fd n = ground arith
file_at-without (f ∷ fs) zero zero = refl
file_at-without (f ∷ fs) zero (suc n) = ground arith
file_at-without (f ∷ fs) (suc fd) zero = ground arith
file_at-without (f ∷ fs) (suc fd) (suc n) = let ih = file_at-without fs fd n in ground arith

file_at-behind : (t : Files) (n : ℕ) → length t ≤ n → file_at t n ≡ none
file_at-behind [] n h = refl
file_at-behind (f ∷ fs) zero h = absurd (omega arith)
file_at-behind (f ∷ fs) (suc n) h = file_at-behind fs n (omega arith)

with_pair-free :
    (t : Files)
    → (file_at t (length t) ≡ none)
      × (file_at t (suc (length t)) ≡ none)
      × ((length t == suc (length t)) ≡ false)
with_pair-free t = (
  file_at-behind t (length t) (omega arith),
  file_at-behind t (suc (length t)) (omega arith),
  ground arith,
)

file_at-with_pair :
    (k : ℕ) (t : Files) (n : ℕ)
    → file_at (t ++ (some (first k) ∷ some (second k) ∷ [])) n ≡ (
        if length t == n
        then some (first k)
        else if suc (length t) == n
        then some (second k)
        else file_at t n)
file_at-with_pair k [] zero = refl
file_at-with_pair k [] (suc zero) = refl
file_at-with_pair k [] (suc (suc n)) = ground arith
file_at-with_pair k (f ∷ fs) zero = ground arith
file_at-with_pair k (f ∷ fs) (suc n) = let ih = file_at-with_pair k fs n in ground arith

abbrev files : Sockets Files
files = record {
  at = file_at;
  close = without;
  socketpair = with_pair;
  at-close = file_at-without;
  socketpair-free = λ k t. with_pair-free t;
  at-socketpair = file_at-with_pair;
}

abbrev begin : Master Files
begin = record {
  table = some (other 0) ∷ some (other 1) ∷ some (other 2) ∷ [];
  fd_channel_hub = λ i. 0;
  workers = λ i. none;
  child_procs = [];
  cleaner = none;
  serves = false;
}

abbrev pids : ℕ → ℤ
pids n = if n == 1 then negsuc 0 else pos (100 + n)

-- the last worker, with its own end under 10 and the master's ends for the workers before it under 3, 5 and 7
abbrev last : Forked Files
last = record {
  endpoint = 10;
  table =
      some (other 0)
      ∷ some (other 1)
      ∷ some (other 2)
      ∷ some (first 0)
      ∷ none
      ∷ some (first 1)
      ∷ none
      ∷ some (first 2)
      ∷ none
      ∷ none
      ∷ some (second 3)
      ∷ [];
}

main-last : (main files pids begin).workers 3 ≡ some last
unfolding main fork_cleaner fork_workers fork_worker insert contains
main-last = refl

main-at_example :
    (file_at (main files pids begin).table ((main files pids begin).fd_channel_hub 1)
      ≡ some (first 1))
    × (contains (negsuc 0) (signal_cb (main files pids begin)) ≡ true)
    × (contains (pos 104) (signal_cb (main files pids begin)) ≡ true)
    × ((main files pids begin).serves ≡ true)
    × (file_at last.table 10 ≡ some (second 3))
    × (file_at last.table ((main files pids begin).fd_channel_hub 2) ≡ some (first 2))
main-at_example =
    main-at files pids begin 1 2 3 last (omega arith) (omega arith) (omega arith) main-last
