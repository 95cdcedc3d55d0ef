-- ===== src/Examples/Sort.antt =====
-- The sorts of p9 on a small array with a negative number.
use rest_technosphere_cpp_se.Base.{ℕ, ◌≡◌, ◌≤◌, ◌-◌, refl, some, List, [], ◌∷◌, get_or, arith}
use rest_technosphere_cpp_se.Memory.{write}
use rest_technosphere_cpp_se.Qsort.{
  Ints, rank, swap, partition_step, partition_loop, partition, std_qsort_inner, std_qsort_within,
  std_qsort,
}
use rest_technosphere_cpp_se.Qsort.Shuffle.{occurrences}
use rest_technosphere_cpp_se.Qsort.Sorted.{IsSorted, std_qsort-IsSorted, std_qsort-terminates}
use rest_technosphere_cpp_se.Qsort.Program.{
  Task, done, loads, Run, here, turn, loop_task, partition_task, std_task, omp_task,
}
use rest_technosphere_cpp_se.Qsort.Turns.{exec, Run-done}
use rest_technosphere_cpp_se.Qsort.Interleaving.{Run-std_qsort}

-- 7, -3, 5, 7, 0, and the number 99 behind the array
abbrev sample : Ints
sample i = get_or (7 ∷ 4294967293 ∷ 5 ∷ 7 ∷ 0 ∷ 99 ∷ []) i 0

abbrev first_five : Ints → List ℕ
first_five a = a 0 ∷ a 1 ∷ a 2 ∷ a 3 ∷ a 4 ∷ a 5 ∷ []

sample_sorted : first_five (std_qsort sample 5) ≡ 4294967293 ∷ 0 ∷ 5 ∷ 7 ∷ 7 ∷ 99 ∷ []
unfolding std_qsort std_qsort_inner partition partition_loop partition_step swap rank write
sample_sorted = refl

std_qsort-IsSorted_example :
    IsSorted 0 5 (std_qsort sample 5)
    × ((v : ℕ) → occurrences v (std_qsort sample 5) 5 ≡ occurrences v sample 5)
    × ((i : ℕ) → 5 ≤ i → std_qsort sample 5 i ≡ sample i)
std_qsort-IsSorted_example = std_qsort-IsSorted sample 5

std_qsort-terminates_example : std_qsort_within 9 sample 0 5 ≡ some (std_qsort sample 5)
std_qsort-terminates_example = std_qsort-terminates sample 5 9 (omega arith)

-- what follows the partition of two elements
abbrev after_partition : ℕ → Task
after_partition n = std_task 1 0 (n - 1) (std_task 1 n 2 done)

-- the first turn, which reads the pivot
pivot_read : Run (omp_task 2 0 2) sample (loop_task (sample 1) 2 0 0 after_partition) sample
unfolding omp_task partition_task
pivot_read =
    turn (loads 1 (λ pivot. loop_task pivot 2 0 0 after_partition) sample)
      (here (loop_task (sample 1) 2 0 0 after_partition) sample)

-- enough elements for two tasks
whole_run : Run (omp_task 2000 0 2000) sample done (exec (omp_task 2000 0 2000) sample)
whole_run = Run-done (omp_task 2000 0 2000) sample

Run-std_qsort_example : exec (omp_task 2000 0 2000) sample ≡ std_qsort sample 2000
Run-std_qsort_example = Run-std_qsort sample (exec (omp_task 2000 0 2000) sample) 2000 whole_run
