-- ===== src/Qsort/Program.antt =====
-- The sorts of p9/src/qsort.c access by access: a task reads and writes one element of the array at a
-- time, and tasks that run at once take their turns in any order.
use rest_technosphere_cpp_se.Base.{ℕ, zero, suc, ◌+◌, ◌-◌, true, false, ltb, leb, if◌then◌else◌}
use rest_technosphere_cpp_se.Memory.{write}
use rest_technosphere_cpp_se.Qsort.{Ints, rank}

-- What a task does next: nothing, a read and what follows for the value, a write, or two tasks and the
-- `taskwait` for both.
pub data Task : Type 0 where
  done : Task
  load : (i : ℕ) → (ℕ → Task) → Task
  store : (i v : ℕ) → Task → Task
  fork : Task → Task → Task

-- one turn of one of the tasks
pub data Step : Task → Ints → Task → Ints → Type 0 where
  loads : (i : ℕ) (k : ℕ → Task) (a : Ints) → Step (load i k) a (k (a i)) a
  stores : (i v : ℕ) (k : Task) (a : Ints) → Step (store i v k) a k (write a i v)
  lefts : {p p' : Task} (q : Task) {a b : Ints} → Step p a p' b → Step (fork p q) a (fork p' q) b
  rights : (p : Task) {q q' : Task} {a b : Ints} → Step q a q' b → Step (fork p q) a (fork p q') b
  joins : (a : Ints) → Step (fork done done) a done a

pub data Run : Task → Ints → Task → Ints → Type 0 where
  here : (t : Task) (a : Ints) → Run t a t a
  turn : {t u w : Task} {a b c : Ints} → Step t a u b → Run u b w c → Run t a w c

-- the loop of the partition, with `rounds` rounds left, and what follows for the last `next`
unfoldable pub loop_task : ℕ → ℕ → ℕ → ℕ → (ℕ → Task) → Task
unfolding rank
loop_task pivot zero more next k = k next
loop_task pivot (suc rounds) more next k =
    let small = loop_task pivot rounds (more + 1) (next + 1) k in
    let large = loop_task pivot rounds (more + 1) next k in
    load more (λ x.
      if leb (rank x) (rank pivot)
      then load next (λ tmp. load more (λ y. store next y (store more tmp small)))
      else large)

unfoldable pub partition_task : ℕ → ℕ → (ℕ → Task) → Task
unfolding loop_task
partition_task left stop k = load (stop - 1) (λ pivot. loop_task pivot (stop - left) left left k)

-- `std_qsort_inner`, and what follows
unfoldable pub std_task : ℕ → ℕ → ℕ → Task → Task
unfolding partition_task
std_task zero left stop k = k
std_task (suc fuel) left stop k = elim (ltb (left + 1) stop) [
  | false ↦ k
  | true ↦
      partition_task left stop (λ next. std_task fuel left (next - 1) (std_task fuel next stop k))
]

-- `omp_qsort_inner`
unfoldable pub omp_task : ℕ → ℕ → ℕ → Task
unfolding partition_task std_task
omp_task zero left stop = done
omp_task (suc fuel) left stop = elim (ltb (left + 1) stop) [
  | false ↦ done
  | true ↦ partition_task left stop (λ next. elim (ltb 1000 (stop - 1 - left)) [
    | true ↦ fork (omp_task fuel left (next - 1)) (omp_task fuel next stop)
    | false ↦ std_task fuel left (next - 1) (std_task fuel next stop done)
  ])
]
