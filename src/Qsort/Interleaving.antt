-- ===== src/Qsort/Interleaving.antt =====
-- `omp_qsort` access by access: every interleaving of its tasks sorts as `std_qsort` does.
use rest_technosphere_cpp_se.Base.{
  ℕ, zero, suc, ◌+◌, ◌-◌, ◌≤◌, ◌<◌, ◌≡◌, refl, sym, ap, ◌∙◌, true, ltb, leb, ltb→lt, Bool-cases,
  inl, inr, arith,
}
use rest_technosphere_cpp_se.Qsort.{
  Ints, rank, swap, partition_step, partition_loop, partition, std_qsort_inner, std_qsort,
  omp_qsort_inner, omp_qsort,
}
use rest_technosphere_cpp_se.Qsort.Tasks.{omp_qsort-std_qsort}
use rest_technosphere_cpp_se.Qsort.Program.{
  Task, done, fork, Run, loop_task, partition_task, std_task, omp_task,
}
use rest_technosphere_cpp_se.Qsort.Turns.{exec, IsWithin, IsWithin-wider, Run-exec, Run-done}

exec-loop_task :
    (pivot rounds more next : ℕ) (k : ℕ → Task) (a : Ints)
    → let s = partition_loop pivot rounds more (record { array = a; next = next }) in
      exec (loop_task pivot rounds more next k) a ≡ exec (k s.next) s.array
unfolding exec loop_task partition_loop partition_step swap
exec-loop_task pivot zero more next k a = refl
exec-loop_task pivot (suc rounds) more next k a =
    elim (Bool-cases (leb (rank (a more)) (rank pivot))) [
      | inl e ↦
          rw (exec, e, partition_loop, partition_step)
            (exec-loop_task pivot rounds (more + 1) (next + 1) k (swap a next more))
      | inr e ↦
          rw (exec, e, partition_loop, partition_step)
            (exec-loop_task pivot rounds (more + 1) next k a)
    ]

exec-partition_task :
    (left stop : ℕ) (k : ℕ → Task) (a : Ints)
    → exec (partition_task left stop k) a
      ≡ exec (k (partition a left stop).next) (partition a left stop).array
unfolding exec partition_task partition
exec-partition_task left stop k a = exec-loop_task (a (stop - 1)) (stop - left) left left k a

exec-std_task :
    (fuel left stop : ℕ) (k : Task) (a : Ints)
    → exec (std_task fuel left stop k) a ≡ exec k (std_qsort_inner fuel a left stop)
unfolding std_task std_qsort_inner
exec-std_task zero left stop k a = refl
exec-std_task (suc fuel) left stop k a = elim (Bool-cases (ltb (left + 1) stop)) [
  | inr e ↦ rw (e, std_task, std_qsort_inner)
  | inl e ↦
      let p = partition a left stop in
      let rest = λ (n : ℕ). std_task fuel left (n - 1) (std_task fuel n stop k) in
      rw (e, std_task, std_qsort_inner)
        (exec-partition_task left stop rest a
          ∙ exec-std_task fuel left (p.next - 1) (std_task fuel p.next stop k) p.array
          ∙ exec-std_task fuel p.next stop k (std_qsort_inner fuel p.array left (p.next - 1)))
]

exec-omp_task :
    (fuel left stop : ℕ) (a : Ints)
    → exec (omp_task fuel left stop) a ≡ omp_qsort_inner (λ l s. true) fuel a left stop
unfolding omp_task omp_qsort_inner exec
exec-omp_task zero left stop a = refl
exec-omp_task (suc fuel) left stop a = elim (Bool-cases (ltb (left + 1) stop)) [
  | inr e ↦ rw (e, omp_task, omp_qsort_inner)
  | inl e ↦
      let p = partition a left stop in
      elim (Bool-cases (ltb 1000 (stop - 1 - left))) [
        | inr c ↦
            let rest = λ (n : ℕ). std_task fuel left (n - 1) (std_task fuel n stop done) in
            rw (e, c, omp_task, omp_qsort_inner)
              (exec-partition_task left stop rest a
                ∙ exec-std_task fuel left (p.next - 1) (std_task fuel p.next stop done) p.array
                ∙ exec-std_task fuel p.next stop done
                    (std_qsort_inner fuel p.array left (p.next - 1)))
        | inl c ↦
            let rest = λ (n : ℕ). fork (omp_task fuel left (n - 1)) (omp_task fuel n stop) in
            rw (e, c, omp_task, omp_qsort_inner)
              (exec-partition_task left stop rest a
                ∙ ap (exec (omp_task fuel p.next stop))
                    (exec-omp_task fuel left (p.next - 1) p.array)
                ∙ exec-omp_task fuel p.next stop
                    (omp_qsort_inner (λ l s. true) fuel p.array left (p.next - 1)))
      ]
]

IsWithin-loop_task :
    (low high left stop : ℕ) (pivot rounds more next : ℕ) (k : ℕ → Task)
    → low ≤ left
    → stop ≤ high
    → left ≤ next
    → next ≤ more
    → more + rounds ≤ stop
    → ((n : ℕ) → left ≤ n → n ≤ stop → IsWithin low high (k n))
    → IsWithin low high (loop_task pivot rounds more next k)
unfolding loop_task
IsWithin-loop_task low high left stop pivot zero more next k l h ln nm ms w =
    w next ln (omega arith)
IsWithin-loop_task low high left stop pivot (suc rounds) more next k l h ln nm ms w =
    let small =
      IsWithin-loop_task low high left stop pivot rounds (more + 1) (next + 1) k l h (omega arith)
        (omega arith) (omega arith) w in
    let large =
      IsWithin-loop_task low high left stop pivot rounds (more + 1) next k l h ln (omega arith)
        (omega arith) w in
    (
      omega arith,
      omega arith,
      λ x. elim (Bool-cases (leb (rank x) (rank pivot))) [
        | inl e ↦ rw e (
          omega arith,
          omega arith,
          λ tmp. (
            omega arith,
            omega arith,
            λ y. (omega arith, omega arith, (omega arith, omega arith, small)),
          ),
        )
        | inr e ↦ rw e large
      ],
    )

IsWithin-partition_task :
    (low high left stop : ℕ) (k : ℕ → Task)
    → low ≤ left
    → stop ≤ high
    → left < stop
    → ((n : ℕ) → left ≤ n → n ≤ stop → IsWithin low high (k n))
    → IsWithin low high (partition_task left stop k)
unfolding partition_task
IsWithin-partition_task low high left stop k l h long w = (
  omega arith,
  omega arith,
  λ pivot.
      IsWithin-loop_task low high left stop pivot (stop - left) left left k l h (omega arith)
        (omega arith) (omega arith) w,
)

IsWithin-std_task :
    (fuel low high left stop : ℕ) (k : Task)
    → low ≤ left
    → stop ≤ high
    → IsWithin low high k
    → IsWithin low high (std_task fuel left stop k)
unfolding std_task
IsWithin-std_task zero low high left stop k l h w = w
IsWithin-std_task (suc fuel) low high left stop k l h w = elim (Bool-cases (ltb (left + 1) stop)) [
  | inr e ↦ rw (e, std_task) w
  | inl e ↦
      let long = ltb→lt (left + 1) stop e in
      let rest = λ (n : ℕ). std_task fuel left (n - 1) (std_task fuel n stop k) in
      rw (e, std_task)
        (IsWithin-partition_task low high left stop rest l h (omega arith) (λ n ln ns.
          IsWithin-std_task fuel low high left (n - 1) (std_task fuel n stop k) l (omega arith)
            (IsWithin-std_task fuel low high n stop k (omega arith) h w)))
]

IsWithin-omp_task : (fuel left stop : ℕ) → IsWithin left stop (omp_task fuel left stop)
unfolding omp_task
IsWithin-omp_task zero left stop = tt
IsWithin-omp_task (suc fuel) left stop = elim (Bool-cases (ltb (left + 1) stop)) [
  | inr e ↦ rw (e, omp_task) tt
  | inl e ↦
      let long = ltb→lt (left + 1) stop e in
      elim (Bool-cases (ltb 1000 (stop - 1 - left))) [
        | inr c ↦
            let rest = λ (n : ℕ). std_task fuel left (n - 1) (std_task fuel n stop done) in
            rw (e, c, omp_task)
              (IsWithin-partition_task left stop left stop rest (omega arith) (omega arith)
                (omega arith)
                (λ n ln ns.
                  IsWithin-std_task fuel left stop left (n - 1) (std_task fuel n stop done)
                    (omega arith) (omega arith)
                    (IsWithin-std_task fuel left stop n stop done ln (omega arith) tt)))
        | inl c ↦
            let rest = λ (n : ℕ). fork (omp_task fuel left (n - 1)) (omp_task fuel n stop) in
            rw (e, c, omp_task)
              (IsWithin-partition_task left stop left stop rest (omega arith) (omega arith)
                (omega arith)
                (λ n ln ns. (
                  n,
                  ln,
                  ns,
                  IsWithin-wider (omp_task fuel left (n - 1)) left (n - 1) left n (omega arith)
                      (omega arith) (IsWithin-omp_task fuel left (n - 1)),
                  IsWithin-omp_task fuel n stop,
                )))
      ]
]

exec-omp_task-std_qsort : (a : Ints) (len : ℕ) → exec (omp_task len 0 len) a ≡ std_qsort a len
exec-omp_task-std_qsort a len =
    exec-omp_task len 0 len a ∙ unfold omp_qsort in (omp_qsort-std_qsort (λ l s. true) a len)

-- However the tasks of `omp_qsort` take turns, access by access: when all have ended, the array is the
-- one that `std_qsort` leaves.
pub Run-std_qsort : (a b : Ints) (len : ℕ) → Run (omp_task len 0 len) a done b → b ≡ std_qsort a len
unfolding exec
Run-std_qsort a b len r =
    sym (Run-exec 0 len r (IsWithin-omp_task len 0 len)) ∙ exec-omp_task-std_qsort a len

-- From every state that the tasks reach they can come to their end, with the array of `std_qsort`.
Run-continues :
    (a b : Ints) (len : ℕ) (t : Task)
    → Run (omp_task len 0 len) a t b
    → Run t b done (std_qsort a len)
Run-continues a b len t r =
    rw (← exec-omp_task-std_qsort a len, Run-exec 0 len r (IsWithin-omp_task len 0 len))
      (Run-done t b)
