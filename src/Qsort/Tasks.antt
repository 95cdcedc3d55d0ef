-- ===== src/Qsort/Tasks.antt =====
-- `omp_qsort` gives what `std_qsort` gives, whatever the order of its tasks.
use rest_technosphere_cpp_se.Base.{
  ℕ, zero, suc, ◌+◌, ◌-◌, ◌≡◌, refl, ◌∙◌, Bool, ltb, ltb→lt, Bool-cases, inl, inr, arith,
}
use rest_technosphere_cpp_se.Qsort.{
  Ints, partition, std_qsort_inner, std_qsort, omp_qsort_inner, omp_qsort,
}
use rest_technosphere_cpp_se.Qsort.Partition.{partition-IsSplit}
use rest_technosphere_cpp_se.Qsort.Locality.{std_qsort_inner_comm}

-- The order of the tasks does not show.
omp_qsort_inner-eq :
    (first : ℕ → ℕ → Bool) (fuel : ℕ) (a : Ints) (left stop : ℕ)
    → omp_qsort_inner first fuel a left stop ≡ std_qsort_inner fuel a left stop
unfolding omp_qsort_inner std_qsort_inner
omp_qsort_inner-eq first zero a left stop = refl
omp_qsort_inner-eq first (suc fuel) a left stop = elim (Bool-cases (ltb (left + 1) stop)) [
  | inr e ↦ rw (e, omp_qsort_inner, std_qsort_inner)
  | inl e ↦
      let long = ltb→lt (left + 1) stop e in
      let p = partition a left stop in
      let d = partition-IsSplit a left stop (omega arith) in
      elim (Bool-cases (ltb 1000 (stop - 1 - left))) [
        | inr c ↦ rw (e, c, omp_qsort_inner, std_qsort_inner)
        | inl c ↦ elim (Bool-cases (first left stop)) [
          | inl f ↦
              rw
                (
                  e,
                  c,
                  f,
                  omp_qsort_inner,
                  std_qsort_inner,
                  omp_qsort_inner-eq first fuel p.array left (p.next - 1),
                )
                (omp_qsort_inner-eq first fuel (std_qsort_inner fuel p.array left (p.next - 1))
                  p.next stop)
          | inr f ↦
              rw
                (
                  e,
                  c,
                  f,
                  omp_qsort_inner,
                  std_qsort_inner,
                  omp_qsort_inner-eq first fuel p.array p.next stop,
                )
                (omp_qsort_inner-eq first fuel (std_qsort_inner fuel p.array p.next stop) left
                    (p.next - 1)
                  ∙ std_qsort_inner_comm fuel p.array left (p.next - 1) p.next stop (omega arith))
        ]
      ]
]

-- Whatever the order in which the tasks of the calls run, `omp_qsort` leaves the array that
-- `std_qsort` leaves.
pub omp_qsort-std_qsort :
    (first : ℕ → ℕ → Bool) (a : Ints) (len : ℕ) → omp_qsort first a len ≡ std_qsort a len
unfolding omp_qsort std_qsort
omp_qsort-std_qsort first a len = omp_qsort_inner-eq first len a 0 len
