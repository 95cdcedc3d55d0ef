-- ===== src/Qsort.antt =====
-- The sorts of p9/src/qsort.c. A border is given by the index behind it: `stop` is `right_border + 1`,
-- and `next` is `less + 1`, so that no index is below zero. An `int` is its bit pattern. The recursion
-- takes fuel; the number of elements is enough.
pub mod Shuffle
pub mod Partition
pub mod Sorted
pub mod Locality
pub mod Tasks
pub mod Program
pub mod Turns
pub mod Interleaving
use rest_technosphere_cpp_se.Base.{
  ℕ, zero, suc, ◌+◌, ◌-◌, ◌%◌, ◌^◌, Bool, true, false, Option, none, some, ltb, leb, if◌then◌else◌,
}
use rest_technosphere_cpp_se.Memory.{write}

-- the array `p_data`
abbrev pub Ints : Type 0
Ints = ℕ → ℕ

-- a number that is ordered as the `int` with these bits is
unfoldable pub rank : ℕ → ℕ
rank a = (a + 2 ^ 31) % 2 ^ 32

-- the three assignments of the exchange
unfoldable pub swap : Ints → ℕ → ℕ → Ints
unfolding write
swap a i j = write (write a i (a j)) j (a i)

-- The variables of the partition loop.
pub record Split : Type 0 where
  pub array : Ints
  pub next : ℕ

unfoldable pub partition_step : ℕ → ℕ → Split → Split
unfolding swap rank
partition_step pivot more s =
    if leb (rank (s.array more)) (rank pivot)
    then record { array = swap s.array s.next more; next = s.next + 1 }
    else s

-- the loop over `more`, with `rounds` rounds left
unfoldable pub partition_loop : ℕ → ℕ → ℕ → Split → Split
unfolding partition_step
partition_loop pivot zero more s = s
partition_loop pivot (suc rounds) more s =
    partition_loop pivot rounds (more + 1) (partition_step pivot more s)

-- the pivot is the last element
unfoldable pub partition : Ints → ℕ → ℕ → Split
unfolding partition_loop
partition a left stop =
    partition_loop (a (stop - 1)) (stop - left) left (record { array = a; next = left })

unfoldable pub std_qsort_inner : ℕ → Ints → ℕ → ℕ → Ints
unfolding partition
std_qsort_inner zero a left stop = a
std_qsort_inner (suc fuel) a left stop = elim (ltb (left + 1) stop) [
  | false ↦ a
  | true ↦
      let p = partition a left stop in
      std_qsort_inner fuel (std_qsort_inner fuel p.array left (p.next - 1)) p.next stop
]

unfoldable pub std_qsort : Ints → ℕ → Ints
unfolding std_qsort_inner
std_qsort a len = std_qsort_inner len a 0 len

-- The same recursion where the end of the fuel, which is the depth of the calls, is told apart.
unfoldable pub std_qsort_within : ℕ → Ints → ℕ → ℕ → Option Ints
unfolding partition
std_qsort_within zero a left stop = none
std_qsort_within (suc fuel) a left stop = elim (ltb (left + 1) stop) [
  | false ↦ some a
  | true ↦
      let p = partition a left stop in
      elim (std_qsort_within fuel p.array left (p.next - 1)) [
        | none ↦ none
        | some b ↦ std_qsort_within fuel b p.next stop
      ]
]

-- The two tasks of a call, before the `taskwait`, run one behind the other: `first` says whether the
-- task of the left part goes first.
unfoldable pub omp_qsort_inner : (ℕ → ℕ → Bool) → ℕ → Ints → ℕ → ℕ → Ints
unfolding partition std_qsort_inner
omp_qsort_inner first zero a left stop = a
omp_qsort_inner first (suc fuel) a left stop = elim (ltb (left + 1) stop) [
  | false ↦ a
  | true ↦
      let p = partition a left stop in
      elim (ltb 1000 (stop - 1 - left)) [
        | true ↦ elim (first left stop) [
          | true ↦
              omp_qsort_inner first fuel (omp_qsort_inner first fuel p.array left (p.next - 1))
                p.next stop
          | false ↦
              omp_qsort_inner first fuel (omp_qsort_inner first fuel p.array p.next stop) left
                (p.next - 1)
        ]
        | false ↦ std_qsort_inner fuel (std_qsort_inner fuel p.array left (p.next - 1)) p.next stop
      ]
]

unfoldable pub omp_qsort : (ℕ → ℕ → Bool) → Ints → ℕ → Ints
unfolding omp_qsort_inner
omp_qsort first a len = omp_qsort_inner first len a 0 len
