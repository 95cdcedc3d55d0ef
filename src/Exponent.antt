-- ===== src/Exponent.antt =====
-- The sum 1/0! + 1/1! + … of p10/src/p10.cpp, split over the processes of an MPI run. Doubles are not
-- modelled: their type and operations are arguments. `MPI_Comm_size` and `MPI_Comm_rank` give the
-- arguments `num_procs` and `rank`. `MPI_Reduce` adds the processes' results up in an order and with brackets of
-- its own, which are an argument too.
pub mod Portions
pub mod Reduction
use rest_technosphere_cpp_se.Base.{
  ℕ, zero, suc, ◌+◌, ◌-◌, ◌*◌, ◌/◌, ◌%◌, Bool, ◌&&◌, ◌==◌, ltb, if◌then◌else◌,
}

-- The operations of `double` that the program uses.
pub record Doubles : Type 1 where
  pub Double : Type 0
  pub of_int : ℕ → Double
  pub add : Double → Double → Double
  pub mul : Double → Double → Double
  pub div : Double → Double → Double

-- the number of terms that a process adds up; the last one takes the rest too
unfoldable pub portion_size : ℕ → ℕ → ℕ → ℕ
portion_size n num_procs rank =
    if rank == num_procs - 1 && ltb 0 (n % num_procs)
    then n / num_procs + n % num_procs
    else n / num_procs

-- the brackets around the results of the processes, which are given by their ranks
pub data Order : Type 0 where
  process : ℕ → Order
  combine : Order → Order → Order

module _ (d : Doubles) where
  open d use {Double, of_int, add, mul, div}

  -- at a whole number
  unfoldable pub fact : ℕ → Double
  fact zero = of_int 1
  fact (suc n) = mul (of_int (suc n)) (fact n)

  -- the loop over `i`, with `rounds` rounds left
  unfoldable pub sum_loop : ℕ → ℕ → Double → Double
  unfolding fact
  sum_loop zero i result = result
  sum_loop (suc rounds) i result = sum_loop rounds (i + 1) (add result (div (of_int 1) (fact i)))

  unfoldable pub local_result : ℕ → ℕ → ℕ → Double
  unfolding sum_loop portion_size
  local_result n num_procs rank =
      sum_loop (portion_size n num_procs rank) (rank * (n / num_procs)) (of_int 0)

  -- what `MPI_Reduce` with `MPI_SUM` gives
  unfoldable pub global_result : ℕ → ℕ → Order → Double
  unfolding local_result
  global_result n num_procs (process rank) = local_result n num_procs rank
  global_result n num_procs (combine a b) =
      add (global_result n num_procs a) (global_result n num_procs b)
