-- ===== src/Exponent/Portions.antt =====
-- The portions of the processes, put together, are all the terms, each once and in order.
use rest_technosphere_cpp_se.Base.{
  ℕ, zero, suc, ◌+◌, ◌-◌, ◌*◌, ◌/◌, ◌%◌, ◌<◌, ◌≡◌, refl, ap, ◌∙◌, false, ◌==◌, List, [], ◌∷◌, ◌++◌,
  arith,
}
use mathlib.Core.List.{foldl}
use rest_technosphere_cpp_se.Exponent.{Doubles, portion_size, fact, sum_loop, local_result}

-- `count` numbers from `i` on
unfoldable pub range : ℕ → ℕ → List ℕ
range i zero = []
range i (suc count) = i ∷ range (i + 1) count

-- the terms of one process
unfoldable pub portion : ℕ → ℕ → ℕ → List ℕ
portion n num_procs rank = range (rank * (n / num_procs)) (portion_size n num_procs rank)

-- the portions of the first processes, one behind the other
unfoldable pub portions : ℕ → ℕ → ℕ → List ℕ
portions n num_procs zero = []
portions n num_procs (suc rank) = portions n num_procs rank ++ portion n num_procs rank

pub range-append : (i a b : ℕ) → range i a ++ range (i + a) b ≡ range i (a + b)
unfolding range
range-append i zero b =
    let e : i + 0 ≡ i = omega arith in let f : 0 + b ≡ b = omega arith in rw (e, f)
range-append i (suc a) b =
    let e : i + suc a ≡ i + 1 + a = omega arith in
    let f : suc a + b ≡ suc (a + b) = omega arith in
    rw (e, f) (ap (λ l. i ∷ l) (range-append (i + 1) a b))

range-join : (i a j b : ℕ) → i + a ≡ j → range i a ++ range j b ≡ range i (a + b)
range-join i a j b e = rw e at (range-append i a b)

-- before the last process all portions have the same size
portions-below :
    (n num_procs count : ℕ)
    → count < num_procs
    → portions n num_procs count ≡ range 0 (count * (n / num_procs))
unfolding portions portion portion_size
portions-below n num_procs zero h =
    unfold range in (let e : 0 * (n / num_procs) ≡ 0 = omega arith in rw e)
portions-below n num_procs (suc count) h =
    let q = n / num_procs in
    let other : (count == num_procs - 1) ≡ false = ground arith in
    let all : suc count * q ≡ count * q + q = grind arith in
    rw (other, portions-below n num_procs count (omega arith), all)
      (range-join 0 (count * q) (count * q) q (omega arith))

last_size : (n before : ℕ) → portion_size n (suc before) before ≡ n / suc before + n % suc before
unfolding portion_size
last_size n before = ground arith

-- the last process comes to the end
pub portions-suc : (n before : ℕ) → portions n (suc before) (suc before) ≡ range 0 n
unfolding portions portion
portions-suc n before =
    let q = n / suc before in
    let r = n % suc before in
    let whole : before * q + (q + r) ≡ n = grind arith in
    rw (last_size n before, portions-below n (suc before) before (omega arith))
      (range-join 0 (before * q) (before * q) (q + r) (omega arith) ∙ rw whole)

module _ (d : Doubles) where
  add_term : d.Double → ℕ → d.Double
  add_term sum i = d.add sum (d.div (d.of_int 1) (fact d i))

  sum_loop-foldl :
      (rounds i : ℕ) (result : d.Double)
      → sum_loop d rounds i result ≡ foldl add_term result (range i rounds)
  unfolding sum_loop range add_term
  sum_loop-foldl zero i result = refl
  sum_loop-foldl (suc rounds) i result = sum_loop-foldl rounds (i + 1) (add_term result i)

-- For any number of processes, the terms of their portions are those from 0 to N - 1, each once and
-- in order; and each process adds up the terms of its portion from left to right.
portions-range :
    (d : Doubles) (n num_procs rank : ℕ)
    → 0 < num_procs
    → (portions n num_procs num_procs ≡ range 0 n)
      × (local_result d n num_procs rank
          ≡ foldl
              (λ sum i. d.add sum (d.div (d.of_int 1) (fact d i)))
              (d.of_int 0)
              (portion n num_procs rank))
unfolding local_result portion add_term
portions-range d n zero rank h = absurd (omega arith)
portions-range d n (suc before) rank h = (
  portions-suc n before,
  sum_loop-foldl d (portion_size n (suc before) rank) (rank * (n / suc before)) (d.of_int 0),
)
