-- ===== src/Exponent/Reduction.antt =====
-- The number that the program prints, as a sum in which every term stands once.
use rest_technosphere_cpp_se.Base.{
  ℕ, zero, suc, ◌+◌, ◌*◌, ◌/◌, ◌≡◌, ◌<◌, refl, ap, sym, ◌∙◌, ◌&&◌, List, [], ◌∷◌, ◌++◌, ltb, leb,
  ◌==◌, if◌then◌else◌, arith,
}
use mathlib.Core.List.{foldr, Perm}
use mathlib.Core.List.Perm
use native.Mathlib.Nat.{ℕ_set}
use rest_technosphere_cpp_se.Exponent.{
  Doubles, Order, process, combine, portion_size, fact, sum_loop, local_result, global_result,
}
use rest_technosphere_cpp_se.Exponent.Portions.{
  range, portion, portions, range-append, portions-suc,
}

-- A sum as it is written: 0.0, a sum and the term 1.0 / fact(i) behind it, and two sums added up.
pub data Sum : Type 0 where
  start : Sum
  term : Sum → ℕ → Sum
  plus : Sum → Sum → Sum

pub eval : (d : Doubles) → Sum → d.Double
eval d start = d.of_int 0
eval d (term s i) = d.add (eval d s) (d.div (d.of_int 1) (fact d i))
eval d (plus s t) = d.add (eval d s) (eval d t)

-- how often a term stands in it
unfoldable pub occurrences : ℕ → Sum → ℕ
occurrences i start = 0
occurrences i (term s j) = occurrences i s + (if i == j then 1 else 0)
occurrences i (plus s t) = occurrences i s + occurrences i t

-- `rounds` terms from `i` on, behind a sum
unfoldable pub written_from : ℕ → ℕ → Sum → Sum
written_from zero i s = s
written_from (suc rounds) i s = written_from rounds (i + 1) (term s i)

-- the sum of all processes
unfoldable pub written : ℕ → ℕ → Order → Sum
unfolding written_from
written n num_procs (process rank) =
    written_from (portion_size n num_procs rank) (rank * (n / num_procs)) start
written n num_procs (combine a b) = plus (written n num_procs a) (written n num_procs b)

unfoldable pub ranks : Order → List ℕ
ranks (process rank) = rank ∷ []
ranks (combine a b) = ranks a ++ ranks b

count : ℕ → List ℕ → ℕ
count i [] = 0
count i (j ∷ js) = (if i == j then 1 else 0) + count i js

count-append : (i : ℕ) (xs ys : List ℕ) → count i (xs ++ ys) ≡ count i xs + count i ys
unfolding count
count-append i [] ys = omega arith
count-append i (x ∷ xs) ys = omega (arith, count-append i xs ys)

count-range : (i j k : ℕ) → count i (range j k) ≡ (if leb j i && ltb i (j + k) then 1 else 0)
unfolding count range
count-range i j zero = ground arith
count-range i j (suc k) = ground (arith, count-range i (j + 1) k)

eval-written_from :
    (d : Doubles) (rounds i : ℕ) (s : Sum)
    → eval d (written_from rounds i s) ≡ sum_loop d rounds i (eval d s)
unfolding eval written_from sum_loop
eval-written_from d zero i s = refl
eval-written_from d (suc rounds) i s = eval-written_from d rounds (i + 1) (term s i)

eval-written :
    (d : Doubles) (n num_procs : ℕ) (order : Order)
    → eval d (written n num_procs order) ≡ global_result d n num_procs order
unfolding eval written global_result local_result
eval-written d n num_procs (process rank) =
    eval-written_from d (portion_size n num_procs rank) (rank * (n / num_procs)) start
eval-written d n num_procs (combine a b) =
    rw (eval-written d n num_procs a, eval-written d n num_procs b) refl

occurrences-written_from :
    (i rounds j : ℕ) (s : Sum)
    → occurrences i (written_from rounds j s) ≡ occurrences i s + count i (range j rounds)
unfolding occurrences written_from count range
occurrences-written_from i zero j s = omega arith
occurrences-written_from i (suc rounds) j s =
    omega (arith, occurrences-written_from i rounds (j + 1) (term s j))

-- how often the portions of some processes have a term
module _ (n num_procs i : ℕ) where
  share : ℕ → ℕ → ℕ
  share rank rest = count i (portion n num_procs rank) + rest

  share-foldr : (xs ys : List ℕ) → foldr share 0 (xs ++ ys) ≡ foldr share 0 xs + foldr share 0 ys
  unfolding share
  share-foldr [] ys = omega arith
  share-foldr (x ∷ xs) ys = omega (arith, share-foldr xs ys)

  occurrences-written :
      (order : Order) → occurrences i (written n num_procs order) ≡ foldr share 0 (ranks order)
  unfolding occurrences written ranks portion share
  occurrences-written (process rank) =
      occurrences-written_from i (portion_size n num_procs rank) (rank * (n / num_procs)) start
      ∙ omega arith
  occurrences-written (combine a b) =
      rw (occurrences-written a, occurrences-written b) (sym (share-foldr (ranks a) (ranks b)))

  range_last : (k : ℕ) → range 0 (suc k) ≡ range 0 k ++ (k ∷ [])
  unfolding range
  range_last k =
      let e : 0 + k ≡ k = omega arith in
      let f : k + 1 ≡ suc k = omega arith in sym (rw (e, f) at (range-append 0 k 1))

  count-portions : (k : ℕ) → count i (portions n num_procs k) ≡ foldr share 0 (range 0 k)
  unfolding portions range share count
  count-portions zero = refl
  count-portions (suc k) =
      let joined = ap (foldr share 0) (range_last k) ∙ share-foldr (range 0 k) (k ∷ []) in
      count-append i (portions n num_procs k) (portion n num_procs k)
      ∙ omega (arith, count-portions k, joined)

  share_swap : (a b rest : ℕ) → share a (share b rest) ≡ share b (share a rest)
  unfolding share
  share_swap a b rest = omega arith

-- For any number of processes and any order in which `MPI_Reduce` adds their results up: the number printed is the
-- value of a written sum, with the operations of `double`, in which each of the terms 0 to N - 1 stands once and no
-- other term stands.
pub global_result-written :
    (d : Doubles) (n num_procs : ℕ) (order : Order) (i : ℕ)
    → 0 < num_procs
    → Perm (ranks order) (range 0 num_procs)
    → (eval d (written n num_procs order) ≡ global_result d n num_procs order)
      × (occurrences i (written n num_procs order) ≡ (if ltb i n then 1 else 0))
global_result-written d n zero order i h p = absurd (omega arith)
global_result-written d n (suc before) order i h p = (
  eval-written d n (suc before) order,
  occurrences-written n (suc before) i order
      ∙ Perm.foldr-eq ℕ_set (share n (suc before) i) (share_swap n (suc before) i) p 0
      ∙ sym (count-portions n (suc before) i (suc before))
      ∙ ap (count i) (portions-suc n before)
      ∙ count-range i 0 n
      ∙ ground arith,
)
