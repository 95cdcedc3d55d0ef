-- ===== src/Qsort/Partition.antt =====
-- What the partition loop establishes.
use rest_technosphere_cpp_se.Base.{ℕ, zero, suc, ◌+◌, ◌-◌, ◌≤◌, ◌<◌, ◌≡◌, ◌∙◌, arith}
use rest_technosphere_cpp_se.Qsort.{
  Ints, rank, swap, Split, partition_step, partition_loop, partition,
}
use rest_technosphere_cpp_se.Memory.{write}
use native.Mathlib.Decide.{dec_lt}
use rest_technosphere_cpp_se.Qsort.Shuffle.{
  Shuffle, Shuffle-refl, Shuffle-trans, Shuffle-widen, swap-Shuffle,
}

-- The loop's invariant, before the round `more`: the values up to the pivot, then those above it,
-- then what is not yet looked at.
record Divides (a : Ints) (left pivot more : ℕ) (s : Split) : Type 0 where
  shuffled : Shuffle left more a s.array
  lower : left ≤ s.next
  upper : s.next ≤ more
  small : (i : ℕ) → left ≤ i → i < s.next → rank (s.array i) ≤ rank pivot
  large : (i : ℕ) → s.next ≤ i → i < more → rank pivot < rank (s.array i)

swap_left : (a : Ints) (i j : ℕ) → swap a i j i ≡ a j
unfolding swap write
swap_left a i j = ground arith

-- the tests of one round
pub step_small :
    (pivot more : ℕ) (s : Split)
    → rank (s.array more) ≤ rank pivot
    → partition_step pivot more s ≡ record { array = swap s.array s.next more; next = s.next + 1 }
unfolding partition_step
step_small pivot more s h = ground arith

pub step_large :
    (pivot more : ℕ) (s : Split)
    → rank pivot < rank (s.array more)
    → partition_step pivot more s ≡ s
unfolding partition_step
step_large pivot more s h = ground arith

module _ (a : Ints) (left pivot more : ℕ) (s : Split) (d : Divides a left pivot more s) where
  Divides-small :
      rank (s.array more) ≤ rank pivot
      → Divides a left pivot
          (more + 1)
          (record { array = swap s.array s.next more; next = s.next + 1 })
  unfolding swap write
  Divides-small h = record {
    shuffled =
        Shuffle-trans left (more + 1) a s.array (swap s.array s.next more)
          (Shuffle-widen left (more + 1) left more a s.array (omega arith) (omega arith) d.shuffled)
          (swap-Shuffle left (more + 1) s.next more s.array d.lower (omega (arith, d.upper))
            (omega (arith, d.lower, d.upper)) (omega arith));
    lower = omega (arith, d.lower);
    upper = omega (arith, d.upper);
    small = λ i l u. ground (arith, d.small i l, d.upper);
    large = λ i l u. ground (arith, d.large i, d.large s.next, d.upper);
  }

  Divides-large : rank pivot < rank (s.array more) → Divides a left pivot (more + 1) s
  Divides-large h = record {
    shuffled =
        Shuffle-widen left (more + 1) left more a s.array (omega arith) (omega arith) d.shuffled;
    lower = d.lower;
    upper = omega (arith, d.upper);
    small = d.small;
    large = λ i l u. elim (dec_lt i more) [
      | yes before ↦ d.large i l before
      | no last ↦ let e : i ≡ more = omega arith in rw e h
    ];
  }

  Divides-step : Divides a left pivot (more + 1) (partition_step pivot more s)
  Divides-step = elim (dec_lt (rank pivot) (rank (s.array more))) [
    | yes h ↦ rw (step_large pivot more s h) (Divides-large h)
    | no h ↦
        let le : rank (s.array more) ≤ rank pivot = omega arith in
        rw (step_small pivot more s le) (Divides-small le)
  ]

Divides-loop :
    (a : Ints) (left pivot rounds more stop : ℕ) (s : Split)
    → more + rounds ≡ stop
    → Divides a left pivot more s
    → Divides a left pivot stop (partition_loop pivot rounds more s)
unfolding partition_loop
Divides-loop a left pivot zero more stop s e d =
    let same : more ≡ stop = omega arith in rw (← same) d
Divides-loop a left pivot (suc rounds) more stop s e d =
    Divides-loop a left pivot rounds (more + 1) stop (partition_step pivot more s) (omega arith)
      (Divides-step a left pivot more s d)

-- What the recursion finds: the pivot stands at `next - 1`, between what is at most the pivot and what
-- is above it.
pub record IsSplit (a : Ints) (left stop : ℕ) (s : Split) : Type 0 where
  pub shuffled : Shuffle left stop a s.array
  pub lower : left < s.next
  pub upper : s.next ≤ stop
  pub middle : s.array (s.next - 1) ≡ a (stop - 1)
  pub small : (i : ℕ) → left ≤ i → i < s.next → rank (s.array i) ≤ rank (a (stop - 1))
  pub large : (i : ℕ) → s.next ≤ i → i < stop → rank (a (stop - 1)) < rank (s.array i)

IsSplit-last :
    (a : Ints) (left stop : ℕ) (s : Split)
    → left < stop
    → Divides a left (a (stop - 1)) (stop - 1) s
    → s.array (stop - 1) ≡ a (stop - 1)
    → rank (s.array (stop - 1)) ≤ rank (a (stop - 1))
    → IsSplit a left stop (record { array = swap s.array s.next (stop - 1); next = s.next + 1 })
IsSplit-last a left stop s h d same le =
    let e : stop - 1 + 1 ≡ stop = omega arith in
    let f : s.next + 1 - 1 ≡ s.next = omega arith in
    let end = rw e at (Divides-small a left (a (stop - 1)) (stop - 1) s d le) in
    record {
      shuffled = end.shuffled;
      lower = omega (arith, d.lower);
      upper = omega (arith, d.upper);
      middle = rw f (swap_left s.array s.next (stop - 1) ∙ same);
      small = end.small;
      large = end.large;
    }

-- the last round of the loop on its own
partition_loop-last :
    (pivot rounds more : ℕ) (s : Split)
    → partition_loop pivot (suc rounds) more s
      ≡ partition_step pivot (more + rounds) (partition_loop pivot rounds more s)
unfolding partition_loop
partition_loop-last pivot zero more s = let e : more + 0 ≡ more = omega arith in rw e
partition_loop-last pivot (suc rounds) more s =
    let e : more + 1 + rounds ≡ more + suc rounds = omega arith in
    partition_loop-last pivot rounds (more + 1) (partition_step pivot more s) ∙ rw e

pub partition-IsSplit :
    (a : Ints) (left stop : ℕ) → left < stop → IsSplit a left stop (partition a left stop)
unfolding partition
partition-IsSplit a left stop h =
    let pivot = a (stop - 1) in
    let fresh : Split = record { array = a; next = left } in
    let before = partition_loop pivot (stop - 1 - left) left fresh in
    let start : Divides a left pivot left fresh = record {
      shuffled = Shuffle-refl left left a;
      lower = omega arith;
      upper = omega arith;
      small = λ i l u. absurd (omega arith);
      large = λ i l u. absurd (omega arith);
    } in
    let d = Divides-loop a left pivot (stop - 1 - left) left (stop - 1) fresh (omega arith) start in
    let same : before.array (stop - 1) ≡ pivot = d.shuffled.above (stop - 1) (omega arith) in
    let le : rank (before.array (stop - 1)) ≤ rank pivot = rw same (omega arith) in
    let rounds : stop - left ≡ suc (stop - 1 - left) = omega arith in
    let place : left + (stop - 1 - left) ≡ stop - 1 = omega arith in
    let last : partition_loop pivot (stop - left) left fresh
        ≡ record { array = swap before.array before.next (stop - 1); next = before.next + 1 } =
      rw rounds (
        partition_loop-last pivot (stop - 1 - left) left fresh
        ∙ rw place (step_small pivot (stop - 1) before le)) in
    rw last (IsSplit-last a left stop before h d same le)
