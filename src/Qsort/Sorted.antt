-- ===== src/Qsort/Sorted.antt =====
-- `std_qsort` sorts: the result is ascending and has the same values as often.
use rest_technosphere_cpp_se.Base.{
  ℕ, zero, suc, ◌+◌, ◌-◌, ◌≤◌, ◌<◌, ◌≡◌, refl, ap, sym, ◌∙◌, true, false, some, ltb, ltb→lt,
  Bool-cases, inl, inr, arith,
}
use rest_technosphere_cpp_se.Qsort.{
  Ints, rank, Split, partition, std_qsort_inner, std_qsort_within, std_qsort,
}
use native.Mathlib.Decide.{dec_lt}
use rest_technosphere_cpp_se.Qsort.Shuffle.{
  Shuffle, Shuffle-refl, Shuffle-trans, Shuffle-widen, occurrences,
}
use rest_technosphere_cpp_se.Qsort.Partition.{IsSplit, partition-IsSplit}

-- one call, above the recursion's end
pub std_qsort_inner-suc :
    (fuel : ℕ) (a : Ints) (left stop : ℕ)
    → ltb (left + 1) stop ≡ true
    → std_qsort_inner (suc fuel) a left stop
      ≡ std_qsort_inner fuel
          (std_qsort_inner fuel
            (partition a left stop).array
            left
            ((partition a left stop).next - 1))
          (partition a left stop).next
          stop
unfolding std_qsort_inner
std_qsort_inner-suc fuel a left stop e = rw (e, std_qsort_inner)

pub std_qsort_inner-short :
    (fuel : ℕ) (a : Ints) (left stop : ℕ)
    → ltb (left + 1) stop ≡ false
    → std_qsort_inner fuel a left stop ≡ a
unfolding std_qsort_inner
std_qsort_inner-short zero a left stop e = refl
std_qsort_inner-short (suc fuel) a left stop e = rw (e, std_qsort_inner)

pub std_qsort_inner-Shuffle :
    (fuel : ℕ) (a : Ints) (left stop : ℕ) → Shuffle left stop a (std_qsort_inner fuel a left stop)
std_qsort_inner-Shuffle zero a left stop = unfold std_qsort_inner in (Shuffle-refl left stop a)
std_qsort_inner-Shuffle (suc fuel) a left stop = elim (Bool-cases (ltb (left + 1) stop)) [
  | inr e ↦ rw (std_qsort_inner-short (suc fuel) a left stop e) (Shuffle-refl left stop a)
  | inl e ↦
      let long = ltb→lt (left + 1) stop e in
      let p = partition a left stop in
      let d = partition-IsSplit a left stop (omega arith) in
      let b = std_qsort_inner fuel p.array left (p.next - 1) in
      rw (std_qsort_inner-suc fuel a left stop e) (
        Shuffle-trans left stop a p.array (std_qsort_inner fuel b p.next stop) d.shuffled (
          Shuffle-trans left stop p.array b (std_qsort_inner fuel b p.next stop)
            (Shuffle-widen left stop left (p.next - 1) p.array b (omega arith)
              (omega (arith, d.upper)) (std_qsort_inner-Shuffle fuel p.array left (p.next - 1)))
            (Shuffle-widen left stop p.next stop b (std_qsort_inner fuel b p.next stop)
              (omega (arith, d.lower)) (omega arith) (std_qsort_inner-Shuffle fuel b p.next stop))))
]

-- ascending as `int`s, from left to stop
abbrev pub IsSorted : ℕ → ℕ → Ints → Type 0
IsSorted left stop a = (i j : ℕ) → left ≤ i → i ≤ j → j < stop → rank (a i) ≤ rank (a j)

-- Two sorted parts around the pivot are sorted together. `b` is the array after the left part, `c`
-- after both.
module _ (a : Ints) (left stop : ℕ) (p : Split) (d : IsSplit a left stop p) (b c : Ints)
    (lefts : Shuffle left (p.next - 1) p.array b) (rights : Shuffle p.next stop b c) where
  glue_small : (i : ℕ) → left ≤ i → i < p.next - 1 → rank (c i) ≤ rank (a (stop - 1))
  glue_small i l u =
      let (j, lj, hj, e) = lefts.inside i l u in
      rw (rights.below i (omega arith), e) (d.small j lj (omega arith))

  glue_middle : c (p.next - 1) ≡ a (stop - 1)
  glue_middle =
      rights.below (p.next - 1) (omega (arith, d.lower))
      ∙ lefts.above (p.next - 1) (omega arith)
      ∙ d.middle

  glue_large : (i : ℕ) → p.next ≤ i → i < stop → rank (a (stop - 1)) ≤ rank (c i)
  glue_large i l u =
      let (j, lj, hj, e) = rights.inside i l u in
      rw (e, lefts.above j (omega arith)) (omega (arith, d.large j lj hj))

  glue-IsSorted : IsSorted left (p.next - 1) b → IsSorted p.next stop c → IsSorted left stop c
  glue-IsSorted sb sc i j l le u = elim (dec_lt j (p.next - 1)) [
    | yes low ↦ rw (rights.below i (omega arith), rights.below j (omega arith)) (sb i j l le low)
    | no low ↦ elim (dec_lt i p.next) [
      | no high ↦ sc i j (omega arith) le u
      | yes high ↦
          let left_le : rank (c i) ≤ rank (a (stop - 1)) = elim (dec_lt i (p.next - 1)) [
            | yes before ↦ glue_small i l before
            | no at_pivot ↦
                let e : i ≡ p.next - 1 = omega arith in rw (e, glue_middle) (omega arith)
          ] in
          let right_le : rank (a (stop - 1)) ≤ rank (c j) = elim (dec_lt j p.next) [
            | yes at_pivot ↦
                let e : j ≡ p.next - 1 = omega arith in rw (e, glue_middle) (omega arith)
            | no after ↦ glue_large j (omega arith) u
          ] in
          omega arith
    ]
  ]

short-IsSorted : (a : Ints) (left stop : ℕ) → stop ≤ left + 1 → IsSorted left stop a
short-IsSorted a left stop h i j l le u = let e : i ≡ j = omega arith in rw e (omega arith)

std_qsort_inner-IsSorted :
    (fuel : ℕ) (a : Ints) (left stop : ℕ)
    → stop ≤ left + fuel
    → IsSorted left stop (std_qsort_inner fuel a left stop)
std_qsort_inner-IsSorted zero a left stop h =
    short-IsSorted (std_qsort_inner zero a left stop) left stop (omega arith)
std_qsort_inner-IsSorted (suc fuel) a left stop h = elim (Bool-cases (ltb (left + 1) stop)) [
  | inr e ↦ short-IsSorted (std_qsort_inner (suc fuel) a left stop) left stop (ground arith)
  | inl e ↦
      let long = ltb→lt (left + 1) stop e in
      let p = partition a left stop in
      let d = partition-IsSplit a left stop (omega arith) in
      let b = std_qsort_inner fuel p.array left (p.next - 1) in
      rw (std_qsort_inner-suc fuel a left stop e) (
        glue-IsSorted a left stop p d b (std_qsort_inner fuel b p.next stop)
          (std_qsort_inner-Shuffle fuel p.array left (p.next - 1))
          (std_qsort_inner-Shuffle fuel b p.next stop)
          (std_qsort_inner-IsSorted fuel p.array left (p.next - 1) (omega (arith, d.upper)))
          (std_qsort_inner-IsSorted fuel b p.next stop (omega (arith, d.lower))))
]

-- The first `len` elements end up ascending as `int`s, each value stands there as often as before, and
-- the memory behind them is untouched.
pub std_qsort-IsSorted :
    (a : Ints) (len : ℕ)
    → IsSorted 0 len (std_qsort a len)
      × ((v : ℕ) → occurrences v (std_qsort a len) len ≡ occurrences v a len)
      × ((i : ℕ) → len ≤ i → std_qsort a len i ≡ a i)
unfolding std_qsort
std_qsort-IsSorted a len =
    let s = std_qsort_inner-Shuffle len a 0 len in
    (
      std_qsort_inner-IsSorted len a 0 len (omega arith),
      λ v. s.counts v len (omega arith),
      λ i h. s.above i h,
    )

-- More fuel than the number of elements changes nothing: the recursion has come to its end.
std_qsort_inner-fuel :
    (fuel more : ℕ) (a : Ints) (left stop : ℕ)
    → stop ≤ left + fuel
    → std_qsort_inner (fuel + more) a left stop ≡ std_qsort_inner fuel a left stop
std_qsort_inner-fuel zero more a left stop h =
    let e : ltb (left + 1) stop ≡ false = ground arith in
    std_qsort_inner-short (0 + more) a left stop e ∙ sym (std_qsort_inner-short 0 a left stop e)
std_qsort_inner-fuel (suc fuel) more a left stop h = elim (Bool-cases (ltb (left + 1) stop)) [
  | inr e ↦
      std_qsort_inner-short (suc fuel + more) a left stop e
      ∙ sym (std_qsort_inner-short (suc fuel) a left stop e)
  | inl e ↦
      let long = ltb→lt (left + 1) stop e in
      let p = partition a left stop in
      let d = partition-IsSplit a left stop (omega arith) in
      let f : suc fuel + more ≡ suc (fuel + more) = omega arith in
      rw
        (
          f,
          std_qsort_inner-suc (fuel + more) a left stop e,
          std_qsort_inner-suc fuel a left stop e,
          std_qsort_inner-fuel fuel more p.array left (p.next - 1) (omega (arith, d.upper)),
        )
        (std_qsort_inner-fuel fuel more (std_qsort_inner fuel p.array left (p.next - 1)) p.next stop
          (omega (arith, d.lower)))
]

-- with one level of calls more than there are elements, the recursion comes to its end
std_qsort_within-std_qsort_inner :
    (fuel : ℕ) (a : Ints) (left stop : ℕ)
    → stop ≤ left + fuel
    → std_qsort_within (suc fuel) a left stop ≡ some (std_qsort_inner fuel a left stop)
unfolding std_qsort_within
std_qsort_within-std_qsort_inner zero a left stop h =
    let e : ltb (left + 1) stop ≡ false = ground arith in
    rw (e, std_qsort_within, std_qsort_inner-short 0 a left stop e)
std_qsort_within-std_qsort_inner (suc fuel) a left stop h =
    elim (Bool-cases (ltb (left + 1) stop)) [
      | inr e ↦ rw (e, std_qsort_within, std_qsort_inner-short (suc fuel) a left stop e)
      | inl e ↦
          let long = ltb→lt (left + 1) stop e in
          let p = partition a left stop in
          let d = partition-IsSplit a left stop (omega arith) in
          let b = std_qsort_inner fuel p.array left (p.next - 1) in
          let first : std_qsort_within (suc fuel) p.array left (p.next - 1) ≡ some b =
            std_qsort_within-std_qsort_inner fuel p.array left (p.next - 1)
              (omega (arith, d.upper)) in
          let second : std_qsort_within (suc fuel) b p.next stop
              ≡ some (std_qsort_inner fuel b p.next stop) =
            std_qsort_within-std_qsort_inner fuel b p.next stop (omega (arith, d.lower)) in
          rw (e, std_qsort_inner-suc fuel a left stop e, first, std_qsort_within) second
    ]

-- The recursion ends: its calls are never nested deeper than the number of elements and one more, and the
-- array it then gives is the one of `std_qsort`.
pub std_qsort-terminates :
    (a : Ints) (len fuel : ℕ) → len < fuel → std_qsort_within fuel a 0 len ≡ some (std_qsort a len)
unfolding std_qsort
std_qsort-terminates a len fuel h =
    let e : fuel ≡ suc (len + (fuel - 1 - len)) = omega arith in
    rw e (
      std_qsort_within-std_qsort_inner (len + (fuel - 1 - len)) a 0 len (omega arith)
      ∙ ap some (std_qsort_inner-fuel len (fuel - 1 - len) a 0 len (omega arith)))
