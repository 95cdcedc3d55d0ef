-- ===== src/Qsort/Shuffle.antt =====
-- Arrays that differ by exchanges inside a range.
use rest_technosphere_cpp_se.Base.{
  ℕ, zero, suc, ◌+◌, ◌≤◌, ◌<◌, ◌≡◌, refl, ◌∙◌, ◌==◌, if◌then◌else◌, arith,
}
use rest_technosphere_cpp_se.Memory.{write}
use rest_technosphere_cpp_se.Qsort.{Ints, swap}
use native.Mathlib.Decide.{dec_lt, ℕ_discrete}

-- how often a value stands in the first `n` cells
unfoldable pub occurrences : ℕ → Ints → ℕ → ℕ
occurrences v a zero = 0
occurrences v a (suc n) = occurrences v a n + (if a n == v then 1 else 0)

abbrev one_if : ℕ → ℕ → ℕ
one_if v x = if x == v then 1 else 0

occurrences-write_above :
    (v : ℕ) (a : Ints) (i x n : ℕ) → n ≤ i → occurrences v (write a i x) n ≡ occurrences v a n
unfolding occurrences write
occurrences-write_above v a i x zero h = refl
occurrences-write_above v a i x (suc n) h = ground (arith, occurrences-write_above v a i x n)

occurrences-write :
    (v : ℕ) (a : Ints) (i x n : ℕ)
    → i < n
    → occurrences v (write a i x) n + one_if v (a i) ≡ occurrences v a n + one_if v x
unfolding occurrences write
occurrences-write v a i x zero h = absurd (omega arith)
occurrences-write v a i x (suc n) h = elim (dec_lt i n) [
  | yes l ↦ ground (arith, occurrences-write v a i x n)
  | no l ↦ ground (arith, occurrences-write_above v a i x n)
]

occurrences-swap :
    (v : ℕ) (a : Ints) (i j n : ℕ)
    → i < n
    → j < n
    → occurrences v (swap a i j) n ≡ occurrences v a n
unfolding swap
occurrences-swap v a i j n hi hj =
    let b = write a i (a j) in
    let kept : b j ≡ a j = unfold write in ground arith in
    let second = occurrences-write v b j (a i) n hj in
    let first = occurrences-write v a i (a j) n hi in ground arith

-- `b` has the values of `a`, exchanged between left and stop only
pub record Shuffle (left stop : ℕ) (a b : Ints) : Type 0 where
  pub inside : (i : ℕ) → left ≤ i → i < stop → (j : ℕ) × (left ≤ j) × (j < stop) × (b i ≡ a j)
  pub below : (i : ℕ) → i < left → b i ≡ a i
  pub above : (i : ℕ) → stop ≤ i → b i ≡ a i
  pub counts : (v n : ℕ) → stop ≤ n → occurrences v b n ≡ occurrences v a n

pub Shuffle-refl : (left stop : ℕ) (a : Ints) → Shuffle left stop a a
Shuffle-refl left stop a = record {
  inside = λ i l h. (i, l, h, refl);
  below = λ i h. refl;
  above = λ i h. refl;
  counts = λ v n h. refl;
}

pub Shuffle-trans :
    (left stop : ℕ) (a b c : Ints)
    → Shuffle left stop a b
    → Shuffle left stop b c
    → Shuffle left stop a c
Shuffle-trans left stop a b c p q = record {
  inside = λ i l h.
      let (j, lj, hj, ej) = q.inside i l h in
      let (k, lk, hk, ek) = p.inside j lj hj in (k, lk, hk, ej ∙ ek);
  below = λ i h. q.below i h ∙ p.below i h;
  above = λ i h. q.above i h ∙ p.above i h;
  counts = λ v n h. q.counts v n h ∙ p.counts v n h;
}

pub Shuffle-widen :
    (left stop l s : ℕ) (a b : Ints) → left ≤ l → s ≤ stop → Shuffle l s a b → Shuffle left stop a b
Shuffle-widen left stop l s a b hl hs p = record {
  inside = λ i li hi. elim (dec_lt i l) [
    | yes low ↦ (i, li, hi, p.below i low)
    | no high ↦ elim (dec_lt i s) [
      | yes mid ↦
          let (j, lj, hj, e) = p.inside i (omega arith) mid in (j, omega arith, omega arith, e)
      | no out ↦ (i, li, hi, p.above i (omega arith))
    ]
  ];
  below = λ i h. p.below i (omega arith);
  above = λ i h. p.above i (omega arith);
  counts = λ v n h. p.counts v n (omega arith);
}

pub swap-Shuffle :
    (left stop i j : ℕ) (a : Ints)
    → left ≤ i
    → i < stop
    → left ≤ j
    → j < stop
    → Shuffle left stop a (swap a i j)
unfolding swap write
swap-Shuffle left stop i j a li hi lj hj = record {
  inside = λ k lk hk. elim (ℕ_discrete j k) [
    | yes e ↦ (i, li, hi, ground arith)
    | no e ↦ elim (ℕ_discrete i k) [
      | yes f ↦ (j, lj, hj, ground arith)
      | no f ↦ (k, lk, hk, ground arith)
    ]
  ];
  below = λ k h. ground arith;
  above = λ k h. ground arith;
  counts = λ v n h. occurrences-swap v a i j n (omega arith) (omega arith);
}
