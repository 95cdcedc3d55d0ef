-- ===== src/Semaphores/Family.antt =====
-- Families indexed by numbers: an update at one index, and sums over the first indices.
use rest_technosphere_cpp_se.Base.{
  ℕ, zero, suc, ◌+◌, ◌≤◌, ◌<◌, ◌≡◌, ◌≢◌, refl, false, ◌==◌, ==_refl, if◌then◌else◌, arith,
}
use native.Mathlib.Decide.{ℕ_discrete}

abbrev pub update {ℓ} : {A : Type ℓ} → (ℕ → A) → ℕ → A → ℕ → A
update f i a j = if i == j then a else f j

-- what the first `n` members add up to
pub sum_below : (ℕ → ℕ) → ℕ → ℕ
sum_below g zero = 0
sum_below g (suc n) = g n + sum_below g n

-- two families that differ at `i` at most
sum_below-same :
    (g h : ℕ → ℕ) (i n : ℕ) → ((j : ℕ) → j ≢ i → g j ≡ h j) → n ≤ i → sum_below g n ≡ sum_below h n
unfolding sum_below
sum_below-same g h i zero e l = refl
sum_below-same g h i (suc n) e l =
    omega (arith, e n (omega arith), sum_below-same g h i n e (omega arith))

sum_below-change :
    (g h : ℕ → ℕ) (i n : ℕ)
    → ((j : ℕ) → j ≢ i → g j ≡ h j)
    → i < n
    → sum_below g n + h i ≡ sum_below h n + g i
unfolding sum_below
sum_below-change g h i zero e l = absurd (omega arith)
sum_below-change g h i (suc n) e l = elim (ℕ_discrete n i) [
  | yes here ↦ rw here (omega (arith, sum_below-same g h i i e (omega arith)))
  | no later ↦ omega (arith, e n later, sum_below-change g h i n e (omega arith))
]

-- one member counts for itself
le-sum_below : (g : ℕ → ℕ) (i n : ℕ) → i < n → g i ≤ sum_below g n
unfolding sum_below
le-sum_below g i zero l = absurd (omega arith)
le-sum_below g i (suc n) l = elim (ℕ_discrete n i) [
  | yes here ↦ rw here (omega arith)
  | no later ↦ omega (arith, le-sum_below g i n (omega arith))
]

-- and two for both
pub add-le-sum_below : (g : ℕ → ℕ) (i j n : ℕ) → i < j → j < n → g i + g j ≤ sum_below g n
unfolding sum_below
add-le-sum_below g i j zero h l = absurd (omega arith)
add-le-sum_below g i j (suc n) h l = elim (ℕ_discrete n j) [
  | yes here ↦ rw here (omega (arith, le-sum_below g i j h))
  | no later ↦ omega (arith, add-le-sum_below g i j n h (omega arith))
]

pub sum_below-zero : (g : ℕ → ℕ) (n : ℕ) → ((i : ℕ) → i < n → g i ≡ 0) → sum_below g n ≡ 0
unfolding sum_below
sum_below-zero g zero h = refl
sum_below-zero g (suc n) h =
    omega (arith, h n (omega arith), sum_below-zero g n (λ i l. h i (omega arith)))

-- what an update changes in the sum of a measure
pub sum_below-update {ℓ} :
    {A : Type ℓ} (measure : A → ℕ) (f : ℕ → A) (i n : ℕ) (a : A)
    → i < n
    → sum_below (λ j. measure (update f i a j)) n + measure (f i)
      ≡ sum_below (λ j. measure (f j)) n + measure a
sum_below-update measure f i n a l =
    let elsewhere : (j : ℕ) → j ≢ i → measure (update f i a j) ≡ measure (f j) =
      λ j ne. let other : (i == j) ≡ false = ground arith in rw other in
    let new : measure (update f i a i) ≡ measure a = rw (==_refl i) in
    let change =
      sum_below-change (λ j. measure (update f i a j)) (λ j. measure (f j)) i n elsewhere l in
    omega (arith, change, new)
