-- ===== src/Qsort/Locality.antt =====
-- A call of `std_qsort_inner` reads and writes its own range only, so calls on separate ranges may be
-- made in either order.
use rest_technosphere_cpp_se.Base.{
  ℕ, zero, suc, ◌+◌, ◌-◌, ◌≤◌, ◌<◌, ◌≡◌, refl, sym, ◌∙◌, ltb, ltb→lt, Bool-cases, inl, inr, arith,
}
use rest_technosphere_cpp_se.Memory.{write}
use native.Mathlib.Decide.{dec_lt}
use rest_technosphere_cpp_se.Qsort.{
  Ints, rank, swap, Split, partition_step, partition_loop, partition, std_qsort_inner,
}
use mathlib.Core.Path.{fun_ext}
use rest_technosphere_cpp_se.Qsort.Partition.{step_small, step_large, partition-IsSplit}
use rest_technosphere_cpp_se.Qsort.Sorted.{
  std_qsort_inner-suc, std_qsort_inner-short, std_qsort_inner-Shuffle,
}

-- the same values from left to stop
abbrev Agrees : ℕ → ℕ → Ints → Ints → Type 0
Agrees left stop a b = (i : ℕ) → left ≤ i → i < stop → a i ≡ b i

-- two states of the partition loop that cannot be told apart inside the range
record Alike (left stop more : ℕ) (s t : Split) : Type 0 where
  same : Agrees left stop s.array t.array
  next : s.next ≡ t.next
  lower : left ≤ s.next
  upper : s.next ≤ more

Agrees-swap :
    (left stop i j : ℕ) (a b : Ints)
    → left ≤ i
    → i < stop
    → left ≤ j
    → j < stop
    → Agrees left stop a b
    → Agrees left stop (swap a i j) (swap b i j)
unfolding swap write
Agrees-swap left stop i j a b li hi lj hj h k lk hk = ground (arith, h i, h j, h k)

Alike-step :
    (left stop pivot more : ℕ) (s t : Split)
    → left ≤ more
    → more < stop
    → Alike left stop more s t
    → Alike left stop (more + 1) (partition_step pivot more s) (partition_step pivot more t)
Alike-step left stop pivot more s t lm hm h =
    let e : s.array more ≡ t.array more = h.same more lm hm in
    elim (dec_lt (rank pivot) (rank (s.array more))) [
      | yes above ↦
          rw (step_large pivot more s above, step_large pivot more t (rw (← e) above))
            (record {
              same = h.same;
              next = h.next;
              lower = h.lower;
              upper = omega (arith, h.upper);
            })
      | no below ↦
          rw
            (
              step_small pivot more s (omega arith),
              step_small pivot more t (rw (← e) (omega arith)),
              ← h.next,
            )
            (record {
              same =
                  Agrees-swap left stop s.next more s.array t.array h.lower (omega (arith, h.upper))
                    lm hm h.same;
              next = refl;
              lower = omega (arith, h.lower);
              upper = omega (arith, h.upper);
            })
    ]

Alike-loop :
    (left stop pivot rounds more : ℕ) (s t : Split)
    → left ≤ more
    → more + rounds ≡ stop
    → Alike left stop more s t
    → Alike left stop stop (partition_loop pivot rounds more s) (partition_loop pivot rounds more t)
unfolding partition_loop
Alike-loop left stop pivot zero more s t lm e h =
    let same : more ≡ stop = omega arith in rw same at h
Alike-loop left stop pivot (suc rounds) more s t lm e h =
    Alike-loop left stop pivot rounds (more + 1) (partition_step pivot more s)
      (partition_step pivot more t) (omega arith) (omega arith)
      (Alike-step left stop pivot more s t lm (omega arith) h)

partition-Alike :
    (a b : Ints) (left stop : ℕ)
    → left < stop
    → Agrees left stop a b
    → Alike left stop stop (partition a left stop) (partition b left stop)
unfolding partition
partition-Alike a b left stop h same =
    let e : a (stop - 1) ≡ b (stop - 1) = same (stop - 1) (omega arith) (omega arith) in
    rw (← e) (
      Alike-loop left stop (a (stop - 1)) (stop - left) left (record { array = a; next = left })
        (record { array = b; next = left }) (omega arith) (omega arith)
        (record { same = same; next = refl; lower = omega arith; upper = omega arith }))

-- a right part, behind what agrees already
rights :
    (fuel : ℕ) (a b : Ints) (left stop next : ℕ)
    → left ≤ next
    → Agrees left stop a b
    → Agrees next stop (std_qsort_inner fuel a next stop) (std_qsort_inner fuel b next stop)
    → Agrees left stop (std_qsort_inner fuel a next stop) (std_qsort_inner fuel b next stop)
rights fuel a b left stop next le whole part i l u =
    let s = std_qsort_inner-Shuffle fuel a next stop in
    let t = std_qsort_inner-Shuffle fuel b next stop in
    elim (dec_lt i next) [
      | yes low ↦ s.below i low ∙ whole i l u ∙ sym (t.below i low)
      | no high ↦ part i (omega arith) u
    ]

std_qsort_inner-Agrees :
    (fuel : ℕ) (a b : Ints) (left stop : ℕ)
    → Agrees left stop a b
    → Agrees left stop (std_qsort_inner fuel a left stop) (std_qsort_inner fuel b left stop)
std_qsort_inner-Agrees zero a b left stop h = unfold std_qsort_inner in h
std_qsort_inner-Agrees (suc fuel) a b left stop h = elim (Bool-cases (ltb (left + 1) stop)) [
  | inr e ↦
      rw
        (
          std_qsort_inner-short (suc fuel) a left stop e,
          std_qsort_inner-short (suc fuel) b left stop e,
        )
        h
  | inl e ↦
      let long = ltb→lt (left + 1) stop e in
      let p = partition a left stop in
      let q = partition b left stop in
      let d = partition-IsSplit a left stop (omega arith) in
      let like = partition-Alike a b left stop (omega arith) h in
      let pl =
        std_qsort_inner-Agrees fuel p.array q.array left (p.next - 1)
          (λ i l u. like.same i l (omega (arith, d.upper))) in
      let pb = std_qsort_inner fuel p.array left (p.next - 1) in
      let qb = std_qsort_inner fuel q.array left (p.next - 1) in
      let ps = std_qsort_inner-Shuffle fuel p.array left (p.next - 1) in
      let qs = std_qsort_inner-Shuffle fuel q.array left (p.next - 1) in
      let whole : Agrees left stop pb qb = λ i l u. elim (dec_lt i (p.next - 1)) [
        | yes low ↦ pl i l low
        | no high ↦ ps.above i (omega arith) ∙ like.same i l u ∙ sym (qs.above i (omega arith))
      ] in
      rw
        (
          std_qsort_inner-suc fuel a left stop e,
          std_qsort_inner-suc fuel b left stop e,
          ← like.next,
        )
        (rights fuel pb qb left stop p.next (omega (arith, d.lower)) whole (
          std_qsort_inner-Agrees fuel pb qb p.next stop
            (λ i l u. whole i (omega (arith, d.lower)) u)))
]

-- Two calls on ranges that do not meet may be made in either order.
pub std_qsort_inner_comm :
    (fuel : ℕ) (a : Ints) (left middle next stop : ℕ)
    → middle ≤ next
    → std_qsort_inner fuel (std_qsort_inner fuel a next stop) left middle
      ≡ std_qsort_inner fuel (std_qsort_inner fuel a left middle) next stop
std_qsort_inner_comm fuel a left middle next stop h = fun_ext (λ i.
    let l = std_qsort_inner fuel a left middle in
    let r = std_qsort_inner fuel a next stop in
    let al = std_qsort_inner-Shuffle fuel a left middle in
    let ar = std_qsort_inner-Shuffle fuel a next stop in
    let rl = std_qsort_inner-Shuffle fuel r left middle in
    let lr = std_qsort_inner-Shuffle fuel l next stop in
    let in_left =
      std_qsort_inner-Agrees fuel r a left middle (λ j lj uj. ar.below j (omega arith)) in
    let in_right =
      std_qsort_inner-Agrees fuel l a next stop (λ j lj uj. al.above j (omega arith)) in
    elim (dec_lt i middle) [
      | yes below ↦ elim (dec_lt i left) [
        | yes low ↦
            rl.below i low
            ∙ ar.below i (omega arith)
            ∙ sym (lr.below i (omega arith) ∙ al.below i low)
        | no inside ↦ in_left i (omega arith) below ∙ sym (lr.below i (omega arith))
      ]
      | no above ↦ rl.above i (omega arith) ∙ elim (dec_lt i next) [
        | yes between ↦ ar.below i between ∙ sym (lr.below i between ∙ al.above i (omega arith))
        | no right ↦ elim (dec_lt i stop) [
          | yes inside ↦ sym (in_right i (omega arith) inside)
          | no top ↦
              ar.above i (omega arith) ∙ sym (lr.above i (omega arith) ∙ al.above i (omega arith))
        ]
      ]
    ])
