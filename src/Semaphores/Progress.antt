-- ===== src/Semaphores/Progress.antt =====
-- No deadlock: from every state that is reached all processes can come to their end.
use rest_technosphere_cpp_se.Base.{
  ℕ, zero, suc, ◌+◌, ◌-◌, ◌<◌, ◌≡◌, ◌≢◌, refl, Bool, true, List, [], ◌∷◌, inl, inr, ◌⊎◌, length,
  leb, arith,
}
use mathlib.Core.Path.{subst}
use native.Mathlib.Decide.{dec_lt}
use rest_technosphere_cpp_se.Locks.{
  Event, acquire, release, reads, writes, Held, idle, holding, broken, follow_event,
}
use rest_technosphere_cpp_se.Semaphores.Family.{update, sum_below, sum_below-update, sum_below-zero}
use rest_technosphere_cpp_se.Semaphores.Discipline.{Keeps-nil, Keeps-acquire}
use rest_technosphere_cpp_se.Semaphores.{
  Process, System, Scheme, perform, Step, move, Steps, here, next,
}
use rest_technosphere_cpp_se.Semaphores.Invariant.{units_held, IsBalanced, Step-IsBalanced, IsSound}

-- all processes have done all their events
abbrev pub IsFinished : ℕ → System → Type 0
IsFinished n s = (i : ℕ) → i < n → (s.process i).rest ≡ []

-- either all of the first `n` have a property, or one of them has the other
some_below :
    (P Q : ℕ → Type 0)
    → ((i : ℕ) → P i ⊎ Q i)
    → (n : ℕ) → ((i : ℕ) → i < n → P i) ⊎ ((i : ℕ) × (i < n) × Q i)
some_below P Q choose zero = inl (λ i l. absurd (omega arith))
some_below P Q choose (suc n) = elim (some_below P Q choose n) [
  | inr (i, l, q) ↦ inr (i, omega arith, q)
  | inl all ↦ elim (choose n) [
    | inr q ↦ inr (n, omega arith, q)
    | inl p ↦ inl (λ i l. elim (dec_lt i n) [
      | yes low ↦ all i low
      | no last ↦ let e : n ≡ i = omega arith in subst P e p
    ])
  ]
]

idle_or_not : (h : Held) → (h ≡ idle) ⊎ (h ≢ idle)
idle_or_not idle = inl refl
idle_or_not (holding c x) = inr (λ e. cc)
idle_or_not broken = inr (λ e. cc)

nil_or_cons : (es : List Event) → (es ≡ []) ⊎ ((e : Event) × (fs : List Event) × (es ≡ e ∷ fs))
nil_or_cons [] = inl refl
nil_or_cons (e ∷ fs) = inr (e, fs, refl)

module _ (k : Scheme) (sound : IsSound k) (size n : ℕ) where
  -- only a lock that others hold makes a process wait
  moves_if_free :
      {s : System} (i : ℕ) (e : Event) (es : List Event)
      → i < n
      → (s.process i).rest ≡ e ∷ es
      → ((b : ℕ) (x : Bool) → e ≡ acquire b x → s.value b ≡ k.units)
      → (t : System) × Step k size n s t
  unfolding perform
  moves_if_free {s} i (acquire b x) es l r full =
      let low : leb (k.cost x) (s.value b) ≡ true = ground (arith, full b x refl, sound.fits x) in
      (_, move i (acquire b x) es {value = update s.value b (s.value b - k.cost x)} l r (rw low))
  moves_if_free {s} i (release b x) es l r full =
      (_, move i (release b x) es {value = update s.value b (s.value b + k.cost x)} l r refl)
  moves_if_free {s} i (reads c) es l r full = (_, move i (reads c) es {value = s.value} l r refl)
  moves_if_free {s} i (writes c) es l r full = (_, move i (writes c) es {value = s.value} l r refl)

  all_idle-value :
      (s : System)
      → IsBalanced k size n s
      → ((i : ℕ) → i < n → (s.process i).held ≡ idle)
      → (b : ℕ) → s.value b ≡ k.units
  unfolding units_held
  all_idle-value s inv idles b = omega (
    arith,
    inv.balance b,
    sum_below-zero (λ i. units_held k b (s.process i)) n (λ i l. rw (idles i l, units_held)),
  )

  -- a process that holds a lock can go on, since it asks for no other
  holder_moves :
      (s : System)
      → IsBalanced k size n s
      → (i : ℕ) → i < n
      → (s.process i).held ≢ idle
      → (t : System) × Step k size n s t
  holder_moves s inv i l holds = elim (nil_or_cons (s.process i).rest) [
    | inl r ↦ absurd (holds (Keeps-nil size [] (s.process i).held (rw r at (inv.keeps i l))))
    | inr (e, es, r) ↦ moves_if_free i e es l r (λ b x same.
        absurd
          (holds (Keeps-acquire size es (s.process i).held b x (rw (r, same) at (inv.keeps i l)))))
  ]

  progress :
      (s : System) → IsBalanced k size n s → IsFinished n s ⊎ ((t : System) × Step k size n s t)
  progress s inv =
      elim (some_below (λ i. (s.process i).held ≡ idle) (λ i. (s.process i).held ≢ idle)
        (λ i. idle_or_not (s.process i).held) n) [
          | inr (i, l, holds) ↦ inr (holder_moves s inv i l holds)
          | inl idles ↦
              elim (some_below (λ i. (s.process i).rest ≡ [])
                (λ i. (e : Event) × (es : List Event) × ((s.process i).rest ≡ e ∷ es))
                (λ i. nil_or_cons (s.process i).rest) n) [
                  | inl done ↦ inl done
                  | inr (i, l, (e, es, r)) ↦
                      inr (moves_if_free i e es l r (λ b x same. all_idle-value s inv idles b))
                ]
        ]

  -- the events that are left
  remaining : System → ℕ
  remaining s = sum_below (λ i. length (s.process i).rest) n

  remaining-Step : {s t : System} → Step k size n s t → remaining t + 1 ≡ remaining s
  unfolding remaining
  remaining-Step {s} (move i e es l r p) =
      let after : Process = record { held = follow_event size (s.process i).held e; rest = es } in
      let size_before : length (s.process i).rest ≡ suc (length es) = rw r refl in
      omega (
        arith,
        size_before,
        sum_below-update (λ (p : Process). length p.rest) s.process i n after l,
      )

  -- with `left` events left the processes come to their end
  finish :
      (left : ℕ) {s t : System}
      → Steps k size n s t
      → IsBalanced k size n t
      → remaining t ≡ left
      → (u : System) × Steps k size n s u × IsFinished n u
  finish zero {t = t} run inv e = elim (progress t inv) [
    | inl done ↦ (t, run, done)
    | inr (u, st) ↦ absurd (omega (arith, remaining-Step st))
  ]
  finish (suc left) {t = t} run inv e = elim (progress t inv) [
    | inl done ↦ (t, run, done)
    | inr (u, st) ↦
        finish left (next run st) (Step-IsBalanced k size n st inv)
          (omega (arith, remaining-Step st))
  ]

  pub IsBalanced-finish :
      (s : System) → IsBalanced k size n s → (u : System) × Steps k size n s u × IsFinished n u
  IsBalanced-finish s inv = finish (remaining s) here inv refl
