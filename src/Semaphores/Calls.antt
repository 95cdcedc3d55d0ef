-- ===== src/Semaphores/Calls.antt =====
-- Processes that make calls one behind the other, each of which keeps the discipline.
use rest_technosphere_cpp_se.Base.{ℕ, ◌/◌, ◌<◌, ◌≡◌, ◌≢◌, refl, List, [], ◌∷◌, ◌++◌}
use rest_technosphere_cpp_se.Locks.{Event, writes, idle, follow, follow-append}
use rest_technosphere_cpp_se.Semaphores.{System, Scheme, Steps, start}
use rest_technosphere_cpp_se.Semaphores.Discipline.{Keeps}
use rest_technosphere_cpp_se.Semaphores.Invariant.{
  IsBalanced, Steps-IsBalanced, IsSound, Touches, no_conflict,
}
use rest_technosphere_cpp_se.Semaphores.Progress.{IsFinished, IsBalanced-finish}

unfoldable pub trace : {C : Type 0} → (C → List Event) → List C → List Event
trace events [] = []
trace events (c ∷ cs) = events c ++ trace events cs

module _ {C : Type 0} (k : Scheme) (sound : IsSound k) (size n : ℕ) (events : C → List Event)
    (keeps : (c : C) → Keeps size idle (events c)) where
  trace-Keeps : (cs : List C) → Keeps size idle (trace events cs)
  unfolding trace follow
  trace-Keeps [] = refl
  trace-Keeps (c ∷ cs) =
      rw (follow-append size idle (events c) (trace events cs), keeps c) (trace-Keeps cs)

  module _ (calls : ℕ → List C) {s : System}
      (run : Steps k size n (start k (λ i. trace events (calls i))) s) where
    calls-IsBalanced : IsBalanced k size n s
    calls-IsBalanced =
        Steps-IsBalanced k size n (λ i. trace events (calls i)) (λ i l. trace-Keeps (calls i)) run

    pub calls-no_conflict :
        (i j a c : ℕ) (es : List Event)
        → i < n
        → j < n
        → i ≢ j
        → (s.process i).rest ≡ writes a ∷ es
        → Touches (s.process j) c
        → a / size ≢ c / size
    calls-no_conflict = no_conflict k sound size n calls-IsBalanced

    pub calls-finish : (u : System) × Steps k size n s u × IsFinished n u
    calls-finish = IsBalanced-finish k sound size n s calls-IsBalanced
