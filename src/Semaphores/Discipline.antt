-- ===== src/Semaphores/Discipline.antt =====
-- What the discipline of a process says of what it holds before each kind of event.
use rest_technosphere_cpp_se.Base.{
  ℕ, ◌/◌, ◌≡◌, refl, Bool, true, false, List, [], ◌∷◌, inl, inr, ◌&&◌, ◌==◌, Bool-cases, arith,
}
use rest_technosphere_cpp_se.Locks.{
  Event, acquire, release, reads, writes, Held, idle, holding, broken, follow, follow_event,
  same_mode,
}

-- the events before the process keep the discipline, and end with nothing held
abbrev pub Keeps : ℕ → Held → List Event → Type 0
Keeps size h es = follow size h es ≡ idle

follow-broken : (size : ℕ) (es : List Event) → follow size broken es ≡ broken
unfolding follow follow_event
follow-broken size [] = refl
follow-broken size (e ∷ es) = follow-broken size es

not_broken : (size : ℕ) (es : List Event) → Keeps size broken es → ⊥
not_broken size es h = let e = follow-broken size es in cc

same_mode→eq : (y x : Bool) → same_mode y x ≡ true → y ≡ x
same_mode→eq true true h = refl
same_mode→eq false false h = refl
same_mode→eq true false h = cc
same_mode→eq false true h = cc

module _ (size : ℕ) (es : List Event) where
  pub Keeps-nil : (h : Held) → Keeps size h [] → h ≡ idle
  unfolding follow
  Keeps-nil h k = k

  pub Keeps-acquire : (h : Held) (b : ℕ) (x : Bool) → Keeps size h (acquire b x ∷ es) → h ≡ idle
  unfolding follow follow_event
  Keeps-acquire idle b x k = refl
  Keeps-acquire (holding c y) b x k = absurd (not_broken size es k)
  Keeps-acquire broken b x k = absurd (not_broken size es k)

  pub Keeps-release :
      (h : Held) (b : ℕ) (x : Bool) → Keeps size h (release b x ∷ es) → h ≡ holding b x
  unfolding follow follow_event
  Keeps-release idle b x k = absurd (not_broken size es k)
  Keeps-release broken b x k = absurd (not_broken size es k)
  Keeps-release (holding c y) b x k = elim (Bool-cases (c == b && same_mode y x)) [
    | inl e ↦ ground (arith, same_mode→eq y x)
    | inr e ↦ absurd (not_broken size es (rw e at k))
  ]

  pub Keeps-reads :
      (h : Held) (i : ℕ) → Keeps size h (reads i ∷ es) → (x : Bool) × (h ≡ holding (i / size) x)
  unfolding follow follow_event
  Keeps-reads idle i k = absurd (not_broken size es k)
  Keeps-reads broken i k = absurd (not_broken size es k)
  Keeps-reads (holding c y) i k = elim (Bool-cases (i / size == c)) [
    | inl e ↦ (y, ground arith)
    | inr e ↦ absurd (not_broken size es (rw e at k))
  ]

  pub Keeps-writes : (h : Held) (i : ℕ) → Keeps size h (writes i ∷ es) → h ≡ holding (i / size) true
  unfolding follow follow_event
  Keeps-writes idle i k = absurd (not_broken size es k)
  Keeps-writes broken i k = absurd (not_broken size es k)
  Keeps-writes (holding c y) i k = elim (Bool-cases (i / size == c && y)) [
    | inl e ↦ ground arith
    | inr e ↦ absurd (not_broken size es (rw e at k))
  ]

  -- what is held afterwards keeps the discipline for the rest
  pub Keeps-tail :
      (h : Held) (e : Event) → Keeps size h (e ∷ es) → Keeps size (follow_event size h e) es
  unfolding follow
  Keeps-tail h e k = k
