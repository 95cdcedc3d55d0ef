-- ===== src/Semaphores/Invariant.antt =====
-- The units of a semaphore are with its value or with the processes that hold the block; so two
-- processes never touch a block in conflict.
use rest_technosphere_cpp_se.Base.{
  ℕ, ◌+◌, ◌-◌, ◌/◌, ◌≤◌, ◌<◌, ◌≡◌, ◌≢◌, refl, Bool, true, List, ◌∷◌, some, inl, inr, ◌⊎◌, leb, ◌==◌,
  if◌then◌else◌, Bool-cases, arith,
}
use native.Mathlib.Decide.{dec_lt}
use rest_technosphere_cpp_se.Locks.{
  Event, acquire, release, reads, writes, Held, idle, holding, broken, follow_event,
}
use rest_technosphere_cpp_se.Semaphores.Family.{
  update, sum_below, sum_below-update, sum_below-zero, add-le-sum_below,
}
use rest_technosphere_cpp_se.Semaphores.Discipline.{
  Keeps, Keeps-acquire, Keeps-release, Keeps-reads, Keeps-writes, Keeps-tail,
}
use rest_technosphere_cpp_se.Semaphores.{
  Process, System, Scheme, perform, Step, move, Steps, here, next, start,
}

-- the units of block `b` that a process has taken
unfoldable pub units_held : Scheme → ℕ → Process → ℕ
units_held k b p = elim p.held [
  | idle ↦ 0
  | holding c x ↦ if c == b then k.cost x else 0
  | broken ↦ 0
]

some_inj {ℓ} : {A : Type ℓ} {a b : A} → some a ≡ some b → a ≡ b
some_inj h = cc

pub record IsBalanced (k : Scheme) (size n : ℕ) (s : System) : Type 0 where
  pub balance : (b : ℕ) → s.value b + sum_below (λ i. units_held k b (s.process i)) n ≡ k.units
  pub keeps : (i : ℕ) → i < n → Keeps size (s.process i).held (s.process i).rest

module _ (k : Scheme) (size : ℕ) where
  perform-acquire :
      (value value' : ℕ → ℕ) (c b : ℕ) (x : Bool)
      → perform k value (acquire c x) ≡ some value'
      → (k.cost x ≤ value c) × (value' b ≡ (if c == b then value c - k.cost x else value b))
  unfolding perform
  perform-acquire value value' c b x p = elim (Bool-cases (leb (k.cost x) (value c))) [
    | inl e ↦
        let q : update value c (value c - k.cost x) ≡ value' = some_inj (rw e at p) in
        (ground arith, rw (← q))
    | inr e ↦ absurd (ground arith)
  ]

  perform-release :
      (value value' : ℕ → ℕ) (c b : ℕ) (x : Bool)
      → perform k value (release c x) ≡ some value'
      → value' b ≡ (if c == b then value c + k.cost x else value b)
  unfolding perform
  perform-release value value' c b x p =
      let q : update value c (value c + k.cost x) ≡ value' = some_inj p in rw (← q)

  -- value and holding together change by nothing
  perform-balance :
      (value value' : ℕ → ℕ) (h : Held) (e : Event) (es : List Event) (b : ℕ)
      → Keeps size h (e ∷ es)
      → perform k value e ≡ some value'
      → value' b + units_held k b (record { held = follow_event size h e; rest = es })
        ≡ value b + units_held k b (record { held = h; rest = e ∷ es })
  unfolding perform units_held follow_event
  perform-balance value value' h (acquire c x) es b d p =
      let e = Keeps-acquire size es h c x d in
      let q = perform-acquire value value' c b x p in
      rw (e, units_held, follow_event) (ground arith)
  perform-balance value value' h (release c x) es b d p =
      let e = Keeps-release size es h c x d in
      let q = perform-release value value' c b x p in
      rw (e, units_held, follow_event) (ground arith)
  perform-balance value value' h (reads i) es b d p =
      let (x, e) = Keeps-reads size es h i d in
      let q : value ≡ value' = some_inj p in rw (e, units_held, follow_event, ← q) (ground arith)
  perform-balance value value' h (writes i) es b d p =
      let e = Keeps-writes size es h i d in
      let q : value ≡ value' = some_inj p in rw (e, units_held, follow_event, ← q) (ground arith)

  pub Step-IsBalanced :
      (n : ℕ) {s t : System} → Step k size n s t → IsBalanced k size n s → IsBalanced k size n t
  Step-IsBalanced n {s} (move i e es {value} l r p) inv =
      let h = (s.process i).held in
      let after : Process = record { held = follow_event size h e; rest = es } in
      let d : Keeps size h (e ∷ es) = rw (← r) (inv.keeps i l) in
      record {
        balance = λ b.
            let same : s.process i ≡ record { held = h; rest = e ∷ es } = rw (← r) in
            let q = rw (← same) at (perform-balance s.value value h e es b d p) in
            omega
              (arith, q, inv.balance b, sum_below-update (units_held k b) s.process i n after l);
        keeps = λ j lj. elim (Bool-cases (i == j)) [
          | inl f ↦ rw f (Keeps-tail size es h e d)
          | inr f ↦ rw f (inv.keeps j lj)
        ];
      }

module _ (k : Scheme) (size n : ℕ) (program : ℕ → List Event)
    (keeps : (i : ℕ) → i < n → Keeps size idle (program i)) where
  start-IsBalanced : IsBalanced k size n (start k program)
  start-IsBalanced = record {
    balance = λ b. omega (
      arith,
      sum_below-zero (λ i. units_held k b ((start k program).process i)) n
          (λ i l. unfold units_held in refl),
    );
    keeps = keeps;
  }

  -- every state that the processes reach from the start
  pub Steps-IsBalanced : {s : System} → Steps k size n (start k program) s → IsBalanced k size n s
  Steps-IsBalanced here = start-IsBalanced
  Steps-IsBalanced (next r st) = Step-IsBalanced k size n st (Steps-IsBalanced r)

-- an exclusive lock takes all the units, and each lock takes some
pub record IsSound (k : Scheme) : Type 0 where
  pub exclusive : k.cost true ≡ k.units
  pub fits : (x : Bool) → k.cost x ≤ k.units
  pub takes : (x : Bool) → 0 < k.cost x

-- the access to a record that a process is about to make
abbrev pub Touches : Process → ℕ → Type 0
Touches p c = (es : List Event) × ((p.rest ≡ reads c ∷ es) ⊎ (p.rest ≡ writes c ∷ es))

module _ (k : Scheme) (sound : IsSound k) (size n : ℕ) {s : System}
    (inv : IsBalanced k size n s) where
  Touches-units :
      (j c : ℕ) → j < n → Touches (s.process j) c → 0 < units_held k (c / size) (s.process j)
  unfolding units_held
  Touches-units j c l (es, t) =
      let (x, e) = held_by t in rw (e, units_held) (ground (arith, sound.takes x))
    where
      held_by :
          ((s.process j).rest ≡ reads c ∷ es) ⊎ ((s.process j).rest ≡ writes c ∷ es)
          → (x : Bool) × ((s.process j).held ≡ holding (c / size) x)
      held_by (inl r) = Keeps-reads size es (s.process j).held c (rw r at (inv.keeps j l))
      held_by (inr r) = (true, Keeps-writes size es (s.process j).held c (rw r at (inv.keeps j l)))

  writes-units :
      (i a : ℕ) (es : List Event)
      → i < n
      → (s.process i).rest ≡ writes a ∷ es
      → units_held k (a / size) (s.process i) ≡ k.units
  unfolding units_held
  writes-units i a es l r =
      let e = Keeps-writes size es (s.process i).held a (rw r at (inv.keeps i l)) in
      rw (e, units_held) (ground (arith, sound.exclusive))

  pub no_conflict :
      (i j a c : ℕ) (es : List Event)
      → i < n
      → j < n
      → i ≢ j
      → (s.process i).rest ≡ writes a ∷ es
      → Touches (s.process j) c
      → a / size ≢ c / size
  no_conflict i j a c es li lj ne r t same =
      let w = units_held k (a / size) in
      let all = writes-units i a es li r in
      let some_units = rw (← same) at (Touches-units j c lj t) in
      let sum = inv.balance (a / size) in
      elim (dec_lt i j) [
        | yes lt ↦ absurd (omega (arith, add-le-sum_below (λ m. w (s.process m)) i j n lt lj))
        | no ge ↦
            absurd (omega (arith, add-le-sum_below (λ m. w (s.process m)) j i n (omega arith) li))
      ]
