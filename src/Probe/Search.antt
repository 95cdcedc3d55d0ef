-- ===== src/Probe/Search.antt =====
-- What the search finds: the first record in probe order that passes the test, if there is one.
use rest_technosphere_cpp_se.Base.{
  ℕ, zero, suc, ◌+◌, ◌-◌, ◌/◌, ◌≤◌, ◌<◌, ◌≡◌, refl, inl, inr, Bool, true, false, Option, none, some,
  ◌==◌, if◌then◌else◌, arith, Bool-cases, Option-cases,
}
use rest_technosphere_cpp_se.Probe.{scan, wrap_around, find}

-- the first of the `rounds` records from `cur` on that passes
unfoldable pub first_from : (ℕ → Bool) → ℕ → ℕ → Option ℕ
first_from test zero cur = none
first_from test (suc rounds) cur =
    let rest = first_from test rounds (suc cur) in if test cur then some cur else rest

abbrev pub or_else : Option ℕ → Option ℕ → Option ℕ
or_else (some i) o = some i
or_else none o = o

module _ (test : ℕ → Bool) where
  first_from-some :
      (rounds cur i : ℕ)
      → first_from test rounds cur ≡ some i
      → (test i ≡ true) × (cur ≤ i) × (i < cur + rounds)
  unfolding first_from
  first_from-some zero cur i h = cc
  first_from-some (suc rounds) cur i h = ground (arith, first_from-some rounds (suc cur) i)

  first_from-none :
      (rounds cur i : ℕ)
      → first_from test rounds cur ≡ none
      → cur ≤ i
      → i < cur + rounds
      → test i ≡ false
  unfolding first_from
  first_from-none zero cur i h l u = absurd (omega arith)
  first_from-none (suc rounds) cur i h l u = elim (Bool-cases (cur == i)) [
    | inl e ↦ ground arith
    | inr e ↦ ground (arith, first_from-none rounds (suc cur) i)
  ]

  -- the search of the code is the search of the specification, whatever the locks
  scan-first_from :
      (mode : Bool) (size rounds cur block : ℕ)
      → (scan mode size test rounds cur block).index ≡ first_from test rounds cur
  unfolding scan first_from
  scan-first_from mode size zero cur block = refl
  scan-first_from mode size (suc rounds) cur block =
      ground (arith, scan-first_from mode size rounds (suc cur) (cur / size))

  pub find-first_from :
      (mode : Bool) (size n h : ℕ)
      → (find mode size test n h).0 ≡ or_else (first_from test (n - h) h) (first_from test h 0)
  unfolding find wrap_around
  find-first_from mode size n h =
      let first = scan mode size test (n - h) h (h / size) in
      ground (
        arith,
        scan-first_from mode size (n - h) h (h / size),
        scan-first_from mode size h 0 first.block,
      )

-- the first record in probe order
abbrev pub probe : (ℕ → Bool) → ℕ → ℕ → Option ℕ
probe test n h = or_else (first_from test (n - h) h) (first_from test h 0)

module _ (test : ℕ → Bool) (n h : ℕ) (home : h < n) where
  pub probe-some : (i : ℕ) → probe test n h ≡ some i → (test i ≡ true) × (i < n)
  probe-some i e = ground (arith, first_from-some test (n - h) h i, first_from-some test h 0 i)

  pub probe-none : (i : ℕ) → probe test n h ≡ none → i < n → test i ≡ false
  probe-none i e l = ground (arith, first_from-none test (n - h) h i, first_from-none test h 0 i)

first_from-congr :
    (f g : ℕ → Bool) (rounds cur : ℕ)
    → ((i : ℕ) → i < cur + rounds → f i ≡ g i)
    → first_from f rounds cur ≡ first_from g rounds cur
unfolding first_from
first_from-congr f g zero cur h = refl
first_from-congr f g (suc rounds) cur h =
    ground
      (arith, first_from-congr f g rounds (suc cur) (λ i l. h i (omega arith)), h cur (omega arith))

-- the search depends on the test inside the table alone
pub probe-congr :
    (f g : ℕ → Bool) (n h : ℕ) → h < n → ((i : ℕ) → i < n → f i ≡ g i) → probe f n h ≡ probe g n h
probe-congr f g n h home same = ground (
  arith,
  first_from-congr f g (n - h) h (λ i l. same i (omega arith)),
  first_from-congr f g h 0 (λ i l. same i (omega arith)),
)

-- a test that a single record passes finds that record
pub probe_only :
    (f : ℕ → Bool) (n h i : ℕ)
    → h < n
    → i < n
    → f i ≡ true
    → ((j : ℕ) → j < n → f j ≡ true → j ≡ i)
    → probe f n h ≡ some i
probe_only f n h i home l t only = elim (Option-cases (probe f n h)) [
  | inl e ↦ absurd (ground (arith, probe-none f n h home i e l))
  | inr (j, e) ↦
      let found : (f j ≡ true) × (j < n) = probe-some f n h home j e in
      let same : j ≡ i = only j found.1 found.0 in ground arith
]
