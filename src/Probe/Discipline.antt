-- ===== src/Probe/Discipline.antt =====
-- A search keeps the lock discipline and ends with no lock held.
use rest_technosphere_cpp_se.Base.{
  ℕ, zero, suc, ◌-◌, ◌/◌, ◌≡◌, refl, ◌∙◌, inl, inr, Bool, none, some, List, [], ◌∷◌, ◌++◌, arith,
  Bool-cases, Option-cases,
}
use rest_technosphere_cpp_se.Locks.{
  Event, release, reads, Held, idle, holding, follow, follow-append,
}
use rest_technosphere_cpp_se.Probe.{Scan, switch_block, scan, wrap_around, find}

-- the lock state after a loop: released where it found something, else still on the last block
abbrev after : Bool → Scan → Held
after mode s = elim s.index [ some _ ↦ idle | none ↦ holding s.block mode ]

after-none : (mode : Bool) (s : Scan) → s.index ≡ none → after mode s ≡ holding s.block mode
after-none mode s o = ground arith

after-some : (mode : Bool) (s : Scan) (i : ℕ) → s.index ≡ some i → after mode s ≡ idle
after-some mode s i o = ground arith

module _ (mode : Bool) (size : ℕ) where
  follow-switch_block :
      (block new_block : ℕ)
      → follow size (holding block mode) (switch_block mode size block new_block)
        ≡ holding new_block mode
  unfolding switch_block follow
  follow-switch_block block new_block = elim (Bool-cases mode) [
    | inl e ↦ ground arith
    | inr e ↦ ground arith
  ]

  pub follow-read :
      (cur block : ℕ) (es : List Event)
      → follow size
          (holding block mode)
          (switch_block mode size block (cur / size) ++ (reads cur ∷ es))
        ≡ follow size (holding (cur / size) mode) es
  unfolding follow
  follow-read cur block es =
      rw (follow-append, follow-switch_block block (cur / size)) (ground arith)

  pub follow-release : (b : ℕ) → follow size (holding b mode) (release b mode ∷ []) ≡ idle
  unfolding follow
  follow-release b = ground arith

module _ (mode : Bool) (size : ℕ) (test : ℕ → Bool) where
  follow-scan :
      (rounds cur block : ℕ)
      → follow size (holding block mode) (scan mode size test rounds cur block).events
        ≡ after mode (scan mode size test rounds cur block)
  unfolding scan follow
  follow-scan zero cur block = refl
  follow-scan (suc rounds) cur block = elim (Bool-cases (test cur)) [
    | inl e ↦ rw (e, follow-read) (follow-release mode size (cur / size))
    | inr e ↦ rw (e, follow-read) (follow-scan rounds (suc cur) (cur / size))
  ]

  follow-wrap_around :
      (h : ℕ) (first : Scan)
      → follow size (holding (h / size) mode) first.events ≡ holding first.block mode
      → follow size (holding (h / size) mode) (wrap_around mode size test h first).events ≡ idle
  unfolding wrap_around
  follow-wrap_around h first e =
      let second = scan mode size test h 0 first.block in
      let run = follow-scan h 0 first.block in
      elim (Option-cases second.index) [
        | inl o ↦
            rw (o, wrap_around, follow-append, e, follow-append, run, after-none mode second o)
              (follow-release mode size second.block)
        | inr (i, o) ↦ rw (o, wrap_around, follow-append, e) (run ∙ after-some mode second i o)
      ]

  -- Every lock is taken while none is held and given back, every record is read under the lock of
  -- its own block, and nothing is held at the end.
  pub find-discipline :
      (table_size h : ℕ) → follow size idle (find mode size test table_size h).1 ≡ idle
  unfolding find follow
  find-discipline table_size h =
      let first = scan mode size test (table_size - h) h (h / size) in
      let run = follow-scan (table_size - h) h (h / size) in
      elim (Option-cases first.index) [
        | inl o ↦ rw o (follow-wrap_around h first (run ∙ after-none mode first o))
        | inr (i, o) ↦ rw o (run ∙ after-some mode first i o)
      ]
