-- ===== src/Probe.antt =====
-- The linear search that `find_filled` and `find_free` of both hash tables make: from the key's
-- home record to the end of the table, then from the start up to the home record, with the lock of
-- each block held while its records are looked at.
pub mod Search
pub mod Discipline
use rest_technosphere_cpp_se.Base.{
  ℕ, zero, suc, ◌-◌, ◌/◌, Bool, true, false, Option, none, some, List, [], ◌∷◌, ◌++◌, ◌==◌,
  if◌then◌else◌,
}
use rest_technosphere_cpp_se.Locks.{Event, acquire, release, reads}

-- The result, the variable `block_idx` after the loop, and what was done on the way.
pub record Scan : Type 0 where
  pub index : Option ℕ
  pub block : ℕ
  pub events : List Event

-- `lock`, `unlock` with `mode`, and blocks of `block_size` records; `test` is the loop's test on a record.
module _ (mode : Bool) (block_size : ℕ) where
  -- the change of block at the head of a round
  unfoldable pub switch_block : ℕ → ℕ → List Event
  switch_block block new_block =
      if new_block == block then [] else release block mode ∷ acquire new_block mode ∷ []

  -- one of the two `for` loops, with `rounds` rounds left
  unfoldable pub scan : (ℕ → Bool) → ℕ → ℕ → ℕ → Scan
  scan test zero cur block = record { index = none; block = block; events = [] }
  scan test (suc rounds) cur block =
      let new_block = cur / block_size in
      let rest = scan test rounds (suc cur) new_block in
      if test cur
      then record {
        index = some cur;
        block = new_block;
        events = switch_block block new_block ++ (reads cur ∷ release new_block mode ∷ []);
      }
      else record {
        index = rest.index;
        block = rest.block;
        events = switch_block block new_block ++ (reads cur ∷ rest.events);
      }

  -- the second loop, and the `unlock` with which a search that found nothing ends
  unfoldable pub wrap_around : (ℕ → Bool) → ℕ → Scan → Scan
  wrap_around test h first =
      let second = scan test h 0 first.block in
      elim second.index [
        | some i ↦ record second { events = first.events ++ second.events }
        | none ↦ record second {
          events = first.events ++ (second.events ++ (release second.block mode ∷ []));
        }
      ]

  -- the whole search of a table of `table_size` records from record `h`
  unfoldable pub find : (ℕ → Bool) → ℕ → ℕ → Option ℕ × List Event
  find test table_size h =
      let first = scan test (table_size - h) h (h / block_size) in
      let both : Scan = elim first.index [ some i ↦ first | none ↦ wrap_around test h first ] in
      (both.index, acquire (h / block_size) mode ∷ both.events)
