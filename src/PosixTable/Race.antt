-- ===== src/PosixTable/Race.antt =====
-- Two `set`s of two workers of server 2.0 at once. Between the search of `set` and its writes no lock is
-- held, so the searches of both may come before the writes of either. The search is one step here, and
-- so are the writes, which go on under one lock.
use rest_technosphere_cpp_se.Base.{
  ℕ, ◌<◌, ◌≡◌, refl, ap, ◌∙◌, Bool, true, false, none, some, List, [], ◌∷◌, Bytes, text_eq, inl,
  inr, Option-cases, if◌then◌else◌, arith,
}
use rest_technosphere_cpp_se.Memory.{Mem}
use rest_technosphere_cpp_se.Records.{IsKey, Fits}
use rest_technosphere_cpp_se.Records.Store.{IsStored, store-lookup}
use rest_technosphere_cpp_se.PosixTable.{
  table_size, value_size, value_offset, Status, done, failed, put_record, death_time, hash,
  home_inside, find_cell, set, contents,
}
use rest_technosphere_cpp_se.PosixTable.Layout.{put_record-IsStored}
use rest_technosphere_cpp_se.PosixTable.Meaning.{IsValid, find_cell-IsSlot}

-- what a call of `set` is given
pub record Pair : Type 0 where
  pub key : Bytes
  pub value : Bytes
  pub ttl : ℕ
  pub now : ℕ

-- A worker in `set`: before the search, with the cell that it found, and behind the return.
pub data Phase : Type 0 where
  searching : Pair → Phase
  writing : (cell : ℕ) → Pair → Phase
  returned : Status → Phase

unfoldable pub advance : Mem → Phase → Mem × Phase
advance m (searching p) = elim (find_cell m p.key).0 [
  | none ↦ (m, returned failed)
  | some i ↦ (m, writing i p)
]
advance m (writing i p) = (put_record m i p.key p.value (death_time p.ttl p.now), returned done)
advance m (returned status) = (m, returned status)

-- the workers in the order of a schedule, `true` for the first
unfoldable pub run : Mem → Phase → Phase → List Bool → Mem × Phase × Phase
run m a b [] = (m, a, b)
run m a b (true ∷ turns) = run (advance m a).0 (advance m a).1 b turns
run m a b (false ∷ turns) = run (advance m b).0 a (advance m b).1 turns

advance-searching :
    (m : Mem) (p : Pair) (i : ℕ)
    → (find_cell m p.key).0 ≡ some i
    → advance m (searching p) ≡ (m, writing i p)
unfolding advance
advance-searching m p i e = rw (e, advance)

pub advance-writing :
    (m : Mem) (p : Pair) (i : ℕ)
    → advance m (writing i p)
      ≡ (put_record m i p.key p.value (death_time p.ttl p.now), returned done)
unfolding advance
advance-writing m p i = refl

-- a worker that is alone does what `set` does
advance_alone-set :
    (m : Mem) (p : Pair)
    → let after = set m p.key p.value p.ttl p.now in
      advance (advance m (searching p)).0 (advance m (searching p)).1
      ≡ (after.memory, returned after.status)
unfolding set
advance_alone-set m p = elim (Option-cases (find_cell m p.key).0) [
  | inl o ↦
      let failing : advance m (searching p) ≡ (m, returned failed) =
        unfold advance in rw (o, advance) in
      ap (λ s. advance s.0 s.1) failing ∙ unfold advance in rw (o, set)
  | inr (i, o) ↦
      ap (λ s. advance s.0 s.1) (advance-searching m p i o) ∙ advance-writing m p i ∙ rw (o, set)
]

abbrev pub both_search : List Bool
both_search = true ∷ false ∷ true ∷ false ∷ []

abbrev pub put : Mem → ℕ → Pair → Mem
put m i p = put_record m i p.key p.value (death_time p.ttl p.now)

-- a record that is filled twice holds the second pair
twice-IsStored :
    (m : Mem) (i : ℕ) (p q : Pair)
    → i < table_size
    → IsKey p.key
    → Fits value_size p.value
    → IsKey q.key
    → Fits value_size q.value
    → IsStored table_size value_offset i m (put (put m i p) i q) q.key q.value
twice-IsStored m i p q l k v k' v' =
    let first = put_record-IsStored m i p.key p.value (death_time p.ttl p.now) l k v in
    let second = put_record-IsStored (put m i p) i q.key q.value (death_time q.ttl q.now) l k' v' in
    record {
      outside = λ a out. second.outside a out ∙ first.outside a out;
      status = second.status;
      compares = second.compares;
      reads = second.reads;
      closed = second.closed;
    }

-- If the searches of two `set`s end at one record and both come before the writes, both calls succeed
-- and the table is as if the first had not been made.
lost_update :
    (m : Mem) (i : ℕ) (p q : Pair)
    → IsValid m
    → IsKey p.key
    → Fits value_size p.value
    → IsKey q.key
    → Fits value_size q.value
    → (find_cell m p.key).0 ≡ some i
    → (find_cell m q.key).0 ≡ some i
    → (k : Bytes) → IsKey k
    → let (after, first, second) = run m (searching p) (searching q) both_search in
      (first ≡ returned done)
      × (second ≡ returned done)
      × (contents after k ≡ (if text_eq k q.key then some q.value else contents m k))
unfolding run
lost_update m i p q w kp vp kq vq e e' k kk =
    let slot = find_cell-IsSlot m q.key i e' in
    rw
      (
        advance-searching m p i e,
        advance-searching m q i e',
        advance-writing m p i,
        advance-writing (put m i p) q i,
      )
      (
        refl,
        refl,
        store-lookup table_size value_offset i m (put (put m i p) i q) q.key q.value kq
            (twice-IsStored m i p q slot.inside kp vp kq vq) slot w (omega arith)
            (omega (arith, vq.fits)) hash home_inside k kk,
      )
