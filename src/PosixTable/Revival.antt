-- ===== src/PosixTable/Revival.antt =====
-- Three `set`s at once: a key that stands in two records, so that it is there after it has been deleted.
use rest_technosphere_cpp_se.Base.{
  ℕ, ◌+◌, ◌<◌, ◌≡◌, ◌≢◌, refl, sym, ap, ◌∙◌, inl, inr, true, false, none, some, Bytes, text_eq,
  text_eq_refl, Option-cases, arith,
}
use native.Mathlib.Decide.{ℕ_discrete}
use rest_technosphere_cpp_se.Memory.{Mem, write}
use rest_technosphere_cpp_se.Memory.Laws.{write_ne}
use rest_technosphere_cpp_se.Records.{
  IsKey, Fits, filled_with, is_free, rip, lookup, status_at, key_at,
}
use rest_technosphere_cpp_se.Records.Store.{IsStored}
use rest_technosphere_cpp_se.Records.Frame.{AgreeOutside-AgreeOn, filled_with-AgreeOn}
use rest_technosphere_cpp_se.Probe.Search.{probe, probe-none}
use rest_technosphere_cpp_se.PosixTable.{
  table_size, value_size, value_offset, done, death_time, hash, home_inside, find_cell, find_filled,
  set, del, contents,
}
use rest_technosphere_cpp_se.PosixTable.Layout.{put_record-IsStored}
use rest_technosphere_cpp_se.PosixTable.Meaning.{find_cell-IsSlot, find_filled-probe}
use rest_technosphere_cpp_se.PosixTable.Race.{Pair, writing, advance, advance-writing, put}

-- a record that a pair is stored in, as a search sees it
stored-filled_with :
    (n off i : ℕ) (m m' : Mem) (key value q : Bytes)
    → IsStored n off i m m' key value
    → IsKey q
    → filled_with m' q i ≡ text_eq q key
unfolding filled_with
stored-filled_with n off i m m' key value q s k = ground (arith, s.status, s.compares q k)

filled_with-contents :
    (m : Mem) (key : Bytes) (i : ℕ)
    → i < table_size
    → filled_with m key i ≡ true
    → contents m key ≢ none
unfolding lookup
filled_with-contents m key i l f e =
    elim (Option-cases (probe (filled_with m key) table_size (hash key))) [
      | inl o ↦
          let missed =
            probe-none (filled_with m key) table_size (hash key) (home_inside key) i o l in
          absurd (cc)
      | inr (p, o) ↦ absurd (let g = rw (o, lookup) at e in cc)
    ]

-- deleting a record leaves the others
filled_with-rip :
    (m : Mem) (key : Bytes) (p i : ℕ)
    → IsKey key
    → i ≢ p
    → filled_with (write m (status_at p) rip) key i ≡ filled_with m key i
filled_with-rip m key p i k ne =
    filled_with-AgreeOn i m (write m (status_at p) rip) key
      (λ t l. write_ne m (status_at p) rip (key_at i + t) (λ e. ne (omega arith))) k.fits

-- a key that stands in two records is there after `del`
del_twice :
    (m : Mem) (key : Bytes) (i j : ℕ)
    → IsKey key
    → i < table_size
    → j < table_size
    → i ≢ j
    → filled_with m key i ≡ true
    → filled_with m key j ≡ true
    → ((del m key).status ≡ done) × (contents (del m key).memory key ≢ none)
unfolding del
del_twice m key i j k li lj d fi fj = elim (Option-cases (find_filled m key).0) [
  | inl o ↦
      let missed =
        probe-none (filled_with m key) table_size (hash key) (home_inside key) i
          (sym (find_filled-probe m key) ∙ o) li in
      absurd (cc)
  | inr (p, o) ↦
      rw (o, del)
        (
          refl,
          elim (ℕ_discrete i p) [
            | no e ↦
                filled_with-contents (write m (status_at p) rip) key i li
                  (filled_with-rip m key p i k e ∙ fi)
            | yes e ↦
                filled_with-contents (write m (status_at p) rip) key j lj
                  (filled_with-rip m key p j k (λ s. d (e ∙ sym s)) ∙ fj)
          ],
        )
]

set-put :
    (m : Mem) (p : Pair) (i : ℕ)
    → (find_cell m p.key).0 ≡ some i
    → (set m p.key p.value p.ttl p.now).memory ≡ put m i p
unfolding set
set-put m p i o = rw (o, set)

put-IsStored :
    (m : Mem) (i : ℕ) (p : Pair)
    → i < table_size
    → IsKey p.key
    → Fits value_size p.value
    → IsStored table_size value_offset i m (put m i p) p.key p.value
put-IsStored m i p l k v = put_record-IsStored m i p.key p.value (death_time p.ttl p.now) l k v

-- a record that holds one key is not the one in which another is to be stored
slot_apart :
    (m : Mem) (i j : ℕ) (p : Pair) (key : Bytes)
    → i < table_size
    → IsKey p.key
    → Fits value_size p.value
    → IsKey key
    → text_eq key p.key ≡ false
    → (find_cell (put m i p) key).0 ≡ some j
    → i ≢ j
slot_apart m i j p key l k v kq ne e same =
    let s = put-IsStored m i p l k v in
    let other : filled_with (put m i p) key i ≡ false =
      stored-filled_with table_size value_offset i m (put m i p) p.key p.value key s kq ∙ ne in
    let taken : is_free (put m i p) i ≡ false = unfold is_free in rw s.status in
    let slot = find_cell-IsSlot (put m i p) key i (e ∙ ap some (sym same)) in
    elim slot.own [ inl f ↦ absurd (cc) | inr (f, all) ↦ absurd (cc) ]

twice-revived :
    (m : Mem) (i j : ℕ) (first second third : Pair)
    → IsKey first.key
    → IsKey second.key
    → text_eq first.key second.key ≡ false
    → third.key ≡ first.key
    → Fits value_size first.value
    → Fits value_size second.value
    → Fits value_size third.value
    → (find_cell m first.key).0 ≡ some i
    → (find_cell (put m i second) third.key).0 ≡ some j
    → let late = put (put (put m i second) j third) i first in
      (i ≢ j)
      × (filled_with late first.key i ≡ true)
      × (filled_with late first.key j ≡ true)
      × ((del late first.key).status ≡ done)
      × (contents (del late first.key).memory first.key ≢ none)
twice-revived m i j first second third k k2 ne same v v2 v3 e e4 =
    let m1 = put m i second in
    let m2 = put m1 j third in
    let late = put m2 i first in
    let li = (find_cell-IsSlot m first.key i e).inside in
    let lj = (find_cell-IsSlot m1 third.key j e4).inside in
    let apart : i ≢ j =
      slot_apart m i j second first.key li k2 v2 k ne
        (ap (λ q. (find_cell m1 q).0) (sym same) ∙ e4) in
    let k3 : IsKey third.key = rw same k in
    let stored = put-IsStored m2 i first li k v in
    let at_i : filled_with late first.key i ≡ true =
      stored-filled_with table_size value_offset i m2 late first.key first.value first.key stored k
      ∙ text_eq_refl first.key in
    let at_j : filled_with late first.key j ≡ true =
      filled_with-AgreeOn j m2 late first.key
        (AgreeOutside-AgreeOn i j m2 late stored.outside (λ s. apart (sym s))) k.fits
      ∙ stored-filled_with table_size value_offset j m1 m2 third.key third.value first.key
          (put-IsStored m1 j third lj k3 v3) k
      ∙ ap (text_eq first.key) same
      ∙ text_eq_refl first.key in
    let (dies, stays) = del_twice late first.key i j k li lj apart at_i at_j in
    (apart, at_i, at_j, dies, stays)

-- A worker's `set` of a key has found its record; before it writes, a second worker stores another key,
-- whose own search ends at that very record, and a third worker then finds a record for the first key
-- and stores it there. When the first worker has written, the key stands in two records: it can be
-- deleted with success and is there nevertheless.
pub revival :
    (m : Mem) (i j : ℕ) (first second third : Pair)
    → IsKey first.key
    → IsKey second.key
    → text_eq first.key second.key ≡ false
    → third.key ≡ first.key
    → Fits value_size first.value
    → Fits value_size second.value
    → Fits value_size third.value
    → (find_cell m first.key).0 ≡ some i
    → (find_cell m second.key).0 ≡ some i
    → let stored = (set m second.key second.value second.ttl second.now).memory in
      (find_cell stored third.key).0 ≡ some j
      → let again = (set stored third.key third.value third.ttl third.now).memory in
        let late = (advance again (writing i first)).0 in
        (i ≢ j)
        × (filled_with late first.key i ≡ true)
        × (filled_with late first.key j ≡ true)
        × ((del late first.key).status ≡ done)
        × (contents (del late first.key).memory first.key ≢ none)
revival m i j first second third k k2 ne same v v2 v3 e e2 e3 =
    let m1 = put m i second in
    let m2 = put m1 j third in
    let one : (set m second.key second.value second.ttl second.now).memory ≡ m1 =
      set-put m second i e2 in
    let e4 : (find_cell m1 third.key).0 ≡ some j = rw (← one) e3 in
    let two : (set m1 third.key third.value third.ttl third.now).memory ≡ m2 =
      set-put m1 third j e4 in
    rw (one, two, advance-writing m2 first i)
      (twice-revived m i j first second third k k2 ne same v v2 v3 e e4)
