-- ===== src/PosixTable/Meaning.antt =====
-- The methods against the abstract map that the memory stands for.
use rest_technosphere_cpp_se.Base.{
  ℕ, ◌<◌, ◌≡◌, sym, ◌∙◌, ◌⊎◌, inl, inr, true, false, none, some, Bytes, text_eq, if◌then◌else◌,
  arith, Option-cases,
}
use rest_technosphere_cpp_se.Memory.{Mem}
use rest_technosphere_cpp_se.Probe.Search.{probe, probe-some, probe-none, find-first_from}
use rest_technosphere_cpp_se.Records.{filled_with, is_free, IsKey, Fits, lookup, IsWellFormed}
use rest_technosphere_cpp_se.Records.Store.{IsSlot, store-lookup, store-IsWellFormed}
use rest_technosphere_cpp_se.PosixTable.{
  value_size, table_size, segment_size, value_offset, hash, home_inside, find_filled, find_free,
  find_cell, get, done, failed, put_record, death_time, set, contents,
}
use rest_technosphere_cpp_se.PosixTable.Layout.{put_record-IsStored}

abbrev pub IsValid : Mem → Type 0
IsValid = IsWellFormed table_size value_offset

pub find_filled-probe :
    (m : Mem) (key : Bytes)
    → (find_filled m key).0 ≡ probe (filled_with m key) table_size (hash key)
unfolding find_filled
find_filled-probe m key =
    find-first_from (filled_with m key) true segment_size table_size (hash key)

pub find_free-probe :
    (m : Mem) (key : Bytes) → (find_free m key).0 ≡ probe (is_free m) table_size (hash key)
unfolding find_free
find_free-probe m key = find-first_from (is_free m) true segment_size table_size (hash key)

-- `get` returns what the abstract map has under the key, and fails if it has nothing there.
pub get-contents : (m : Mem) (key : Bytes) → (get m key).0 ≡ contents m key
unfolding get lookup
get-contents m key = elim (Option-cases (find_filled m key).0) [
  | inl o ↦
      let p : probe (filled_with m key) table_size (hash key) ≡ none =
        sym (find_filled-probe m key) ∙ o in
      rw (get, lookup, o, p)
  | inr (i, o) ↦
      let p : probe (filled_with m key) table_size (hash key) ≡ some i =
        sym (find_filled-probe m key) ∙ o in
      rw (get, lookup, o, p)
]

-- the cell of `set`, when there is one
pub find_cell-IsSlot :
    (m : Mem) (key : Bytes) (i : ℕ) → (find_cell m key).0 ≡ some i → IsSlot table_size i m key
unfolding find_cell
find_cell-IsSlot m key i e = elim (Option-cases (find_filled m key).0) [
  | inr (j, o) ↦
      let p : probe (filled_with m key) table_size (hash key) ≡ some j =
        sym (find_filled-probe m key) ∙ o in
      let (f, l) = probe-some (filled_with m key) table_size (hash key) (home_inside key) j p in
      let same : j ≡ i = ground arith in
      rw same at (let s : IsSlot table_size j m key = record { inside = l; own = inl f } in s)
  | inl o ↦
      let p : probe (is_free m) table_size (hash key) ≡ some i =
        sym (find_free-probe m key) ∙ ground arith in
      let (f, l) = probe-some (is_free m) table_size (hash key) (home_inside key) i p in
      record {
        inside = l;
        own = inr (
          f,
          λ j b.
              probe-none (filled_with m key) table_size (hash key) (home_inside key) j
                (sym (find_filled-probe m key) ∙ o) b,
        );
      }
]

-- `set` fails exactly when the key is absent and no record is free.
pub find_cell-none :
    (m : Mem) (key : Bytes)
    → (find_cell m key).0 ≡ none
    → (contents m key ≡ none) × ((i : ℕ) → i < table_size → is_free m i ≡ false)
unfolding find_cell lookup
find_cell-none m key e =
    let absent : (find_filled m key).0 ≡ none = ground arith in
    let full : (find_free m key).0 ≡ none = ground arith in
    (
      rw (lookup, ← find_filled-probe m key, absent),
      λ i l.
          probe-none (is_free m) table_size (hash key) (home_inside key) i
            (sym (find_free-probe m key) ∙ full) l,
    )

module _ (m : Mem) (key value : Bytes) (ttl now : ℕ) where
  set_failed : (set m key value ttl now).status ≡ failed → (find_cell m key).0 ≡ none
  unfolding set
  set_failed h = ground arith

  pub set-done :
      (set m key value ttl now).status ≡ done
      → (i : ℕ) × ((find_cell m key).0 ≡ some i)
        × ((set m key value ttl now).memory ≡ put_record m i key value (death_time ttl now))
  unfolding set
  set-done h = elim (Option-cases (find_cell m key).0) [
    | inl o ↦ absurd (ground arith)
    | inr (i, o) ↦ (i, o, rw (o, set))
  ]

  pub set_cases :
      ((set m key value ttl now).status ≡ done)
      ⊎ (((set m key value ttl now).status ≡ failed) × ((set m key value ttl now).memory ≡ m))
  unfolding set
  set_cases = elim (Option-cases (find_cell m key).0) [
    | inl o ↦ inr (rw (o, set), rw (o, set))
    | inr (i, o) ↦ inl (rw (o, set))
  ]

  module _ (w : IsValid m) (k : IsKey key) (v : Fits value_size value) where
    pub set-IsValid : IsValid (set m key value ttl now).memory
    set-IsValid = elim set_cases [
      | inr (_, same) ↦ rw same w
      | inl h ↦
          let (i, cell, same) = set-done h in
          let slot = find_cell-IsSlot m key i cell in
          rw same (
            store-IsWellFormed table_size value_offset i m
              (put_record m i key value (death_time ttl now)) key value k
              (put_record-IsStored m i key value (death_time ttl now) slot.inside k v) slot w
              (omega arith) (omega (arith, v.fits)))
    ]

    pub set-contents :
        (set m key value ttl now).status ≡ done
        → (q : Bytes) → IsKey q
        → contents (set m key value ttl now).memory q
          ≡ (if text_eq q key then some value else contents m q)
    set-contents h q kq =
        let (i, cell, same) = set-done h in
        let slot = find_cell-IsSlot m key i cell in
        rw same (
          store-lookup table_size value_offset i m (put_record m i key value (death_time ttl now))
            key value k (put_record-IsStored m i key value (death_time ttl now) slot.inside k v)
            slot w (omega arith) (omega (arith, v.fits)) hash home_inside q kq)

  -- `set` fails only for a key that is absent while no record is free, and then changes nothing.
  set-full :
      (set m key value ttl now).status ≡ failed
      → ((set m key value ttl now).memory ≡ m)
        × (contents m key ≡ none)
        × ((i : ℕ) → i < table_size → is_free m i ≡ false)
  set-full h =
      let (absent, full) = find_cell-none m key (set_failed h) in
      elim set_cases [ inl e ↦ absurd (cc) | inr (_, same) ↦ (same, absent, full) ]
