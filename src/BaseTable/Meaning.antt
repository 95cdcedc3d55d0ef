-- ===== src/BaseTable/Meaning.antt =====
-- The methods of any geometry whose records an `int` can count the bytes of, against the abstract map that the memory stands for.
use rest_technosphere_cpp_se.Base.{
  ℕ, ◌<◌, ◌≡◌, sym, ◌∙◌, ◌⊎◌, inl, inr, false, none, some, Bytes, text_eq, if◌then◌else◌, arith,
  Option-cases,
}
use rest_technosphere_cpp_se.Memory.{Mem}
use rest_technosphere_cpp_se.Probe.Search.{probe, probe-some, probe-none, find-first_from}
use rest_technosphere_cpp_se.Records.{filled_with, is_free, IsKey, Fits, lookup, IsWellFormed}
use rest_technosphere_cpp_se.Records.Store.{IsSlot, store-lookup, store-IsWellFormed}
use rest_technosphere_cpp_se.BaseTable.{
  HashTableBase, IsGeometry, value_size, table_size, value_offset, hash, home_inside, find_filled,
  find_free, find_cell, get, done, failed, put_record, set, contents,
}
use rest_technosphere_cpp_se.BaseTable.Layout.{put_record-IsStored}

abbrev pub IsValid : HashTableBase → Mem → Type 0
IsValid g = IsWellFormed (table_size g) value_offset

module _ (g : HashTableBase) (geo : IsGeometry g) where
  pub find_filled-probe :
      (m : Mem) (key : Bytes)
      → (find_filled g m key).0 ≡ probe (filled_with m key) (table_size g) (hash g key)
  unfolding find_filled
  find_filled-probe m key =
      find-first_from (filled_with m key) false g.block_size (table_size g) (hash g key)

  pub find_free-probe :
      (m : Mem) (key : Bytes)
      → (find_free g m key).0 ≡ probe (is_free m) (table_size g) (hash g key)
  unfolding find_free
  find_free-probe m key = find-first_from (is_free m) false g.block_size (table_size g) (hash g key)

  -- `get` returns what the abstract map has under the key, and fails if it has nothing there.
  pub get-eq_contents : (m : Mem) (key : Bytes) → (get g m key).0 ≡ contents g m key
  unfolding get lookup
  get-eq_contents m key = elim (Option-cases (find_filled g m key).0) [
    | inl o ↦
        let p : probe (filled_with m key) (table_size g) (hash g key) ≡ none =
          sym (find_filled-probe m key) ∙ o in
        rw (get, lookup, o, p)
    | inr (i, o) ↦
        let p : probe (filled_with m key) (table_size g) (hash g key) ≡ some i =
          sym (find_filled-probe m key) ∙ o in
        rw (get, lookup, o, p)
  ]

  -- the cell of `set`, when there is one
  find_cell-IsSlot :
      (m : Mem) (key : Bytes) (i : ℕ)
      → (find_cell g m key).0 ≡ some i
      → IsSlot (table_size g) i m key
  unfolding find_cell
  find_cell-IsSlot m key i e = elim (Option-cases (find_filled g m key).0) [
    | inr (j, o) ↦
        let p : probe (filled_with m key) (table_size g) (hash g key) ≡ some j =
          sym (find_filled-probe m key) ∙ o in
        let (f, l) =
          probe-some (filled_with m key) (table_size g) (hash g key)
            (home_inside g geo.positive key) j p in
        let same : j ≡ i = ground arith in
        rw same at (let s : IsSlot (table_size g) j m key = record { inside = l; own = inl f } in s)
    | inl o ↦
        let p : probe (is_free m) (table_size g) (hash g key) ≡ some i =
          sym (find_free-probe m key) ∙ ground arith in
        let (f, l) =
          probe-some (is_free m) (table_size g) (hash g key) (home_inside g geo.positive key) i p in
        record {
          inside = l;
          own = inr (
            f,
            λ j b.
                probe-none (filled_with m key) (table_size g) (hash g key)
                  (home_inside g geo.positive key) j (sym (find_filled-probe m key) ∙ o) b,
          );
        }
  ]

  -- `set` fails exactly when the key is absent and no record is free.
  pub find_cell-none :
      (m : Mem) (key : Bytes)
      → (find_cell g m key).0 ≡ none
      → (contents g m key ≡ none) × ((i : ℕ) → i < (table_size g) → is_free m i ≡ false)
  unfolding find_cell lookup
  find_cell-none m key e =
      let absent : (find_filled g m key).0 ≡ none = ground arith in
      let full : (find_free g m key).0 ≡ none = ground arith in
      (
        rw (lookup, ← find_filled-probe m key, absent),
        λ i l.
            probe-none (is_free m) (table_size g) (hash g key) (home_inside g geo.positive key) i
              (sym (find_free-probe m key) ∙ full) l,
      )

  module _ (m : Mem) (key value : Bytes) where
    set_failed : (set g m key value).status ≡ failed → (find_cell g m key).0 ≡ none
    unfolding set
    set_failed h = ground arith

    pub set-done :
        (set g m key value).status ≡ done
        → (i : ℕ) × ((find_cell g m key).0 ≡ some i)
          × ((set g m key value).memory ≡ put_record m i key value)
    unfolding set
    set-done h = elim (Option-cases (find_cell g m key).0) [
      | inl o ↦ absurd (ground arith)
      | inr (i, o) ↦ (i, o, rw (o, set))
    ]

    pub set_cases :
        ((set g m key value).status ≡ done)
        ⊎ (((set g m key value).status ≡ failed) × ((set g m key value).memory ≡ m))
    unfolding set
    set_cases = elim (Option-cases (find_cell g m key).0) [
      | inl o ↦ inr (rw (o, set), rw (o, set))
      | inr (i, o) ↦ inl (rw (o, set))
    ]

    module _ (w : IsValid g m) (k : IsKey key) (v : Fits value_size value) where
      pub set-IsValid : IsValid g (set g m key value).memory
      set-IsValid = elim set_cases [
        | inr (_, same) ↦ rw same w
        | inl h ↦
            let (i, cell, same) = set-done h in
            let slot = find_cell-IsSlot m key i cell in
            rw same (
              store-IsWellFormed (table_size g) value_offset i m (put_record m i key value) key
                value k (put_record-IsStored (table_size g) m i key value slot.inside k v) slot w
                (omega arith) (omega (arith, v.fits)))
      ]

      -- On a valid table whose records an `int` can count the bytes of, a successful `set` of a key and a
      -- value that fit their fields updates the abstract map at the key and nowhere else.
      pub contents-set :
          (set g m key value).status ≡ done
          → (q : Bytes) → IsKey q
          → contents g (set g m key value).memory q
            ≡ (if text_eq q key then some value else contents g m q)
      contents-set h q kq =
          let (i, cell, same) = set-done h in
          let slot = find_cell-IsSlot m key i cell in
          rw same (
            store-lookup (table_size g) value_offset i m (put_record m i key value) key value k
              (put_record-IsStored (table_size g) m i key value slot.inside k v) slot w
              (omega arith) (omega (arith, v.fits)) (hash g) (home_inside g geo.positive) q kq)

    -- `set` fails only for a key that is absent while no record is free, and then changes nothing.
    set-refused :
        (set g m key value).status ≡ failed
        → ((set g m key value).memory ≡ m)
          × (contents g m key ≡ none)
          × ((i : ℕ) → i < (table_size g) → is_free m i ≡ false)
    set-refused h =
        let (absent, full) = find_cell-none m key (set_failed h) in
        elim set_cases [ inl e ↦ absurd (cc) | inr (_, same) ↦ (same, absent, full) ]
