-- ===== src/BaseTable/Deletion.antt =====
-- `del` against the abstract map.
use rest_technosphere_cpp_se.Base.{
  ℕ, ◌+◌, ◌≡◌, ◌≢◌, sym, ◌∙◌, ap, ◌⊎◌, inl, inr, Bool, true, false, Option, none, some, Bytes,
  text_eq, text_eq→eq, text_eq_refl, if◌then◌else◌, ◌==◌, arith, Bool-cases, ==_refl, Option-cases,
}
use rest_technosphere_cpp_se.Memory.{Mem, strcmp}
use rest_technosphere_cpp_se.Memory.Laws.{write_self, write_ne, strcmp_unique}
use rest_technosphere_cpp_se.Probe.Search.{probe, probe-some}
use rest_technosphere_cpp_se.Records.{rip, key_at, status_at, filled_with, IsKey, lookup}
use rest_technosphere_cpp_se.Records.Bury.{IsBuried, lookup_alive, bury-lookup, bury-IsWellFormed}
use rest_technosphere_cpp_se.BaseTable.{
  HashTableBase, IsGeometry, table_size, value_offset, hash, home_inside, find_filled, done, failed,
  del, contents,
}
use rest_technosphere_cpp_se.BaseTable.Meaning.{IsValid, find_filled-probe}

module _ (g : HashTableBase) (geo : IsGeometry g) where
  -- the search for a key, in the words of the specification
  find_filled_eq :
      (m : Mem) (key : Bytes) {o : Option ℕ}
      → (find_filled g m key).0 ≡ o
      → probe (filled_with m key) (table_size g) (hash g key) ≡ o
  find_filled_eq m key e = sym (find_filled-probe g geo m key) ∙ e

  module _ (m : Mem) (key : Bytes) where
    -- what `del` marks: the record that the search for the key ends at
    pub deletes : ℕ → Bool
    deletes j = elim (find_filled g m key).0 [ none ↦ false | some i ↦ j == i ]

    pub del-IsBuried : IsBuried (table_size g) deletes m (del g m key).memory
    unfolding del deletes
    del-IsBuried = elim (Option-cases (find_filled g m key).0) [
      | inl o ↦ record { kept = λ j t l d. rw (o, del); status = λ j l. rw (o, del, deletes) }
      | inr (i, o) ↦ record {
        kept = λ j t l d.
            rw (o, del) (write_ne m (status_at i) rip (key_at j + t) (λ e. d (omega arith)));
        status = λ j l. elim (Bool-cases (j == i)) [
          | inl e ↦
              let same : j ≡ i = ground arith in
              rw (o, del, deletes, e) (rw same (write_self m (status_at i) rip))
          | inr e ↦
              rw (o, del, deletes, e) (write_ne m (status_at i) rip (status_at j) (ground arith))
        ];
      }
    ]

    module _ (w : IsValid g m) where
      pub del-IsValid : IsValid g (del g m key).memory
      del-IsValid =
          bury-IsWellFormed (table_size g) value_offset deletes m (del g m key).memory del-IsBuried
            w (omega arith)

      -- the marked record is the one at which the search for the key ends, so no other key's
      spares :
          (q : Bytes) (j : ℕ)
          → IsKey q
          → IsKey key
          → text_eq q key ≡ false
          → filled_with m q j ≡ true
          → deletes j ≡ false
      unfolding deletes filled_with
      spares q j kq k d f = elim (Option-cases (find_filled g m key).0) [
        | inl o ↦ rw (deletes, o)
        | inr (i, o) ↦ elim (Bool-cases (j == i)) [
          | inr e ↦ rw (deletes, o) e
          | inl e ↦
              let (fi, l) =
                probe-some (filled_with m key) (table_size g) (hash g key)
                  (home_inside g geo.positive key) i (find_filled_eq m key o) in
              let at_j : strcmp key m (key_at j) ≡ true = ground arith in
              let same : q ≡ key =
                strcmp_unique q key m (key_at j) kq.text k.text (ground arith) at_j in
              let c : text_eq q q ≡ true = text_eq_refl q in absurd (cc (ap (text_eq q) same))
        ]
      ]

      gone : lookup_alive (table_size g) value_offset (hash g) deletes m key ≡ none
      unfolding lookup_alive deletes
      gone = elim (Option-cases (find_filled g m key).0) [
        | inl o ↦ rw (lookup_alive, find_filled_eq m key o)
        | inr (i, o) ↦ rw (lookup_alive, find_filled_eq m key o, deletes, o, ==_refl i)
      ]

      kept :
          IsKey key
          → (q : Bytes) → IsKey q
          → text_eq q key ≡ false
          → lookup_alive (table_size g) value_offset (hash g) deletes m q ≡ contents g m q
      unfolding lookup_alive lookup
      kept k q kq e = elim (Option-cases (probe (filled_with m q) (table_size g) (hash g q))) [
        | inl o ↦ rw (lookup_alive, lookup, o)
        | inr (j, o) ↦
            let (f, l) =
              probe-some (filled_with m q) (table_size g) (hash g q) (home_inside g geo.positive q)
                j o in
            rw (lookup_alive, lookup, o, spares q j kq k e f)
      ]

      -- On a valid table whose records an `int` can count the bytes of: after `del` the key is absent,
      -- and every other key reads as before, whatever the status.
      pub contents-del :
          IsKey key
          → (q : Bytes) → IsKey q
          → contents g (del g m key).memory q ≡ (if text_eq q key then none else contents g m q)
      unfolding lookup_alive lookup
      contents-del k q kq =
          bury-lookup (table_size g) value_offset deletes m (del g m key).memory del-IsBuried w
            (omega arith) (hash g) (home_inside g geo.positive) q kq
          ∙ elim (Bool-cases (text_eq q key)) [
            | inl e ↦ rw (e, text_eq→eq q key e) gone
            | inr e ↦ rw e (kept k q kq e)
          ]

    -- `del` succeeds exactly when the key is there, and otherwise changes nothing.
    del-status :
        (((del g m key).status ≡ done) × (contents g m key ≢ none))
        ⊎ (((del g m key).status ≡ failed) × (contents g m key ≡ none) × ((del g m key).memory ≡ m))
    unfolding del lookup
    del-status = elim (Option-cases (find_filled g m key).0) [
      | inl o ↦ inr (rw (o, del), rw (lookup, find_filled_eq m key o), rw (o, del))
      | inr (i, o) ↦ inl (rw (o, del), λ e. absurd (ground (arith, find_filled_eq m key o)))
    ]
