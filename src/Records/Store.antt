-- ===== src/Records/Store.antt =====
-- What storing a pair in a record does to the searches and to the meaning of the memory.
use rest_technosphere_cpp_se.Base.{
  ℕ, ◌+◌, ◌<◌, ◌≡◌, ◌≢◌, sym, ◌∙◌, ap, ◌⊎◌, inl, inr, true, false, some, Bytes, text_eq,
  text_eq_refl, text_eq→eq, length, if◌then◌else◌, arith, Bool-cases, Option-cases,
}
use native.Mathlib.Decide.{ℕ_discrete}
use rest_technosphere_cpp_se.Memory.{Mem, strcmp, c_string}
use rest_technosphere_cpp_se.Memory.Laws.{strcmp_unique}
use rest_technosphere_cpp_se.Probe.Search.{probe, probe-some, probe-congr, probe_only}
use rest_technosphere_cpp_se.Records.{
  key_size, record_size, filled, key_at, status_at, filled_with, is_free, IsKey, room, lookup,
  IsWellFormed,
}
use rest_technosphere_cpp_se.Records.Frame.{
  AgreeOutside, AgreeOutside-AgreeOn, filled_with-AgreeOn, c_string-AgreeButStatus,
}

-- `m'` is `m` with the pair `key`, `value` in record `i`
pub record IsStored (n off i : ℕ) (m m' : Mem) (key value : Bytes) : Type 0 where
  pub outside : AgreeOutside i m m'
  pub status : m' (status_at i) ≡ filled
  pub compares : (q : Bytes) → IsKey q → strcmp q m' (key_at i) ≡ text_eq q key
  pub reads : c_string (room n (key_at i + off)) m' (key_at i + off) ≡ value
  pub closed : m' (key_at i + off + length value) ≡ 0

-- the record that `set` writes to: the key's own, or else a free one
pub record IsSlot (n i : ℕ) (m : Mem) (key : Bytes) : Type 0 where
  pub inside : i < n
  pub own :
      (filled_with m key i ≡ true)
      ⊎ ((is_free m i ≡ true) × ((j : ℕ) → j < n → filled_with m key j ≡ false))

module _ (n off i : ℕ) (m m' : Mem) (key value : Bytes) (k : IsKey key)
    (s : IsStored n off i m m' key value) (slot : IsSlot n i m key) (w : IsWellFormed n off m)
    (lo : key_size < off) (hi : off + length value < record_size) where
  module _ (q : Bytes) (kq : IsKey q) where
    other : (j : ℕ) → j ≢ i → filled_with m' q j ≡ filled_with m q j
    other j d = filled_with-AgreeOn j m m' q (AgreeOutside-AgreeOn i j m m' s.outside d) kq.fits

    here : filled_with m' q i ≡ text_eq q key
    unfolding filled_with
    here = ground (arith, s.status, s.compares q kq)

    -- before the write the record held no other key
    held_no_other : text_eq q key ≡ false → filled_with m q i ≡ false
    unfolding filled_with is_free
    held_no_other d = elim slot.own [
      | inr (f, _) ↦ ground arith
      | inl f ↦ elim (Bool-cases (strcmp q m (key_at i))) [
        | inr e ↦ ground arith
        | inl e ↦
            let same : q ≡ key = strcmp_unique q key m (key_at i) kq.text k.text e (ground arith) in
            let c : text_eq q q ≡ true = text_eq_refl q in absurd (cc (ap (text_eq q) same))
      ]
    ]

    others_only : text_eq q key ≡ false → (j : ℕ) → filled_with m' q j ≡ filled_with m q j
    others_only d j = elim (ℕ_discrete j i) [
      | no e ↦ other j e
      | yes e ↦ rw e (here ∙ d ∙ sym (held_no_other d))
    ]

  -- the only record that holds the key afterwards
  stored_only : (j : ℕ) → j < n → filled_with m' key j ≡ true → j ≡ i
  stored_only j l f = elim (ℕ_discrete j i) [
    | yes e ↦ e
    | no e ↦
        let before : filled_with m key j ≡ true = sym (other key k j e) ∙ f in
        elim slot.own [
          | inl own ↦ w.unique key j i k l slot.inside before own
          | inr (_, absent) ↦ absurd (cc (absent j l))
        ]
  ]

  pub store-IsWellFormed : IsWellFormed n off m'
  unfolding filled_with
  store-IsWellFormed = record {
    unique = λ q a b kq la lb fa fb. elim (Bool-cases (text_eq q key)) [
      | inl e ↦
          let same : q ≡ key = text_eq→eq q key e in
          let ia : a ≡ i = stored_only a la (rw same at fa) in
          let ib : b ≡ i = stored_only b lb (rw same at fb) in ia ∙ sym ib
      | inr e ↦
          w.unique q a b kq la lb (sym (others_only q kq e a) ∙ fa)
            (sym (others_only q kq e b) ∙ fb)
    ];
    ended = λ j l f. elim (ℕ_discrete j i) [
      | yes e ↦ (length value, hi, rw e s.closed)
      | no e ↦
          let agree = AgreeOutside-AgreeOn i j m m' s.outside e in
          let status : m' (key_at j + key_size) ≡ m (key_at j + key_size) =
            agree key_size (omega arith) in
          let (t, u, z) = w.ended j l (sym status ∙ f) in
          let e' : key_at j + off + t ≡ key_at j + (off + t) = omega arith in
          let byte : m' (key_at j + (off + t)) ≡ m (key_at j + (off + t)) = agree (off + t) u in
          (t, u, ground arith)
    ];
  }

  -- a search for another key ends at a record that the write left alone
  reads_before :
      (q : Bytes)
      → IsKey q
      → text_eq q key ≡ false
      → (j : ℕ) → j < n
      → filled_with m q j ≡ true
      → c_string (room n (key_at j + off)) m' (key_at j + off)
        ≡ c_string (room n (key_at j + off)) m (key_at j + off)
  unfolding filled_with
  reads_before q kq d j l f =
      let apart : j ≢ i = λ e. cc (ap (filled_with m q) e, held_no_other q kq d) in
      let agree = AgreeOutside-AgreeOn i j m m' s.outside apart in
      let (t, u, z) = w.ended j l (ground arith) in
      c_string-AgreeButStatus j m m' n off t (λ t b _. agree t b) lo u l z

  -- The stored key now reads as the stored value, and every other key reads as before.
  pub store-lookup :
      (home : Bytes → ℕ)
      → ((q : Bytes) → home q < n)
      → (q : Bytes) → IsKey q
      → lookup n off home m' q ≡ (if text_eq q key then some value else lookup n off home m q)
  unfolding lookup
  store-lookup home bound q kq = elim (Bool-cases (text_eq q key)) [
    | inl e ↦
        let same : q ≡ key = text_eq→eq q key e in
        let found : probe (filled_with m' key) n (home key) ≡ some i =
          probe_only (filled_with m' key) n (home key) i (bound key) slot.inside
            (here key k ∙ text_eq_refl key) stored_only in
        rw e (rw same (rw (found, lookup) (ap some s.reads)))
    | inr e ↦
        let same : probe (filled_with m' q) n (home q) ≡ probe (filled_with m q) n (home q) =
          probe-congr (filled_with m' q) (filled_with m q) n (home q) (bound q)
            (λ j _. others_only q kq e j) in
        elim (Option-cases (probe (filled_with m q) n (home q))) [
          | inl o ↦ rw (e, lookup, same, o)
          | inr (j, o) ↦
              let (f, l) = probe-some (filled_with m q) n (home q) (bound q) j o in
              rw (e, lookup, same, o) (ap some (reads_before q kq e j l f))
        ]
  ]
