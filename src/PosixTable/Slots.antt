-- ===== src/PosixTable/Slots.antt =====
-- Runs of the table: what a sequence of operations, by whichever process, keeps. A deleted record is
-- never used again, so a table whose records have all been used takes no new key any more.
use rest_technosphere_cpp_se.Base.{
  ℕ, ◌<◌, ◌≡◌, sym, ◌∙◌, inl, inr, Bool, false, none, some, Bytes, arith, Option-cases,
}
use native.Mathlib.Decide.{ℕ_discrete}
use rest_technosphere_cpp_se.Memory.{Mem}
use rest_technosphere_cpp_se.Probe.Search.{probe, probe-some}
use rest_technosphere_cpp_se.Records.{
  key_size, status_at, filled_with, is_free, IsKey, Fits, lookup,
}
use rest_technosphere_cpp_se.Records.Frame.{AgreeOutside-AgreeOn}
use rest_technosphere_cpp_se.Records.Bury.{IsBuried}
use rest_technosphere_cpp_se.PosixTable.{
  value_size, table_size, hash, home_inside, find_filled, find_free, find_cell, failed, put_record,
  death_time, set, del, expired, collect_garbage, contents,
}
use rest_technosphere_cpp_se.PosixTable.Layout.{put_record-IsStored}
use rest_technosphere_cpp_se.PosixTable.Meaning.{
  IsValid, find_filled-probe, find_free-probe, find_cell-IsSlot, set-done, set_cases, set-IsValid,
}
use rest_technosphere_cpp_se.PosixTable.Deletion.{deletes, del-IsBuried, del-IsValid}
use rest_technosphere_cpp_se.PosixTable.Collection.{
  collect_garbage-IsValid, collect_garbage-Collects,
}

-- one call of a method that writes
pub data Step (m m' : Mem) : Type 0 where
  setting :
      (key value : Bytes) (ttl now : ℕ)
      → IsKey key
      → Fits value_size value
      → m' ≡ (set m key value ttl now).memory
      → Step m m'
  deleting : (key : Bytes) → m' ≡ (del m key).memory → Step m m'
  collecting : (clock : ℕ → ℕ) → m' ≡ (collect_garbage clock m).memory → Step m m'

pub data Run (m : Mem) : Mem → Type 0 where
  start : Run m m
  next : {t u : Mem} → Run m t → Step t u → Run m u

-- `memset(shared_mem_addr, 0, table_size)`
abbrev pub zeroed : Mem
zeroed a = 0

pub zeroed-IsValid : IsValid zeroed
unfolding filled_with
zeroed-IsValid = record {
  unique = λ key i j k li lj fi fj. absurd (ground arith);
  ended = λ i l f. absurd (omega arith);
}

Step-IsValid : {m m' : Mem} → Step m m' → IsValid m → IsValid m'
Step-IsValid {m} (setting key value ttl now k v e) w = rw e (set-IsValid m key value ttl now w k v)
Step-IsValid {m} (deleting key e) w = rw e (del-IsValid m key w)
Step-IsValid {m} (collecting clock e) w = rw e (collect_garbage-IsValid clock m w)

-- Whatever is stored, deleted and collected, no key ever stands in two filled records, and every
-- value ends inside its record.
pub Run-IsValid : {m m' : Mem} → Run m m' → IsValid m → IsValid m'
Run-IsValid start w = w
Run-IsValid (next r s) w = Step-IsValid s (Run-IsValid r w)

abbrev IsUsed : Mem → ℕ → Type 0
IsUsed m i = is_free m i ≡ false

buried-IsUsed :
    (dead : ℕ → Bool) (m m' : Mem) (i : ℕ)
    → IsBuried table_size dead m m'
    → i < table_size
    → IsUsed m i
    → IsUsed m' i
unfolding is_free
buried-IsUsed dead m m' i b l u = ground (arith, b.status i l)

put_record-IsUsed :
    (m : Mem) (key value : Bytes) (death j : ℕ)
    → IsKey key
    → Fits value_size value
    → j < table_size
    → (i : ℕ) → IsUsed m i
    → IsUsed (put_record m j key value death) i
unfolding is_free
put_record-IsUsed m key value death j k v l i u =
    let s = put_record-IsStored m j key value death l k v in
    elim (ℕ_discrete i j) [
      | yes e ↦ rw e (ground (arith, s.status))
      | no d ↦
          let same : put_record m j key value death (status_at i) ≡ m (status_at i) =
            AgreeOutside-AgreeOn j i m (put_record m j key value death) s.outside d key_size
              (omega arith) in
          ground arith
    ]

set-IsUsed :
    (m : Mem) (key value : Bytes) (ttl now : ℕ)
    → IsKey key
    → Fits value_size value
    → (i : ℕ) → IsUsed m i
    → IsUsed (set m key value ttl now).memory i
set-IsUsed m key value ttl now k v i u = elim (set_cases m key value ttl now) [
  | inr (_, same) ↦ rw same u
  | inl h ↦
      let (j, cell, same) = set-done m key value ttl now h in
      let slot = find_cell-IsSlot m key j cell in
      rw same (put_record-IsUsed m key value (death_time ttl now) j k v slot.inside i u)
]

Step-IsUsed : {m m' : Mem} → Step m m' → (i : ℕ) → i < table_size → IsUsed m i → IsUsed m' i
Step-IsUsed {m} (setting key value ttl now k v e) i l u =
    rw e (set-IsUsed m key value ttl now k v i u)
Step-IsUsed {m} (deleting key e) i l u =
    rw e (buried-IsUsed (deletes m key) m (del m key).memory i (del-IsBuried m key) l u)
Step-IsUsed {m} (collecting clock e) i l u = rw e (
    buried-IsUsed (λ j. expired m j (clock j)) m (collect_garbage clock m).memory i
      (collect_garbage-Collects clock m).0 l u)

Run-IsUsed : {m m' : Mem} → Run m m' → (i : ℕ) → i < table_size → IsUsed m i → IsUsed m' i
Run-IsUsed start i l u = u
Run-IsUsed (next r s) i l u = Step-IsUsed s i l (Run-IsUsed r i l u)

-- no free record and no record with the key: `set` fails
set_refuses :
    (m : Mem) (key value : Bytes) (ttl now : ℕ)
    → ((i : ℕ) → i < table_size → IsUsed m i)
    → contents m key ≡ none
    → (set m key value ttl now).status ≡ failed
unfolding set find_cell lookup
set_refuses m key value ttl now full absent = elim (Option-cases (find_filled m key).0) [
  | inr (i, o) ↦
      let p : probe (filled_with m key) table_size (hash key) ≡ some i =
        sym (find_filled-probe m key) ∙ o in
      absurd (ground arith)
  | inl o ↦ elim (Option-cases (find_free m key).0) [
    | inr (i, f) ↦
        let (free, l) =
          probe-some (is_free m) table_size (hash key) (home_inside key) i
            (sym (find_free-probe m key) ∙ f) in
        absurd (cc (full i l))
    | inl f ↦ rw (set, find_cell, o, f)
  ]
]

-- Once every record has been used, `set` refuses every absent key for ever, however many records
-- are deleted or collected in between.
pub full-refuses :
    {m m' : Mem} (key value : Bytes) (ttl now : ℕ)
    → Run m m'
    → ((i : ℕ) → i < table_size → is_free m i ≡ false)
    → contents m' key ≡ none
    → (set m' key value ttl now).status ≡ failed
full-refuses {m' = m'} key value ttl now r full absent =
    set_refuses m' key value ttl now (λ i l. Run-IsUsed r i l (full i l)) absent
