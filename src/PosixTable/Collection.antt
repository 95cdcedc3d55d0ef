-- ===== src/PosixTable/Collection.antt =====
-- `collect_garbage`: which records it deletes, how many it counts, and what it leaves.
use rest_technosphere_cpp_se.Base.{
  ℕ, zero, suc, ◌+◌, ◌/◌, ◌≤◌, ◌<◌, ◌≡◌, ◌≢◌, refl, ◌∙◌, inl, inr, Bool, Bytes, arith, Bool-cases,
  ◌==◌, if◌then◌else◌, ltb,
}
use rest_technosphere_cpp_se.Memory.{Mem, load_int}
use rest_technosphere_cpp_se.Memory.Laws.{write_self, write_ne, load_int_frame}
use rest_technosphere_cpp_se.Records.{key_size, rip, key_at, status_at, IsKey}
use rest_technosphere_cpp_se.Records.Frame.{AgreeOn}
use rest_technosphere_cpp_se.Records.Bury.{IsBuried, lookup_alive, bury-lookup, bury-IsWellFormed}
use rest_technosphere_cpp_se.PosixTable.{
  segment_size, table_size, death_offset, value_offset, hash, home_inside, expired, to_collect,
  collect_record, collect_loop, collect_garbage, contents,
}
use rest_technosphere_cpp_se.PosixTable.Meaning.{IsValid}

-- how many of the `rounds` records from `cur` on pass a test
unfoldable pub count_from : (ℕ → Bool) → ℕ → ℕ → ℕ
count_from test zero cur = 0
count_from test (suc rounds) cur = (if test cur then 1 else 0) + count_from test rounds (suc cur)

expired_congr : (m m' : Mem) (i now : ℕ) → AgreeOn i m m' → expired m' i now ≡ expired m i now
unfolding expired
expired_congr m m' i now h =
    let same : load_int m' (key_at i + death_offset) ≡ load_int m (key_at i + death_offset) =
      load_int_frame m m' (key_at i + death_offset) (λ t l.
        let e : key_at i + death_offset + t ≡ key_at i + (death_offset + t) = omega arith in
        let b : m' (key_at i + (death_offset + t)) ≡ m (key_at i + (death_offset + t)) =
          h (death_offset + t) (omega arith) in
        ground arith) in
    rw same

collect_record-status :
    (m : Mem) (i now : ℕ)
    → collect_record m i now (status_at i) ≡ (if expired m i now then rip else m (status_at i))
unfolding collect_record
collect_record-status m i now = elim (Bool-cases (expired m i now)) [
  | inr e ↦ rw (collect_record, e)
  | inl e ↦ elim (Bool-cases (m (status_at i) == rip)) [
    | inl f ↦ rw (collect_record, e, f) (ground arith)
    | inr f ↦ rw (collect_record, e, f) (write_self m (status_at i) rip)
  ]
]

-- a round changes no byte but the status of its record
collect_record_ne : (m : Mem) (i now a : ℕ) → a ≢ status_at i → collect_record m i now a ≡ m a
unfolding collect_record
collect_record_ne m i now a d = ground (arith, write_ne m (status_at i) rip a d)

collect_record-AgreeOn : (m : Mem) (i now j : ℕ) → j ≢ i → AgreeOn j m (collect_record m i now)
collect_record-AgreeOn m i now j d t l =
    collect_record_ne m i now (key_at j + t) (λ e. d (omega arith))

module _ (clock : ℕ → ℕ) where
  -- records that the loop does not come to
  loop_outside :
      (rounds cur block : ℕ) (m : Mem) (a : ℕ)
      → ((i : ℕ) → cur ≤ i → i < cur + rounds → a ≢ status_at i)
      → (collect_loop clock rounds cur block m).memory a ≡ m a
  unfolding collect_loop
  loop_outside zero cur block m a h = refl
  loop_outside (suc rounds) cur block m a h =
      loop_outside rounds (suc cur) (cur / segment_size) (collect_record m cur (clock cur)) a
        (λ i lo hi. h i (omega arith) (omega arith))
      ∙ collect_record_ne m cur (clock cur) a (h cur (omega arith) (omega arith))

  -- each record that it comes to is judged as it stood at the start
  loop_inside :
      (rounds cur block : ℕ) (m : Mem) (j : ℕ)
      → cur ≤ j
      → j < cur + rounds
      → (collect_loop clock rounds cur block m).memory (status_at j)
        ≡ (if expired m j (clock j) then rip else m (status_at j))
  unfolding collect_loop
  loop_inside zero cur block m j lo hi = absurd (omega arith)
  loop_inside (suc rounds) cur block m j lo hi = elim (Bool-cases (ltb cur j)) [
    | inl after ↦
        let apart : j ≢ cur = ground arith in
        let agree = collect_record-AgreeOn m cur (clock cur) j apart in
        loop_inside rounds (suc cur) (cur / segment_size) (collect_record m cur (clock cur)) j
          (ground arith) (omega arith)
        ∙ rw (
          expired_congr m (collect_record m cur (clock cur)) j (clock j) agree,
          agree key_size (omega arith),
        )
    | inr first ↦
        let same : j ≡ cur = ground arith in
        rw same (
          loop_outside rounds (suc cur) (cur / segment_size) (collect_record m cur (clock cur))
            (status_at cur) (λ i l _ e. absurd (omega arith))
          ∙ collect_record-status m cur (clock cur))
  ]

  abbrev pub collected : Mem → ℕ → Bool
  collected m j = to_collect m j (clock j)

  count_from-congr :
      (f g : ℕ → Bool) (rounds cur : ℕ)
      → ((j : ℕ) → cur ≤ j → f j ≡ g j)
      → count_from f rounds cur ≡ count_from g rounds cur
  unfolding count_from
  count_from-congr f g zero cur h = refl
  count_from-congr f g (suc rounds) cur h =
      rw (h cur (omega arith), count_from-congr f g rounds (suc cur) (λ j l. h j (omega arith)))

  collected_later :
      (m : Mem) (cur j : ℕ)
      → suc cur ≤ j
      → collected (collect_record m cur (clock cur)) j ≡ collected m j
  unfolding to_collect
  collected_later m cur j l =
      let apart : j ≢ cur = omega arith in
      let agree = collect_record-AgreeOn m cur (clock cur) j apart in
      rw (
        expired_congr m (collect_record m cur (clock cur)) j (clock j) agree,
        agree key_size (omega arith),
      )

  loop_count :
      (rounds cur block : ℕ) (m : Mem)
      → (collect_loop clock rounds cur block m).count ≡ count_from (collected m) rounds cur
  unfolding collect_loop count_from
  loop_count zero cur block m = refl
  loop_count (suc rounds) cur block m = ground (
    arith,
    loop_count rounds (suc cur) (cur / segment_size) (collect_record m cur (clock cur)),
    count_from-congr (collected (collect_record m cur (clock cur))) (collected m) rounds (suc cur)
        (collected_later m cur),
  )

  module _ (m : Mem) where
    collect_garbage-IsBuried :
        IsBuried table_size (λ i. expired m i (clock i)) m (collect_garbage clock m).memory
    unfolding collect_garbage
    collect_garbage-IsBuried = record {
      kept = λ j t l d. loop_outside table_size 0 0 m (key_at j + t) (λ i _ _ e. d (omega arith));
      status = λ j l. loop_inside table_size 0 0 m j (omega arith) (omega arith);
    }

    -- The collection deletes the expired records, whatever their status was, and changes no other
    -- byte; it returns how many of them were not marked as deleted before.
    pub collect_garbage-Collects :
        IsBuried table_size (λ i. expired m i (clock i)) m (collect_garbage clock m).memory
        × ((collect_garbage clock m).count ≡ count_from (collected m) table_size 0)
    unfolding collect_garbage
    collect_garbage-Collects = (collect_garbage-IsBuried, loop_count table_size 0 0 m)

    pub collect_garbage-IsValid : IsValid m → IsValid (collect_garbage clock m).memory
    collect_garbage-IsValid w =
        bury-IsWellFormed table_size value_offset (λ i. expired m i (clock i)) m
          (collect_garbage clock m).memory collect_garbage-IsBuried w (omega arith)

    -- A key whose record has expired is gone, every other key reads as before.
    pub collect_garbage-contents :
        IsValid m
        → (q : Bytes) → IsKey q
        → contents (collect_garbage clock m).memory q
          ≡ lookup_alive table_size value_offset hash (λ i. expired m i (clock i)) m q
    collect_garbage-contents w =
        bury-lookup table_size value_offset (λ i. expired m i (clock i)) m
          (collect_garbage clock m).memory collect_garbage-IsBuried w (omega arith) hash home_inside
