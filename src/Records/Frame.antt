-- ===== src/Records/Frame.antt =====
-- A change inside one record, or to status bytes alone, is not seen by the reads of other records.
use rest_technosphere_cpp_se.Base.{
  ℕ, ◌+◌, ◌≤◌, ◌<◌, ◌≡◌, ◌≢◌, ◌⊎◌, inl, inr, ltb, Bool-cases, Bytes, length, arith,
}
use rest_technosphere_cpp_se.Memory.{Mem, strcmp, c_string}
use rest_technosphere_cpp_se.Memory.Laws.{strcmp_frame, c_string_frame}
use rest_technosphere_cpp_se.Records.{key_size, record_size, key_at, filled_with, room}

-- the two memories agree on every byte outside record `i`
abbrev pub AgreeOutside : ℕ → Mem → Mem → Type 0
AgreeOutside i m m' = (a : ℕ) → (a < key_at i) ⊎ (key_at i + record_size ≤ a) → m' a ≡ m a

-- the two memories agree on every byte of record `j`
abbrev pub AgreeOn : ℕ → Mem → Mem → Type 0
AgreeOn j m m' = (t : ℕ) → t < record_size → m' (key_at j + t) ≡ m (key_at j + t)

-- ... but the status byte
abbrev pub AgreeButStatus : ℕ → Mem → Mem → Type 0
AgreeButStatus j m m' =
    (t : ℕ) → t < record_size → t ≢ key_size → m' (key_at j + t) ≡ m (key_at j + t)

pub AgreeOutside-AgreeOn : (i j : ℕ) (m m' : Mem) → AgreeOutside i m m' → j ≢ i → AgreeOn j m m'
AgreeOutside-AgreeOn i j m m' h d t l = elim (Bool-cases (ltb j i)) [
  | inl e ↦ h (key_at j + t) (inl (ground arith))
  | inr e ↦ h (key_at j + t) (inr (ground arith))
]

module _ (j : ℕ) (m m' : Mem) where
  pub strcmp-AgreeButStatus :
      (key : Bytes)
      → AgreeButStatus j m m'
      → length key < key_size
      → strcmp key m' (key_at j) ≡ strcmp key m (key_at j)
  strcmp-AgreeButStatus key h l =
      strcmp_frame key m m' (key_at j) (λ t b. h t (omega arith) (omega arith))

  pub filled_with-AgreeOn :
      (key : Bytes)
      → AgreeOn j m m'
      → length key < key_size
      → filled_with m' key j ≡ filled_with m key j
  unfolding filled_with
  filled_with-AgreeOn key h l =
      let same = strcmp-AgreeButStatus key (λ t b _. h t b) l in
      let status : m' (key_at j + key_size) ≡ m (key_at j + key_size) = h key_size (omega arith) in
      ground arith

  pub c_string-AgreeButStatus :
      (n off t : ℕ)
      → AgreeButStatus j m m'
      → key_size < off
      → off + t < record_size
      → j < n
      → m (key_at j + off + t) ≡ 0
      → c_string (room n (key_at j + off)) m' (key_at j + off)
        ≡ c_string (room n (key_at j + off)) m (key_at j + off)
  c_string-AgreeButStatus n off t h lo hi inside z =
      c_string_frame (room n (key_at j + off)) m m' (key_at j + off) t z (omega arith) (λ s l.
        let e : key_at j + off + s ≡ key_at j + (off + s) = omega arith in
        let same : m' (key_at j + (off + s)) ≡ m (key_at j + (off + s)) =
          h (off + s) (omega arith) (omega arith) in
        ground arith)
