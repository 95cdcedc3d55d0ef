-- ===== src/Records.antt =====
-- The table's memory, one record of 1024 bytes after another: 63 bytes for the key and its
-- terminator, the status byte, and the rest. Both tables have this layout and differ in where the
-- value begins, `off` bytes into the record.
pub mod Frame
pub mod Store
pub mod Bury
pub mod Clear
use rest_technosphere_cpp_se.Base.{
  ℕ, ◌+◌, ◌-◌, ◌*◌, ◌≤◌, ◌<◌, ◌≡◌, Bool, true, ◌&&◌, Option, none, some, Bytes, IsText, length,
  ◌==◌,
}
use rest_technosphere_cpp_se.Memory.{Mem, strcmp, c_string}
use rest_technosphere_cpp_se.Probe.Search.{probe}

abbrev pub key_size : ℕ
key_size = 63

abbrev pub record_size : ℕ
record_size = 1024

-- CL_FREE, CL_FILLED, CL_RIP
abbrev pub free : ℕ
free = 0

abbrev pub filled : ℕ
filled = 1

abbrev pub rip : ℕ
rip = 2

abbrev pub key_at : ℕ → ℕ
key_at i = record_size * i

abbrev pub status_at : ℕ → ℕ
status_at i = record_size * i + key_size

-- the test of `find_filled`
unfoldable pub filled_with : Mem → Bytes → ℕ → Bool
filled_with m key i = m (status_at i) == filled && strcmp key m (key_at i)

-- the test of `find_free`
unfoldable pub is_free : Mem → ℕ → Bool
is_free m i = m (status_at i) == free

-- A key that fits its field, and a text that fits in `space` bytes with its terminator.
pub record IsKey (key : Bytes) : Type 0 where
  pub text : IsText key
  pub fits : length key < key_size

pub record Fits (space : ℕ) (value : Bytes) : Type 0 where
  pub text : IsText value
  pub fits : length value < space

-- the bytes from an address to the end of the memory of `n` records
abbrev pub room : ℕ → ℕ → ℕ
room n a = record_size * n - a

-- What the memory means: the value of the record that the search for a key ends at.
unfoldable pub lookup : (n off : ℕ) → (Bytes → ℕ) → Mem → Bytes → Option Bytes
lookup n off home m key = elim (probe (filled_with m key) n (home key)) [
  | none ↦ none
  | some i ↦ some (c_string (room n (key_at i + off)) m (key_at i + off))
]

-- No key stands in two filled records, and every filled record's value ends inside the record.
pub record IsWellFormed (n off : ℕ) (m : Mem) : Type 0 where
  pub unique :
      (key : Bytes) (i j : ℕ)
      → IsKey key
      → i < n
      → j < n
      → filled_with m key i ≡ true
      → filled_with m key j ≡ true
      → i ≡ j
  pub ended :
      (i : ℕ)
      → i < n
      → m (status_at i) ≡ filled
      → (t : ℕ) × (off + t < record_size) × (m (key_at i + off + t) ≡ 0)
