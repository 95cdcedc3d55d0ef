-- ===== src/Memory.antt =====
-- Byte memory and the C library's string functions on it, as the hash tables and the parsed
-- commands use them. An address is a number; a C string that is passed in is the list of its
-- bytes before the terminator, and one that is read is scanned from its address.
pub mod Laws
use rest_technosphere_cpp_se.Base.{
  ℕ, zero, suc, ◌+◌, ◌-◌, ◌*◌, ◌/◌, ◌%◌, ◌^◌, Bool, true, false, ◌&&◌, List, [], ◌∷◌, Bytes, ltb,
  ◌==◌, if◌then◌else◌,
}

abbrev pub Mem : Type 0
Mem = ℕ → ℕ

-- `m[a] = v`
unfoldable pub write : Mem → ℕ → ℕ → Mem
write m a v = λ i. if i == a then v else m i

-- `strcpy(dst, s)`: the bytes and the terminator
unfoldable pub strcpy : Mem → ℕ → Bytes → Mem
strcpy m dst [] = write m dst 0
strcpy m dst (c ∷ s) = strcpy (write m dst c) (suc dst) s

-- `strcmp(key, a) == 0`
unfoldable pub strcmp : Bytes → Mem → ℕ → Bool
strcmp [] m a = m a == 0
strcmp (c ∷ s) m a = m a == c && strcmp s m (suc a)

-- the C string at `a`; the scan ends with the memory, `room` bytes on
unfoldable pub c_string : ℕ → Mem → ℕ → Bytes
c_string zero m a = []
c_string (suc room) m a = let rest = c_string room m (suc a) in if m a == 0 then [] else m a ∷ rest

-- `memcpy` of an `int` to and from memory, little-endian; the word is its bit pattern
unfoldable pub store_int : Mem → ℕ → ℕ → Mem
unfolding write
store_int m a w =
    write (write (write (write m a (w % 256)) (a + 1) (w / 2 ^ 8 % 256)) (a + 2) (w / 2 ^ 16 % 256))
      (a + 3) (w / 2 ^ 24 % 256)

unfoldable pub load_int : Mem → ℕ → ℕ
load_int m a = m a + 2 ^ 8 * m (a + 1) + 2 ^ 16 * m (a + 2) + 2 ^ 24 * m (a + 3)

-- `a < b` on the bit patterns of two `int`s
abbrev pub int_lt : ℕ → ℕ → Bool
int_lt a b = ltb ((a + 2 ^ 31) % 2 ^ 32) ((b + 2 ^ 31) % 2 ^ 32)
