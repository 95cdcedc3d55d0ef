-- ===== src/Memory/Laws.antt =====
-- What is read back from memory after a write, and what a write leaves alone.
use rest_technosphere_cpp_se.Base.{
  ℕ, zero, suc, ◌+◌, ◌^◌, ◌≤◌, ◌<◌, ◌≡◌, refl, ◌≢◌, ◌⊎◌, true, [], ◌∷◌, Bytes, IsText, text_eq,
  length, arith,
}
use rest_technosphere_cpp_se.Memory.{Mem, write, strcpy, strcmp, c_string, store_int, load_int}

pub write_self : (m : Mem) (a v : ℕ) → write m a v a ≡ v
unfolding write
write_self m a v = ground arith

pub write_ne : (m : Mem) (a v i : ℕ) → i ≢ a → write m a v i ≡ m i
unfolding write
write_ne m a v i h = ground arith

-- `strcpy` writes nothing below its target
pub strcpy_below : (m : Mem) (dst : ℕ) (s : Bytes) (i : ℕ) → i < dst → strcpy m dst s i ≡ m i
unfolding strcpy
strcpy_below m dst [] i h = write_ne m dst 0 i (omega arith)
strcpy_below m dst (c ∷ s) i h =
    omega (arith, strcpy_below (write m dst c) (suc dst) s i, write_ne m dst c i)

-- ... and nothing past the terminator
pub strcpy_above :
    (m : Mem) (dst : ℕ) (s : Bytes) (i : ℕ) → dst + length s < i → strcpy m dst s i ≡ m i
unfolding strcpy
strcpy_above m dst [] i h = write_ne m dst 0 i (omega arith)
strcpy_above m dst (c ∷ s) i h =
    omega (arith, strcpy_above (write m dst c) (suc dst) s i, write_ne m dst c i)

-- a copy reads as the string that was copied
pub strcmp-strcpy :
    (m : Mem) (dst : ℕ) (s q : Bytes)
    → IsText s
    → IsText q
    → strcmp q (strcpy m dst s) dst ≡ text_eq q s
unfolding strcmp strcpy text_eq
strcmp-strcpy m dst [] [] hs hq = ground (arith, write_self m dst 0)
strcmp-strcpy m dst [] (d ∷ q) hs hq = ground (arith, write_self m dst 0)
strcmp-strcpy m dst (c ∷ s) [] hs hq =
    ground (arith, write_self m dst c, strcpy_below (write m dst c) (suc dst) s dst)
strcmp-strcpy m dst (c ∷ s) (d ∷ q) hs hq = ground (
  arith,
  write_self m dst c,
  strcpy_below (write m dst c) (suc dst) s dst,
  strcmp-strcpy (write m dst c) (suc dst) s q hs.1 hq.1,
)

pub c_string-strcpy :
    (room : ℕ) (m : Mem) (dst : ℕ) (s : Bytes)
    → IsText s
    → length s < room
    → c_string room (strcpy m dst s) dst ≡ s
unfolding c_string strcpy
c_string-strcpy zero m dst s hs h = absurd (omega arith)
c_string-strcpy (suc room) m dst [] hs h = ground (arith, write_self m dst 0)
c_string-strcpy (suc room) m dst (c ∷ s) hs h = ground (
  arith,
  write_self m dst c,
  strcpy_below (write m dst c) (suc dst) s dst,
  c_string-strcpy room (write m dst c) (suc dst) s hs.1,
)

-- the terminator of a copy
pub strcpy_end : (m : Mem) (dst : ℕ) (s : Bytes) → strcpy m dst s (dst + length s) ≡ 0
unfolding strcpy
strcpy_end m dst [] = let e : dst + 0 ≡ dst = omega arith in ground (arith, write_self m dst 0, e)
strcpy_end m dst (c ∷ s) =
    let e : dst + suc (length s) ≡ suc dst + length s = omega arith in
    ground (arith, strcpy_end (write m dst c) (suc dst) s, e)

-- a comparison looks at no byte past the key's length
pub strcmp_frame :
    (q : Bytes) (m m' : Mem) (a : ℕ)
    → ((t : ℕ) → t ≤ length q → m' (a + t) ≡ m (a + t))
    → strcmp q m' a ≡ strcmp q m a
unfolding strcmp
strcmp_frame [] m m' a h =
    let e : a + 0 ≡ a = omega arith in
    let h₀ : m' (a + 0) ≡ m (a + 0) = h 0 (omega arith) in ground (arith, h₀, e)
strcmp_frame (c ∷ q) m m' a h =
    let e : a + 0 ≡ a = omega arith in
    let h₀ : m' (a + 0) ≡ m (a + 0) = h 0 (omega arith) in
    ground (
      arith,
      h₀,
      e,
      strcmp_frame q m m' (suc a)
          (λ t l. let e' : suc a + t ≡ a + suc t = omega arith in ground (arith, h (suc t), e')),
    )

-- a key that compares equal is determined by the memory
pub strcmp_unique :
    (s q : Bytes) (m : Mem) (a : ℕ)
    → IsText s
    → IsText q
    → strcmp s m a ≡ true
    → strcmp q m a ≡ true
    → s ≡ q
unfolding strcmp
strcmp_unique [] [] m a hs hq h k = refl
strcmp_unique [] (d ∷ q) m a hs hq h k = absurd (ground arith)
strcmp_unique (c ∷ s) [] m a hs hq h k = absurd (ground arith)
strcmp_unique (c ∷ s) (d ∷ q) m a hs hq h k =
    let tails : s ≡ q = strcmp_unique s q m (suc a) hs.1 hq.1 (ground arith) (ground arith) in
    ground arith

-- reading a string looks at no byte past a terminator
pub c_string_frame :
    (room : ℕ) (m m' : Mem) (a t : ℕ)
    → m (a + t) ≡ 0
    → t < room
    → ((s : ℕ) → s ≤ t → m' (a + s) ≡ m (a + s))
    → c_string room m' a ≡ c_string room m a
unfolding c_string
c_string_frame zero m m' a t z l h = refl
c_string_frame (suc room) m m' a zero z l h =
    let e : a + 0 ≡ a = omega arith in
    let h₀ : m' (a + 0) ≡ m (a + 0) = h 0 (omega arith) in ground (arith, h₀, e)
c_string_frame (suc room) m m' a (suc t) z l h =
    let e : a + 0 ≡ a = omega arith in
    let e₁ : suc a + t ≡ a + suc t = omega arith in
    let h₀ : m' (a + 0) ≡ m (a + 0) = h 0 (omega arith) in
    ground (
      arith,
      h₀,
      e,
      c_string_frame room m m' (suc a) t (ground arith) (omega arith)
          (λ s l. let e' : suc a + s ≡ a + suc s = omega arith in ground (arith, h (suc s), e')),
    )

pub store_int_ne : (m : Mem) (a w i : ℕ) → (i < a) ⊎ (a + 4 ≤ i) → store_int m a w i ≡ m i
unfolding store_int write
store_int_ne m a w i h = ground arith

pub load_int-store_int : (m : Mem) (a w : ℕ) → w < 2 ^ 32 → load_int (store_int m a w) a ≡ w
unfolding load_int store_int write
load_int-store_int m a w h = ground arith

pub load_int_frame :
    (m m' : Mem) (a : ℕ) → ((t : ℕ) → t < 4 → m' (a + t) ≡ m (a + t)) → load_int m' a ≡ load_int m a
unfolding load_int
load_int_frame m m' a h = let e : a + 0 ≡ a = omega arith in ground (arith, e, h 0, h 1, h 2, h 3)
