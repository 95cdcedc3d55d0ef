-- ===== src/Murmur.antt =====
-- MurmurHash3 x86-32, the `hash` of both hash tables (p6/src/PosixHashTable.cpp, and
-- p5/master/src/HashTableBase.cpp, which p5/worker/src repeats). Words are numbers below 2 ^ 32.
use rest_technosphere_cpp_se.Base.{
  ℕ, ◌+◌, ◌-◌, ◌*◌, ◌/◌, ◌%◌, ◌^◌, ◌<◌, ◌≡◌, refl, bit_xor, bit_or, [], ◌∷◌, Bytes, codes, length,
  arith,
}

abbrev word : ℕ
word = 2 ^ 32

-- `(x << r) | (x >> (32 - r))`
rotl32 : ℕ → ℕ → ℕ
rotl32 x r = bit_or (x * 2 ^ r % word) (x / 2 ^ (32 - r))

fmix32 : ℕ → ℕ
fmix32 h =
    let a = bit_xor h (h / 2 ^ 16) * 0x85ebca6b % word in
    let b = bit_xor a (a / 2 ^ 13) * 0xc2b2ae35 % word in bit_xor b (b / 2 ^ 16)

-- `k1 *= c1; k1 = ROTL32(k1, 15); k1 *= c2`
scramble : ℕ → ℕ
unfolding rotl32
scramble k1 = rotl32 (k1 * 0xcc9e2d51 % word) 15 * 0x1b873593 % word

-- one round of the body
mix : ℕ → ℕ → ℕ
unfolding scramble rotl32
mix h1 k1 = (rotl32 (bit_xor h1 (scramble k1)) 13 * 5 + 0xe6546b64) % word

-- the little-endian block of four bytes
block_of : ℕ → ℕ → ℕ → ℕ → ℕ
block_of a b c d = a + 2 ^ 8 * b + 2 ^ 16 * c + 2 ^ 24 * d

-- the body, then the `switch` over the bytes that are left
absorb : ℕ → Bytes → ℕ
unfolding mix block_of scramble
absorb h1 [] = h1
absorb h1 (a ∷ []) = bit_xor h1 (scramble a)
absorb h1 (a ∷ b ∷ []) = bit_xor h1 (scramble (bit_xor (b * 2 ^ 8) a))
absorb h1 (a ∷ b ∷ c ∷ []) = bit_xor h1 (scramble (bit_xor (bit_xor (c * 2 ^ 16) (b * 2 ^ 8)) a))
absorb h1 (a ∷ b ∷ c ∷ d ∷ rest) = absorb (mix h1 (block_of a b c d)) rest

-- the hash before it is reduced to an index
murmur : Bytes → ℕ
unfolding absorb fmix32
murmur key = fmix32 (bit_xor (absorb 0 key) (length key) % word)

unfoldable pub hash : Bytes → ℕ → ℕ
unfolding murmur
hash key table_size = murmur key % table_size

pub hash-lt : (key : Bytes) (n : ℕ) → 0 < n → hash key n < n
unfolding hash
hash-lt key n h = omega arith

-- the published value of the function for this text
murmur_hello : murmur (codes "hello") ≡ 0x248bfa47
unfolding murmur
murmur_hello = refl

murmur_blocks : murmur (codes "Hello, world!") ≡ 0xc0363e43
unfolding murmur
murmur_blocks = refl
