-- ===== src/Hash.antt =====
-- std/hash.h: the hash functions. A hash value and a pointer are 64-bit words.
use ivm.Base.{
  ℕ, ◌+◌, ◌-◌, ◌*◌, ◌/◌, ◌%◌, ◌^◌, bit_xor, List, [], ◌∷◌, ltb, if◌then◌else◌, ◌≡◌, refl,
}

abbrev pub word : ℕ → ℕ
word x = x % 2 ^ 64

-- `x << k` and `x >> k`
abbrev pub shl : ℕ → ℕ → ℕ
shl x k = word (x * 2 ^ k)

abbrev pub shr : ℕ → ℕ → ℕ
shr x k = x / 2 ^ k

-- A `char` is signed where the code is built for (x86): a byte from 128 on is negative, and is
-- widened to a word as such.
unfoldable pub widen_char : ℕ → ℕ
widen_char c = if ltb c 128 then c else 2 ^ 64 - 256 + c

-- `((hash << 5) + hash) + *key++`
unfoldable pub hash_step : ℕ → ℕ → ℕ
unfolding widen_char
hash_step hash c = word (word (shl hash 5 + hash) + widen_char c)

-- The `switch` on the number of bytes left: each case falls through to the next lower one.
unfoldable pub hash_rest : ℕ → List ℕ → ℕ
hash_rest h (a ∷ b ∷ c ∷ d ∷ e ∷ f ∷ g ∷ []) =
    hash_step (hash_step (hash_step (hash_step (hash_step (hash_step (hash_step h a) b) c) d) e) f)
      g
hash_rest h (b ∷ c ∷ d ∷ e ∷ f ∷ g ∷ []) =
    hash_step (hash_step (hash_step (hash_step (hash_step (hash_step h b) c) d) e) f) g
hash_rest h (c ∷ d ∷ e ∷ f ∷ g ∷ []) =
    hash_step (hash_step (hash_step (hash_step (hash_step h c) d) e) f) g
hash_rest h (d ∷ e ∷ f ∷ g ∷ []) = hash_step (hash_step (hash_step (hash_step h d) e) f) g
hash_rest h (e ∷ f ∷ g ∷ []) = hash_step (hash_step (hash_step h e) f) g
hash_rest h (f ∷ g ∷ []) = hash_step (hash_step h f) g
hash_rest h (g ∷ []) = hash_step h g
hash_rest h _ = h

-- `for (; len >= 8; len -= 8)`, eight steps a round, over the `len` bytes at `key`.
unfoldable pub hash_rounds : ℕ → List ℕ → ℕ
hash_rounds h (a ∷ b ∷ c ∷ d ∷ e ∷ f ∷ g ∷ i ∷ key) =
    hash_rounds
      (hash_step
        (hash_step
          (hash_step (hash_step (hash_step (hash_step (hash_step (hash_step h a) b) c) d) e) f) g)
        i)
      key
hash_rounds h key = hash_rest h key

-- ivm_hash_fromString_c
unfoldable pub hash_from_string : List ℕ → ℕ
hash_from_string key = hash_rounds 5381 key

-- ivm_hash_fromPointer
unfoldable pub hash_from_pointer : ℕ → ℕ
hash_from_pointer ptr =
    let k₀ = shr ptr 3 in
    let k₁ = word ((2 ^ 64 - 1 - k₀) + shl k₀ 21) in
    let k₂ = bit_xor k₁ (shr k₁ 24) in
    let k₃ = word (word (k₂ + shl k₂ 3) + shl k₂ 8) in
    let k₄ = bit_xor k₃ (shr k₃ 14) in
    let k₅ = word (word (k₄ + shl k₄ 2) + shl k₄ 4) in
    let k₆ = bit_xor k₅ (shr k₅ 28) in word (k₆ + shl k₆ 31)

-- The reference definition: one step for each byte, in order.
pub fold_hash : ℕ → List ℕ → ℕ
fold_hash h [] = h
fold_hash h (c ∷ key) = fold_hash (hash_step h c) key

hash_rounds-fold : (key : List ℕ) (h : ℕ) → hash_rounds h key ≡ fold_hash h key
unfolding hash_rounds hash_rest fold_hash
hash_rounds-fold (a ∷ b ∷ c ∷ d ∷ e ∷ f ∷ g ∷ i ∷ key) h = hash_rounds-fold key _
hash_rounds-fold _ h = refl

-- The hash of a string, unrolled eight bytes a round with a fall-through switch for the rest, is
-- the hash that takes one byte at a time.
pub hash_from_string-fold : (key : List ℕ) → hash_from_string key ≡ fold_hash 5381 key
unfolding hash_from_string
hash_from_string-fold key = hash_rounds-fold key 5381
