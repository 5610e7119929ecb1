-- ===== src/Tests/Hashes.antt =====
-- Hash values of short strings.
use ivm.Base.{ℕ, List, [], ◌∷◌, ◌≡◌, refl}
use ivm.Hash.{hash_step, hash_rest, hash_rounds, hash_from_string, fold_hash, hash_from_string-fold}

-- "constructor", and a byte that is negative as a `char`
abbrev letters : List ℕ
letters = 99 ∷ 111 ∷ 110 ∷ 115 ∷ 116 ∷ 114 ∷ 117 ∷ 99 ∷ 116 ∷ 111 ∷ 200 ∷ []

-- "ab": 5381 * 33 + 97 is 177670, which times 33 and with 98 is 5863208
hash_ab : hash_from_string (97 ∷ 98 ∷ []) ≡ 5863208
unfolding hash_from_string hash_rounds hash_rest hash_step
hash_ab = refl

hash_from_string-fold_example : hash_from_string letters ≡ fold_hash 5381 letters
hash_from_string-fold_example = hash_from_string-fold letters
