-- ===== src/Tests/Texts.antt =====
-- Characters of one and of three bytes.
use ivm.Base.{ℕ, ◌≤◌, ◌<◌, ◌≡◌, refl, none, some, List, [], ◌∷◌, ◌⊎◌}
use ivm.Enc.{encode, first_byte, next_byte}
use ivm.Enc.Digits.{Encoded}
use ivm.Enc.Encode.{encode-Encoded}

-- U+20AC is the bytes E2 82 AC.
euro : encode 0x20AC ≡ some (0xE2 ∷ 0x82 ∷ 0xAC ∷ [])
unfolding encode first_byte next_byte
euro = refl

encode-Encoded_example :
    ((0x20AC ≤ 0x7FFFFFFF) × (bytes : List ℕ) × (encode 0x20AC ≡ some bytes) × Encoded 0x20AC bytes)
    ⊎ ((0x7FFFFFFF < 0x20AC) × (encode 0x20AC ≡ none))
encode-Encoded_example = encode-Encoded 0x20AC
