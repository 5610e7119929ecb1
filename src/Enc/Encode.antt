-- ===== src/Enc/Encode.antt =====
-- ivm_enc_utf8_encode_c: an encoding can be decoded, and its first byte announces its length.
use ivm.Base.{ℕ, ◌≤◌, ◌<◌, ◌≡◌, Bool-cases, none, some, List, [], ◌∷◌, leb, arith, ◌⊎◌, inl, inr}
use ivm.Enc.{first_byte, next_byte, encode}
use ivm.Enc.Bytes.{first_byte_sum, next_byte_sum}
use ivm.Enc.Digits.{Encoded, one_byte, two_bytes, three_bytes, four_bytes, five_bytes, six_bytes}

-- ivm_enc_utf8_encode_c encodes exactly the characters up to 0x7FFFFFFF; the bytes decode to the
-- character, and the step at the first byte is their number.
pub encode-Encoded :
    (c : ℕ)
    → ((c ≤ 0x7FFFFFFF) × (bytes : List ℕ) × (encode c ≡ some bytes) × Encoded c bytes)
      ⊎ ((0x7FFFFFFF < c) × (encode c ≡ none))
unfolding encode
encode-Encoded c =
    let (f2, f3, f4, f5, f6) = first_byte_sum c in
    elim (Bool-cases (leb c 0x7F)) [
      | inl h0 ↦ inl (ground arith, c ∷ [], ground (arith, h0), one_byte c (ground arith))
      | inr h0 ↦ elim (Bool-cases (leb c 0x7FF)) [
        | inl h1 ↦ inl (
          ground arith,
          first_byte 2 c ∷ next_byte 2 1 c ∷ [],
          ground (arith, h0, h1),
          two_bytes c (first_byte 2 c) (next_byte 2 1 c) (ground arith) (ground arith)
              (f2 (ground arith)) (next_byte_sum 2 1 c),
        )
        | inr h1 ↦ elim (Bool-cases (leb c 0xFFFF)) [
          | inl h2 ↦ inl (
            ground arith,
            first_byte 3 c ∷ next_byte 3 1 c ∷ next_byte 3 2 c ∷ [],
            ground (arith, h0, h1, h2),
            three_bytes c (first_byte 3 c) (next_byte 3 1 c) (next_byte 3 2 c) (ground arith)
                (ground arith) (f3 (ground arith)) (next_byte_sum 3 1 c) (next_byte_sum 3 2 c),
          )
          | inr h2 ↦ elim (Bool-cases (leb c 0x1FFFFF)) [
            | inl h3 ↦ inl (
              ground arith,
              first_byte 4 c ∷ next_byte 4 1 c ∷ next_byte 4 2 c ∷ next_byte 4 3 c ∷ [],
              ground (arith, h0, h1, h2, h3),
              four_bytes c (first_byte 4 c) (next_byte 4 1 c) (next_byte 4 2 c) (next_byte 4 3 c)
                  (ground arith) (ground arith) (f4 (ground arith)) (next_byte_sum 4 1 c)
                  (next_byte_sum 4 2 c) (next_byte_sum 4 3 c),
            )
            | inr h3 ↦ elim (Bool-cases (leb c 0x3FFFFFF)) [
              | inl h4 ↦ inl (
                ground arith,
                first_byte 5 c
                    ∷ next_byte 5 1 c
                    ∷ next_byte 5 2 c
                    ∷ next_byte 5 3 c
                    ∷ next_byte 5 4 c
                    ∷ [],
                ground (arith, h0, h1, h2, h3, h4),
                five_bytes c (first_byte 5 c) (next_byte 5 1 c) (next_byte 5 2 c) (next_byte 5 3 c)
                    (next_byte 5 4 c) (ground arith) (ground arith) (f5 (ground arith))
                    (next_byte_sum 5 1 c) (next_byte_sum 5 2 c) (next_byte_sum 5 3 c)
                    (next_byte_sum 5 4 c),
              )
              | inr h4 ↦ elim (Bool-cases (leb c 0x7FFFFFFF)) [
                | inl h5 ↦ inl (
                  ground arith,
                  first_byte 6 c
                      ∷ next_byte 6 1 c
                      ∷ next_byte 6 2 c
                      ∷ next_byte 6 3 c
                      ∷ next_byte 6 4 c
                      ∷ next_byte 6 5 c
                      ∷ [],
                  ground (arith, h0, h1, h2, h3, h4, h5),
                  six_bytes c (first_byte 6 c) (next_byte 6 1 c) (next_byte 6 2 c) (next_byte 6 3 c)
                      (next_byte 6 4 c) (next_byte 6 5 c) (ground arith) (ground arith)
                      (f6 (ground arith)) (next_byte_sum 6 1 c) (next_byte_sum 6 2 c)
                      (next_byte_sum 6 3 c) (next_byte_sum 6 4 c) (next_byte_sum 6 5 c),
                )
                | inr h5 ↦ inr (ground arith, ground (arith, h0, h1, h2, h3, h4, h5))
              ]
            ]
          ]
        ]
      ]
    ]
