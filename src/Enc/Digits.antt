-- ===== src/Enc/Digits.antt =====
-- A character as digits to the base 64: a reference decoder, and encodings of each length.
use ivm.Base.{
  ℕ, ◌+◌, ◌-◌, ◌*◌, ◌/◌, ◌%◌, ◌≤◌, ◌<◌, ◌≡◌, refl, ◌∙◌, List, [], ◌∷◌, length, ltb, if◌then◌else◌,
  arith,
}
use ivm.Enc.{step}
use ivm.Enc.Bytes.{step-announced}

-- The payload of a first byte, and what the bytes after it add: a reference decoder.
abbrev pub lead : ℕ → ℕ
lead b =
    if ltb b 0x80
    then b
    else if ltb b 0xE0
    then b - 0xC0
    else if ltb b 0xF0
    then b - 0xE0
    else if ltb b 0xF8
    then b - 0xF0
    else if ltb b 0xFC
    then b - 0xF8
    else b - 0xFC

abbrev pub follow : ℕ → List ℕ → ℕ
follow c [] = c
follow c (b ∷ bytes) = follow (c * 64 + (b - 0x80)) bytes

abbrev pub decode : List ℕ → ℕ
decode [] = 0
decode (b ∷ bytes) = follow (lead b) bytes

-- The encoding `bytes` of the character `c`.
pub record Encoded (c : ℕ) (bytes : List ℕ) : Type 0 where
  pub decodes : decode bytes ≡ c
  pub first : ℕ
  pub rest : List ℕ
  pub shape : bytes ≡ first ∷ rest
  pub announces : step first ≡ length bytes

pub one_byte : (c : ℕ) → c ≤ 0x7F → Encoded c (c ∷ [])
one_byte c low = record {
  decodes = ground arith;
  first = c;
  rest = [];
  shape = refl;
  announces = step-announced c (omega arith) ∙ ground arith;
}

pub two_bytes :
    (c b b1 : ℕ)
    → 0x7F < c
    → c ≤ 0x7FF
    → b ≡ 0xC0 + c / 64
    → b1 ≡ 0x80 + c / 1 % 64
    → Encoded c (b ∷ b1 ∷ [])
two_bytes c b b1 low high e e1 =
    let range : (0xC0 ≤ b) × (b < 0xE0) = (omega arith, omega arith) in
    record {
      decodes =
          let payload : lead b ≡ c / 64 = ground (arith, range) in
          let q0 : c / 1 ≡ c / 64 * 64 + c / 1 % 64 = omega arith in omega (arith, payload, q0);
      first = b;
      rest = b1 ∷ [];
      shape = refl;
      announces = step-announced b (omega arith) ∙ ground (arith, range);
    }

pub three_bytes :
    (c b b1 b2 : ℕ)
    → 0x7FF < c
    → c ≤ 0xFFFF
    → b ≡ 0xE0 + c / 4096
    → b1 ≡ 0x80 + c / 64 % 64
    → b2 ≡ 0x80 + c / 1 % 64
    → Encoded c (b ∷ b1 ∷ b2 ∷ [])
three_bytes c b b1 b2 low high e e1 e2 =
    let range : (0xE0 ≤ b) × (b < 0xF0) = (omega arith, omega arith) in
    record {
      decodes =
          let payload : lead b ≡ c / 4096 = ground (arith, range) in
          let q0 : c / 1 ≡ c / 64 * 64 + c / 1 % 64 = omega arith in
          let q1 : c / 64 ≡ c / 4096 * 64 + c / 64 % 64 = omega arith in
          omega (arith, payload, q0, q1);
      first = b;
      rest = b1 ∷ b2 ∷ [];
      shape = refl;
      announces = step-announced b (omega arith) ∙ ground (arith, range);
    }

pub four_bytes :
    (c b b1 b2 b3 : ℕ)
    → 0xFFFF < c
    → c ≤ 0x1FFFFF
    → b ≡ 0xF0 + c / 262144
    → b1 ≡ 0x80 + c / 4096 % 64
    → b2 ≡ 0x80 + c / 64 % 64
    → b3 ≡ 0x80 + c / 1 % 64
    → Encoded c (b ∷ b1 ∷ b2 ∷ b3 ∷ [])
four_bytes c b b1 b2 b3 low high e e1 e2 e3 =
    let range : (0xF0 ≤ b) × (b < 0xF8) = (omega arith, omega arith) in
    record {
      decodes =
          let payload : lead b ≡ c / 262144 = ground (arith, range) in
          let q0 : c / 1 ≡ c / 64 * 64 + c / 1 % 64 = omega arith in
          let q1 : c / 64 ≡ c / 4096 * 64 + c / 64 % 64 = omega arith in
          let q2 : c / 4096 ≡ c / 262144 * 64 + c / 4096 % 64 = omega arith in
          omega (arith, payload, q0, q1, q2);
      first = b;
      rest = b1 ∷ b2 ∷ b3 ∷ [];
      shape = refl;
      announces = step-announced b (omega arith) ∙ ground (arith, range);
    }

pub five_bytes :
    (c b b1 b2 b3 b4 : ℕ)
    → 0x1FFFFF < c
    → c ≤ 0x3FFFFFF
    → b ≡ 0xF8 + c / 16777216
    → b1 ≡ 0x80 + c / 262144 % 64
    → b2 ≡ 0x80 + c / 4096 % 64
    → b3 ≡ 0x80 + c / 64 % 64
    → b4 ≡ 0x80 + c / 1 % 64
    → Encoded c (b ∷ b1 ∷ b2 ∷ b3 ∷ b4 ∷ [])
five_bytes c b b1 b2 b3 b4 low high e e1 e2 e3 e4 =
    let range : (0xF8 ≤ b) × (b < 0xFC) = (omega arith, omega arith) in
    record {
      decodes =
          let payload : lead b ≡ c / 16777216 = ground (arith, range) in
          let q0 : c / 1 ≡ c / 64 * 64 + c / 1 % 64 = omega arith in
          let q1 : c / 64 ≡ c / 4096 * 64 + c / 64 % 64 = omega arith in
          let q2 : c / 4096 ≡ c / 262144 * 64 + c / 4096 % 64 = omega arith in
          let q3 : c / 262144 ≡ c / 16777216 * 64 + c / 262144 % 64 = omega arith in
          omega (arith, payload, q0, q1, q2, q3);
      first = b;
      rest = b1 ∷ b2 ∷ b3 ∷ b4 ∷ [];
      shape = refl;
      announces = step-announced b (omega arith) ∙ ground (arith, range);
    }

pub six_bytes :
    (c b b1 b2 b3 b4 b5 : ℕ)
    → 0x3FFFFFF < c
    → c ≤ 0x7FFFFFFF
    → b ≡ 0xFC + c / 1073741824
    → b1 ≡ 0x80 + c / 16777216 % 64
    → b2 ≡ 0x80 + c / 262144 % 64
    → b3 ≡ 0x80 + c / 4096 % 64
    → b4 ≡ 0x80 + c / 64 % 64
    → b5 ≡ 0x80 + c / 1 % 64
    → Encoded c (b ∷ b1 ∷ b2 ∷ b3 ∷ b4 ∷ b5 ∷ [])
six_bytes c b b1 b2 b3 b4 b5 low high e e1 e2 e3 e4 e5 =
    let range : (0xFC ≤ b) × (b < 0xFE) = (omega arith, omega arith) in
    record {
      decodes =
          let payload : lead b ≡ c / 1073741824 = ground (arith, range) in
          let q0 : c / 1 ≡ c / 64 * 64 + c / 1 % 64 = omega arith in
          let q1 : c / 64 ≡ c / 4096 * 64 + c / 64 % 64 = omega arith in
          let q2 : c / 4096 ≡ c / 262144 * 64 + c / 4096 % 64 = omega arith in
          let q3 : c / 262144 ≡ c / 16777216 * 64 + c / 262144 % 64 = omega arith in
          let q4 : c / 16777216 ≡ c / 1073741824 * 64 + c / 16777216 % 64 = omega arith in
          omega (arith, payload, q0, q1, q2, q3, q4);
      first = b;
      rest = b1 ∷ b2 ∷ b3 ∷ b4 ∷ b5 ∷ [];
      shape = refl;
      announces = step-announced b (omega arith) ∙ ground (arith, range);
    }
