-- ===== src/Enc.antt =====
-- std/enc.c: text in UTF-8. A byte is a number below 256; `c >> k` is a quotient and `c & 0x3F` a
-- remainder.
pub mod Bytes
pub mod Digits
pub mod Encode
pub mod Strlen
use ivm.Base.{
  ℕ, zero, suc, ◌+◌, ◌-◌, ◌*◌, ◌/◌, ◌%◌, ◌^◌, bit_and, bit_or, Bool, true, false, not, ◌&&◌, Option,
  none, some, List, [], ◌∷◌, get_elem?, length, ltb, leb, ◌==◌, if◌then◌else◌,
}

-- ivm_enc_isAllAscii_n
unfoldable pub is_all_ascii : List ℕ → Bool
is_all_ascii [] = true
is_all_ascii (c ∷ str) = let rest = is_all_ascii str in if ltb 0x7F c then false else rest

-- HEAD(n): a byte whose first `n` bits are set.
abbrev pub head : ℕ → ℕ
head n = 256 - 2 ^ (8 - n)

-- ivm_enc_utf8_step, of the byte at which a character starts.
unfoldable pub step : ℕ → ℕ
step c =
    if leb c 0x7F
    then 1
    else if bit_and c (head 3) == head 2
    then 2
    else if bit_and c (head 4) == head 3
    then 3
    else if bit_and c (head 5) == head 4
    then 4
    else if bit_and c (head 6) == head 5
    then 5
    else if bit_and c (head 7) == head 6
    then 6
    else 1

-- FIRSTC(n, c)
unfoldable pub first_byte : ℕ → ℕ → ℕ
first_byte n c = bit_or (head n) (c / 2 ^ ((n - 1) * 6))

-- NEXTNC(n, i, c)
unfoldable pub next_byte : ℕ → ℕ → ℕ → ℕ
next_byte n i c = bit_or 0x80 (c / 2 ^ ((n - i - 1) * 6) % 64)

-- ivm_enc_utf8_encode_c: the bytes that are written to the buffer, none being -1.
unfoldable pub encode : ℕ → Option (List ℕ)
encode c =
    if leb c 0x7F
    then some (c ∷ [])
    else if leb c 0x7FF
    then some (first_byte 2 c ∷ next_byte 2 1 c ∷ [])
    else if leb c 0xFFFF
    then some (first_byte 3 c ∷ next_byte 3 1 c ∷ next_byte 3 2 c ∷ [])
    else if leb c 0x1FFFFF
    then some (first_byte 4 c ∷ next_byte 4 1 c ∷ next_byte 4 2 c ∷ next_byte 4 3 c ∷ [])
    else if leb c 0x3FFFFFF
    then some (
        first_byte 5 c ∷ next_byte 5 1 c ∷ next_byte 5 2 c ∷ next_byte 5 3 c ∷ next_byte 5 4 c ∷ [])
    else if leb c 0x7FFFFFFF
    then some (
        first_byte 6 c
        ∷ next_byte 6 1 c
        ∷ next_byte 6 2 c
        ∷ next_byte 6 3 c
        ∷ next_byte 6 4 c
        ∷ next_byte 6 5 c
        ∷ [])
    else none

-- `while (i < n)` of ivm_enc_utf8_strlen_n, over the `n` bytes of `mbs`; none is -1, and fuel that
-- ran out.
unfoldable pub strlen_loop : ℕ → List ℕ → ℕ → ℕ → Option ℕ
strlen_loop zero mbs i ret = none
strlen_loop (suc fuel) mbs i ret = elim (get_elem? mbs i) [
  | some c ↦ strlen_loop fuel mbs (i + step c) (suc ret)
  | none ↦ if i == length mbs then some ret else none
]

-- ivm_enc_utf8_strlen_n
unfoldable pub strlen_n : List ℕ → Option ℕ
strlen_n mbs = strlen_loop (suc (length mbs)) mbs 0 0
