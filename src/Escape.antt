-- ===== src/Escape.antt =====
-- util/parser.c and std/conv.h: escape sequences in the text of a string. A text is the list of its
-- characters; what the loop writes to the buffer is the list of bytes that it gives. The functions
-- are called with a place for the error message.
pub mod Bounds
pub mod RoundTrip
use ivm.Base.{
  ℕ, zero, suc, ◌+◌, ◌-◌, ◌*◌, ◌%◌, Bool, true, false, ◌&&◌, ◌||◌, Option, none, some, List, [],
  ◌∷◌, ◌++◌, length, ltb, leb, ◌==◌, if◌then◌else◌,
}
use ivm.Enc.{encode}

-- _is_dec
unfoldable pub is_dec : ℕ → Bool
is_dec c = leb 48 c && leb c 57

-- _is_oct
unfoldable pub is_oct : ℕ → Bool
is_oct c = leb 48 c && leb c 55

-- _is_hex
unfoldable pub is_hex : ℕ → Bool
is_hex c = (leb 48 c && leb c 57) || (leb 97 c && leb c 102) || (leb 65 c && leb c 70)

-- _hex_to_digit, of a hexadecimal digit.
unfoldable pub hex_to_digit : ℕ → ℕ
hex_to_digit c =
    if leb 48 c && leb c 57
    then c - 48
    else if leb 97 c && leb c 102
    then c - 97 + 10
    else c - 65 + 10

-- The messages.
pub data EscapeError : Type 0 where
  wrong_hex_escape : EscapeError
  wrong_decimal_escape : EscapeError
  wrong_unicode_escape : EscapeError
  wrong_octal_escape : EscapeError
  illegal_unicode_character : EscapeError

-- A result, or -1 with the message.
pub data Outcome (A : Type 0) : Type 0 where
  done : A → Outcome A
  failed : EscapeError → Outcome A

-- DEF_ESC: the escapes of one character.
unfoldable pub simple_escape : ℕ → Option ℕ
simple_escape c =
    if c == 97
    then some 7
    else if c == 98
    then some 8
    else if c == 102
    then some 12
    else if c == 110
    then some 10
    else if c == 114
    then some 13
    else if c == 116
    then some 9
    else if c == 118
    then some 11
    else if c == 92
    then some 92
    else if c == 34
    then some 34
    else if c == 39
    then some 39
    else none

-- READ_NUM_C from the character at which a number starts, for `max` digits more: the number in 32
-- bits, and what stands behind its last digit.
unfoldable pub read_num : (ℕ → Bool) → ℕ → ℕ → ℕ → List ℕ → ℕ × List ℕ
read_num is_digit rdx zero c str = (c, str)
read_num is_digit rdx (suc max) c [] = (c, [])
read_num is_digit rdx (suc max) c (d ∷ str) = elim (is_digit d) [
  | true ↦ read_num is_digit rdx max ((c * rdx + hex_to_digit d) % 4294967296) str
  | false ↦ (c, d ∷ str)
]

-- `str + 1 == end || !_is_...(*(str + 1))`, negated.
unfoldable pub starts : (ℕ → Bool) → List ℕ → Bool
starts is_digit [] = false
starts is_digit (d ∷ str) = is_digit d

-- READ_NUM with the test before it: the byte, and the rest.
unfoldable pub number_escape : (ℕ → Bool) → ℕ → ℕ → EscapeError → List ℕ → Outcome (List ℕ × List ℕ)
number_escape is_digit rdx max error str = elim (starts is_digit str) [
  | true ↦ let (c, rest) = read_num is_digit rdx max 0 str in done (c % 256 ∷ [], rest)
  | false ↦ failed error
]

-- `case 'u'`
unfoldable pub unicode_escape : List ℕ → Outcome (List ℕ × List ℕ)
unfolding starts read_num
unicode_escape str = elim (starts is_hex str) [
  | true ↦
      let (c, rest) = read_num is_hex 16 8 0 str in
      elim (encode c) [ some bytes ↦ done (bytes, rest) | none ↦ failed illegal_unicode_character ]
  | false ↦ failed wrong_unicode_escape
]

-- The switch, on the character behind the backslash: the bytes that are written, and the rest.
unfoldable pub escape : ℕ → List ℕ → Outcome (List ℕ × List ℕ)
unfolding number_escape unicode_escape
escape c str = elim (simple_escape c) [
  | some t ↦ done (t ∷ [], str)
  | none ↦
      if c == 88 || c == 120
      then number_escape is_hex 16 2 wrong_hex_escape str
      else if c == 68 || c == 100
      then number_escape is_dec 10 3 wrong_decimal_escape str
      else if c == 85 || c == 117
      then unicode_escape str
      else if c == 79 || c == 111
      then number_escape is_oct 8 3 wrong_octal_escape str
      else if is_oct c
      then number_escape is_oct 8 3 wrong_octal_escape (c ∷ str)
      else done (c ∷ [], str)
]

abbrev pub write_before : List ℕ → Option (Outcome (List ℕ)) → Option (Outcome (List ℕ))
write_before bytes none = none
write_before bytes (some (done text)) = some (done (bytes ++ text))
write_before bytes (some (failed e)) = some (failed e)

-- The loop; none is fuel that ran out.
unfoldable pub parse_loop : ℕ → List ℕ → Option (Outcome (List ℕ))
parse_loop fuel [] = some (done (0 ∷ []))
parse_loop zero (c ∷ str) = none
parse_loop (suc fuel) (c ∷ []) = write_before (c ∷ []) (parse_loop fuel [])
parse_loop (suc fuel) (c ∷ d ∷ str) = elim (c == 92) [
  | true ↦ elim (escape d str) [
    | failed e ↦ some (failed e)
    | done (bytes, rest) ↦ write_before bytes (parse_loop fuel rest)
  ]
  | false ↦ write_before (c ∷ []) (parse_loop fuel (d ∷ str))
]

-- ivm_parser_parseStr_c
unfoldable pub parse_str : List ℕ → Option (Outcome (List ℕ))
parse_str str = parse_loop (length str) str
