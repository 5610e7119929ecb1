-- ===== src/Escape/RoundTrip.antt =====
-- util/parser.c: what escaped text means.
use ivm.Base.{
  ℕ, zero, suc, ◌+◌, ◌*◌, ◌/◌, ◌%◌, ◌<◌, ◌≤◌, ◌≡◌, refl, ap, ◌∙◌, true, false, none, some, List, [],
  ◌∷◌, ◌++◌, append_assoc, length, ltb, ◌==◌, if◌then◌else◌, arith,
}
use ivm.Enc.{encode}
use ivm.Escape.{
  is_hex, hex_to_digit, done, simple_escape, read_num, starts, number_escape, unicode_escape,
  escape, write_before, parse_loop, parse_str,
}

-- A hexadecimal digit as a character.
digit : ℕ → ℕ
digit n = if ltb n 10 then 48 + n else 87 + n

digit-hex : (n : ℕ) → n < 16 → is_hex (digit n) ≡ true
unfolding digit is_hex
digit-hex n h = ground arith

digit-value : (n : ℕ) → n < 16 → hex_to_digit (digit n) ≡ n
unfolding digit hex_to_digit
digit-value n h = ground arith

-- The last `w` hexadecimal digits of a number, before a text.
unfoldable hex_digits : ℕ → ℕ → List ℕ → List ℕ
unfolding digit
hex_digits zero n tail = tail
hex_digits (suc w) n tail = hex_digits w (n / 16) (digit (n % 16) ∷ tail)

abbrev limit : ℕ → ℕ
limit zero = 1
limit (suc w) = 16 * limit w

starts-hex_digits :
    (w n : ℕ) (tail : List ℕ)
    → starts is_hex tail ≡ true
    → starts is_hex (hex_digits w n tail) ≡ true
unfolding hex_digits starts
starts-hex_digits zero n tail h = h
starts-hex_digits (suc w) n tail h =
    starts-hex_digits w (n / 16) (digit (n % 16) ∷ tail) (digit-hex (n % 16) (omega arith))

read_num-hex_digits :
    (w k n : ℕ) (tail : List ℕ)
    → n < limit w
    → n < 4294967296
    → read_num is_hex 16 (w + k) 0 (hex_digits w n tail) ≡ read_num is_hex 16 k n tail
unfolding hex_digits read_num
read_num-hex_digits zero k n tail h small =
    let empty : n ≡ 0 = omega arith in
    let rounds : zero + k ≡ k = omega arith in rw (empty, rounds) refl
read_num-hex_digits (suc w) k n tail h small =
    let rounds : suc w + k ≡ w + suc k = omega arith in
    let ih =
      read_num-hex_digits w (suc k) (n / 16) (digit (n % 16) ∷ tail) (omega arith) (omega arith) in
    let is_digit = digit-hex (n % 16) (omega arith) in
    let value = digit-value (n % 16) (omega arith) in
    let again : (n / 16 * 16 + n % 16) % 4294967296 ≡ n = omega arith in
    rw (rounds, ih) (rw (read_num, is_digit, value, again) refl)

-- A piece of a text: a character that is no backslash, a byte or a Unicode character.
pub data Piece : Type 0 where
  raw : ℕ → Piece
  byte : ℕ → Piece
  character : ℕ → Piece

-- The piece in a text, before the rest: as it is, with \x and two digits, with \u and eight digits.
pub write_piece : Piece → List ℕ → List ℕ
write_piece (raw c) rest = c ∷ rest
write_piece (byte b) rest = 92 ∷ 120 ∷ hex_digits 2 b rest
write_piece (character c) rest = 92 ∷ 117 ∷ hex_digits 8 c rest

pub write_pieces : List Piece → List ℕ
write_pieces [] = []
write_pieces (p ∷ ps) = write_piece p (write_pieces ps)

-- The bytes that a piece means.
pub data Means : Piece → List ℕ → Type 0 where
  raw_means : (c : ℕ) → (c == 92) ≡ false → Means (raw c) (c ∷ [])
  byte_means : (b : ℕ) → b < 256 → Means (byte b) (b ∷ [])
  character_means :
      (c : ℕ) (bytes : List ℕ) → c < 4294967296 → encode c ≡ some bytes → Means (character c) bytes

pub data AllMean : List Piece → List ℕ → Type 0 where
  mean_nil : AllMean [] []
  mean_cons :
      (p : Piece) (ps : List Piece) (bytes text : List ℕ)
      → Means p bytes
      → AllMean ps text
      → AllMean (p ∷ ps) (bytes ++ text)

plain_x : simple_escape 120 ≡ none
unfolding simple_escape
plain_x = refl

plain_u : simple_escape 117 ≡ none
unfolding simple_escape
plain_u = refl

hex_digits-starts : (w n : ℕ) (tail : List ℕ) → starts is_hex (hex_digits (suc w) n tail) ≡ true
unfolding hex_digits starts
hex_digits-starts w n tail =
    starts-hex_digits w (n / 16) (digit (n % 16) ∷ tail) (digit-hex (n % 16) (omega arith))

-- All the digits are read, and nothing else.
read_digits :
    (w n : ℕ) (tail : List ℕ)
    → n < limit w
    → n < 4294967296
    → read_num is_hex 16 w 0 (hex_digits w n tail) ≡ (n, tail)
unfolding read_num
read_digits w n tail h small =
    let rounds : w ≡ w + 0 = omega arith in
    ap (λ m. read_num is_hex 16 m 0 (hex_digits w n tail)) rounds
    ∙ read_num-hex_digits w 0 n tail h small

escape-byte :
    (b : ℕ) (rest : List ℕ) → b < 256 → escape 120 (hex_digits 2 b rest) ≡ done (b ∷ [], rest)
unfolding escape number_escape
escape-byte b rest h =
    let start = hex_digits-starts 1 b rest in
    let two = read_digits 2 b rest (omega arith) (omega arith) in
    let same : b % 256 ≡ b = omega arith in
    rw (escape, plain_x, number_escape, start, two, same) refl

escape-character :
    (c : ℕ) (bytes rest : List ℕ)
    → c < 4294967296
    → encode c ≡ some bytes
    → escape 117 (hex_digits 8 c rest) ≡ done (bytes, rest)
unfolding escape unicode_escape
escape-character c bytes rest h e =
    let start = hex_digits-starts 7 c rest in
    let eight = read_digits 8 c rest (omega arith) h in
    rw (escape, plain_u, unicode_escape, start, eight, e) (ap (λ r. done (bytes, r.1)) eight)

plain_step :
    (fuel c : ℕ) (str : List ℕ)
    → (c == 92) ≡ false
    → parse_loop (suc fuel) (c ∷ str) ≡ write_before (c ∷ []) (parse_loop fuel str)
unfolding parse_loop
plain_step fuel c [] e = refl
plain_step fuel c (d ∷ str) e = rw (parse_loop, e) refl

escaped_step :
    (fuel d : ℕ) (str bytes rest : List ℕ)
    → escape d str ≡ done (bytes, rest)
    → parse_loop (suc fuel) (92 ∷ d ∷ str) ≡ write_before bytes (parse_loop fuel rest)
unfolding parse_loop
escaped_step fuel d str bytes rest e = rw (parse_loop, e) refl

piece_step :
    (fuel : ℕ) (p : Piece) (bytes rest : List ℕ)
    → Means p bytes
    → parse_loop (suc fuel) (write_piece p rest) ≡ write_before bytes (parse_loop fuel rest)
unfolding write_piece
piece_step fuel _ _ rest (raw_means c e) = plain_step fuel c rest e
piece_step fuel _ _ rest (byte_means b h) =
    escaped_step fuel 120 (hex_digits 2 b rest) (b ∷ []) rest (escape-byte b rest h)
piece_step fuel _ _ rest (character_means c bytes h e) =
    escaped_step fuel 117 (hex_digits 8 c rest) bytes rest (escape-character c bytes rest h e)

-- Enough fuel is a round for each piece.
parse_pieces :
    (ps : List Piece) (text : List ℕ) (fuel : ℕ)
    → AllMean ps text
    → length ps ≤ fuel
    → parse_loop fuel (write_pieces ps) ≡ some (done (text ++ 0 ∷ []))
unfolding parse_loop write_pieces
parse_pieces _ _ fuel mean_nil h = refl
parse_pieces _ _ zero (mean_cons p ps bytes text m ms) h = absurd (omega arith)
parse_pieces _ _ (suc fuel) (mean_cons p ps bytes text m ms) h =
    piece_step fuel p bytes (write_pieces ps) m
    ∙ rw (parse_pieces ps text fuel ms (omega arith), append_assoc) refl

length-hex_digits : (w n : ℕ) (tail : List ℕ) → length tail ≤ length (hex_digits w n tail)
unfolding hex_digits
length-hex_digits zero n tail = omega arith
length-hex_digits (suc w) n tail =
    omega (arith, length-hex_digits w (n / 16) (digit (n % 16) ∷ tail))

length-write_piece : (p : Piece) (rest : List ℕ) → suc (length rest) ≤ length (write_piece p rest)
unfolding write_piece
length-write_piece (raw c) rest = omega arith
length-write_piece (byte b) rest = omega (arith, length-hex_digits 2 b rest)
length-write_piece (character c) rest = omega (arith, length-hex_digits 8 c rest)

length-write_pieces : (ps : List Piece) → length ps ≤ length (write_pieces ps)
unfolding write_pieces
length-write_pieces [] = omega arith
length-write_pieces (p ∷ ps) =
    omega (arith, length-write_piece p (write_pieces ps), length-write_pieces ps)

-- ivm_parser_parseStr_c of a text of pieces gives the bytes that they mean and a NUL, where a
-- piece is a character other than a backslash and means itself, \x and the two digits of a byte,
-- which it means, or \u and the eight digits of a Unicode character, which means its UTF-8.
pub parse_str-write_pieces :
    (ps : List Piece) (text : List ℕ)
    → AllMean ps text
    → parse_str (write_pieces ps) ≡ some (done (text ++ 0 ∷ []))
unfolding parse_str
parse_str-write_pieces ps text m =
    parse_pieces ps text (length (write_pieces ps)) m (length-write_pieces ps)
