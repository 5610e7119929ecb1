-- ===== src/Tests/Escapes.antt =====
-- Escaped text at concrete characters.
use ivm.Base.{ℕ, ◌≡◌, refl, some, List, [], ◌∷◌, arith}
use ivm.Enc.{encode, first_byte, next_byte}
use ivm.Escape.{
  done, failed, wrong_hex_escape, simple_escape, is_hex, hex_to_digit, starts, read_num,
  number_escape, escape, parse_loop, parse_str,
}
use ivm.Escape.Bounds.{IsBuffered, parse_str-IsBuffered}
use ivm.Escape.RoundTrip.{
  Piece, raw, byte, character, write_pieces, raw_means, byte_means, character_means, AllMean,
  mean_nil, mean_cons, parse_str-write_pieces,
}

-- `\x41z`
abbrev hex_a : List ℕ
hex_a = 92 ∷ 120 ∷ 52 ∷ 49 ∷ 122 ∷ []

hex_a-text : parse_str hex_a ≡ some (done (65 ∷ 122 ∷ 0 ∷ []))
unfolding parse_str parse_loop escape simple_escape number_escape starts read_num is_hex
    hex_to_digit
hex_a-text = refl

-- `\xz`
hex_z-refused : parse_str (92 ∷ 120 ∷ 122 ∷ []) ≡ some (failed wrong_hex_escape)
unfolding parse_str parse_loop escape simple_escape number_escape starts read_num is_hex
    hex_to_digit
hex_z-refused = refl

parse_str-IsBuffered_example : IsBuffered 5 (parse_str hex_a)
parse_str-IsBuffered_example = parse_str-IsBuffered hex_a

-- "a", the byte FF and the euro sign.
abbrev pieces : List Piece
pieces = raw 97 ∷ byte 255 ∷ character 0x20AC ∷ []

euro_bytes : encode 0x20AC ≡ some (0xE2 ∷ 0x82 ∷ 0xAC ∷ [])
unfolding encode first_byte next_byte
euro_bytes = refl

pieces-AllMean : AllMean pieces (97 ∷ 255 ∷ 0xE2 ∷ 0x82 ∷ 0xAC ∷ [])
pieces-AllMean = mean_cons _ _ _ _ (raw_means 97 refl) (
    mean_cons _ _ _ _ (byte_means 255 (omega arith)) (
      mean_cons _ _ (0xE2 ∷ 0x82 ∷ 0xAC ∷ []) [] (character_means 0x20AC _ (omega arith) euro_bytes)
        mean_nil))

parse_str-write_pieces_example :
    parse_str (write_pieces pieces) ≡ some (done (97 ∷ 255 ∷ 0xE2 ∷ 0x82 ∷ 0xAC ∷ 0 ∷ []))
parse_str-write_pieces_example =
    parse_str-write_pieces pieces (97 ∷ 255 ∷ 0xE2 ∷ 0x82 ∷ 0xAC ∷ []) pieces-AllMean
