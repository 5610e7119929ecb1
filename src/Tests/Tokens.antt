-- ===== src/Tests/Tokens.antt =====
-- The tokenizer with a small table.
use ivm.Base.{ℕ, ◌≡◌, refl, true, false, some, List, [], ◌∷◌}
use ivm.Lexer.{
  Token, TransEntry, Lexer, lexer_init, is_one_of, is_match, find_entry, count_line, take_entry,
  going, finished, fresh_token, lex_step,
}
use ivm.Lexer.Advance.{Laid}
use ivm.Lexer.Within.{IsTameMap, start, next, tokens-Laid}

-- { "=a", INIT, 5 }, { ".", INIT, .ign }
abbrev table : List (List TransEntry)
table =
    (record {
      match_ = 61 ∷ 97 ∷ [];
      to_state = 0;
      save = 5;
      ign = false;
      exc = false;
      ext = false;
      msg = false;
    }
      ∷ record {
        match_ = 46 ∷ [];
        to_state = 0;
        save = 0;
        ign = true;
        exc = false;
        ext = false;
        msg = false;
      }
      ∷ [])
    ∷ []

table-IsTameMap : IsTameMap table
table-IsTameMap = (((λ e. e), ((λ e. e), tt)), tt)

abbrev letter : Token
letter = record { id = 5; len = 1; val = 0; line = 1; pos = 1 }

abbrev behind : ℕ → Lexer
behind c = record {
  state = 0;
  c = c;
  line = 1;
  col = 0;
  has_exc = false;
  tmp_token = fresh_token c 1 c;
  tokens = letter ∷ [];
}

-- "ab"
abbrev text : List ℕ
text = 97 ∷ 98 ∷ []

first_step : lex_step table text (lexer_init 1) ≡ some (going (behind 1))
unfolding lex_step lexer_init is_match is_one_of find_entry count_line take_entry
first_step = refl

second_step : lex_step table text (behind 1) ≡ some (going (behind 2))
unfolding lex_step is_match is_one_of find_entry count_line take_entry
second_step = refl

last_step : lex_step table text (behind 2) ≡ some (finished (behind 3))
unfolding lex_step is_match is_one_of find_entry count_line take_entry
last_step = refl

tokens-Laid_example : Laid 0 (letter ∷ []) 3
tokens-Laid_example =
    tokens-Laid table text 1 (behind 2) (behind 3) table-IsTameMap
      (next (behind 2) (next (behind 1) start first_step) second_step) last_step
