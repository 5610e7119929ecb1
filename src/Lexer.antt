-- ===== src/Lexer.antt =====
-- util/parser.h: the tokenizer of the front ends, which follows a table of transitions. A text is
-- the list of its characters with a NUL behind them, a pointer into it an index; messages are not
-- printed. A step answers none where the code reads outside the text or the table, or stops the
-- machine on a malformed pattern.
pub mod Advance
pub mod Within
use ivm.Base.{
  ℕ, zero, suc, ◌+◌, ◌-◌, Bool, true, false, not, ◌&&◌, ◌||◌, Option, none, some, List, [], ◌∷◌,
  ◌++◌, get_elem?, ltb, leb, ◌==◌, if◌then◌else◌,
}

-- struct token_t
pub record Token : Type 0 where
  pub id : ℕ
  pub len : ℕ
  pub val : ℕ
  pub line : ℕ
  pub pos : ℕ

-- struct trans_entry_t; of the message only whether there is one.
pub record TransEntry : Type 0 where
  pub match_ : List ℕ
  pub to_state : ℕ
  pub save : ℕ
  pub ign : Bool
  pub exc : Bool
  pub ext : Bool
  pub msg : Bool

unfoldable pub is_one_of : ℕ → List ℕ → Bool
is_one_of c [] = false
is_one_of c (r ∷ reg) = r == c || is_one_of c reg

-- _is_match
unfoldable pub is_match : ℕ → List ℕ → Option Bool
unfolding is_one_of
is_match c [] = none
is_match c (kind ∷ reg) =
    let first : ℕ = elim reg [ [] ↦ 0 | r ∷ _ ↦ r ] in
    let second : ℕ = elim reg [ [] ↦ 0 | _ ∷ rest ↦ elim rest [ [] ↦ 0 | r ∷ _ ↦ r ] ] in
    if kind == 61
    then some (c == first)
    else if kind == 45
    then some ((leb first c && leb c second) || (leb c first && leb second c))
    else if kind == 124
    then some (c == first || c == second)
    else if kind == 46
    then some true
    else if kind == 36
    then some (ltb 127 c)
    else if kind == 38
    then some (is_one_of c reg)
    else none

-- The loop over the transitions of a state: the first that matches.
unfoldable pub find_entry : ℕ → List TransEntry → Option (Option TransEntry)
find_entry c [] = some none
find_entry c (e ∷ es) = elim (is_match c e.match_) [
  | none ↦ none
  | some matches ↦ elim matches [ true ↦ some (some e) | false ↦ find_entry c es ]
]

-- The variables of _ivm_parser_tokenizer.
pub record Lexer : Type 0 where
  pub state : ℕ
  pub c : ℕ
  pub line : ℕ
  pub col : ℕ
  pub has_exc : Bool
  pub tmp_token : Token
  pub tokens : List Token

abbrev pub fresh_token : ℕ → ℕ → ℕ → Token
fresh_token val line pos = record { id = 0; len = 0; val = val; line = line; pos = pos }

-- Before the loop.
unfoldable pub lexer_init : ℕ → Lexer
lexer_init lineno = record {
  state = 0;
  c = 0;
  line = lineno;
  col = 0;
  has_exc = false;
  tmp_token = fresh_token 0 lineno 1;
  tokens = [];
}

-- Lines are counted, unless the character is met for the second time.
unfoldable pub count_line : ℕ → Bool → Lexer → Lexer
count_line cur newline_behind s =
    if s.has_exc
    then record s { has_exc = false }
    else if cur == 10
    then record s { line = s.line + 1; col = s.c }
    else if cur == 13
    then record s { line = s.line + 1; col = s.c; has_exc = newline_behind }
    else s

-- What a transition does that has no message.
unfoldable pub take_entry : TransEntry → Lexer → Lexer
take_entry e s =
    let pos = s.c + 1 - s.col in
    let stays = e.to_state == s.state in
    let longer = record s.tmp_token { len = suc s.tmp_token.len } in
    let token = record (if e.ext || stays then longer else s.tmp_token) { id = e.save } in
    let saved = record s { tokens = s.tokens ++ token ∷ []; state = e.to_state } in
    let after = record s { state = e.to_state } in
    if e.ign
    then (if e.exc
        then record after { tmp_token = fresh_token s.c s.line (s.c - s.col) }
        else record after { tmp_token = fresh_token (suc s.c) s.line pos; c = suc s.c })
    else if not (e.save == 0)
    then (if e.exc || stays
        then record saved { tmp_token = fresh_token (suc s.c) s.line pos; c = suc s.c }
        else record saved { tmp_token = fresh_token s.c s.line pos; has_exc = true })
    else (if e.exc then after else record after { tmp_token = longer; c = suc s.c })

pub data Lexed : Type 0 where
  going : Lexer → Lexed
  finished : Lexer → Lexed
  refused : Lexed

-- `while (cur_c != '\0' || has_exc)`
abbrev pub go_on : ℕ → Lexer → Lexed
go_on cur s = if not (cur == 0) || s.has_exc then going s else finished s

-- The body of the loop.
unfoldable pub lex_step : List (List TransEntry) → List ℕ → Lexer → Option Lexed
unfolding find_entry count_line take_entry
lex_step trans_map src s = elim (get_elem? (src ++ 0 ∷ []) s.c) [
  | none ↦ none
  | some cur ↦
      let behind : Bool = elim (get_elem? (src ++ 0 ∷ []) (suc s.c)) [
        | none ↦ false
        | some d ↦ d == 10
      ] in
      let counted = count_line cur behind s in
      elim (get_elem? trans_map s.state) [
        | none ↦ none
        | some entries ↦ elim (find_entry cur entries) [
          | none ↦ none
          | some found ↦ elim found [
            | none ↦ some (go_on cur (record counted { state = 1 }))
            | some e ↦ some (if e.msg then refused else go_on cur (take_entry e counted))
          ]
        ]
      ]
]
