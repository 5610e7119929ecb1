-- ===== src/Lexer/Within.antt =====
-- util/parser.h: the tokens are parts of the text, in its order.
use mathlib.Core.Option.{some-injective}
use ivm.Base.{
  ℕ, zero, suc, ◌-◌, ◌≤◌, ◌≡◌, refl, ap, sym, ◌∙◌, subst, Bool, true, false, Option, none, some,
  List, [], ◌∷◌, ◌++◌, length, get_elem?, get_elem?-append, ltb, ◌==◌, if◌then◌else◌, Bool-cases,
  Option-cases, inl, inr, arith,
}
use ivm.Lexer.{
  TransEntry, Lexer, lexer_init, count_line, take_entry, is_match, find_entry, Lexed, going,
  finished, refused, go_on, lex_step,
}
use ivm.Lexer.Advance.{Laid, Laid-mono, InText, IsTame, take_entry-Advanced}

abbrev pub AllTame : List TransEntry → Type 0
AllTame [] = Unit {0}
AllTame (e ∷ es) = IsTame e × AllTame es

-- The table, state by state.
abbrev pub IsTameMap : List (List TransEntry) → Type 0
IsTameMap [] = Unit {0}
IsTameMap (es ∷ map) = AllTame es × IsTameMap map

map-AllTame :
    (map : List (List TransEntry)) (state : ℕ) (es : List TransEntry)
    → IsTameMap map
    → get_elem? map state ≡ some es
    → AllTame es
map-AllTame [] state es h e = ground (arith, e)
map-AllTame (fs ∷ map) zero es (h, hs) e = subst AllTame (some-injective _ _ e) h
map-AllTame (fs ∷ map) (suc state) es (h, hs) e = map-AllTame map state es hs e

found-IsTame :
    (cur : ℕ) (es : List TransEntry) (e : TransEntry)
    → AllTame es
    → find_entry cur es ≡ some (some e)
    → IsTame e
unfolding find_entry
found-IsTame cur [] e h run = ground (arith, run)
found-IsTame cur (f ∷ es) e (h, hs) run = elim (Option-cases (is_match cur f.match_)) [
  | inl bad ↦ ground (arith, run, bad)
  | inr (matches, ok) ↦ elim (Bool-cases matches) [
    | inl hit ↦
        let same : f ≡ e =
          some-injective _ _ (some-injective _ _ (sym (rw (find_entry, ok, hit) refl) ∙ run)) in
        subst IsTame same h
    | inr miss ↦ found-IsTame cur es e hs (sym (rw (find_entry, ok, miss) refl) ∙ run)
  ]
]

-- Where a step ends: inside the text, or behind its NUL when the loop is over.
IsGood : List ℕ → Option Lexed → Type 0
IsGood src none = Unit {0}
IsGood src (some refused) = Unit {0}
IsGood src (some (going s)) = InText s × (s.c ≤ length src)
IsGood src (some (finished s)) = InText s × (s.c ≤ suc (length src))

go_on-IsGood :
    (src : List ℕ) (cur : ℕ) (s : Lexer)
    → InText s
    → s.c ≤ suc (length src)
    → ((cur == 0) ≡ false → s.c ≤ length src)
    → (s.has_exc ≡ true → (cur == 0) ≡ true → s.c ≤ length src)
    → IsGood src (some (go_on cur s))
unfolding IsGood
go_on-IsGood src cur s t near plain again = elim (Bool-cases (cur == 0)) [
  | inr more ↦ rw more (record { laid = t.laid; ends = t.ends }, plain more)
  | inl nul ↦ elim (Bool-cases s.has_exc) [
    | inl twice ↦ rw (nul, twice) (record { laid = t.laid; ends = t.ends }, again twice nul)
    | inr once ↦ rw (nul, once) (record { laid = t.laid; ends = t.ends }, near)
  ]
]

-- Before the NUL there is room for one more character.
before_nul :
    (src : List ℕ) (c cur : ℕ)
    → get_elem? (src ++ 0 ∷ []) c ≡ some cur
    → (cur == 0) ≡ false
    → c ≤ length src
    → suc c ≤ length src
before_nul src c cur at more h = elim (Bool-cases (ltb c (length src))) [
  | inl low ↦ ground (arith, low)
  | inr high ↦
      let last : c ≡ length src = ground (arith, high, h) in
      let start : c - length src ≡ 0 = omega arith in
      let here : get_elem? (src ++ 0 ∷ []) c ≡ some 0 =
        get_elem?-append src (0 ∷ []) c (length src) refl ∙ rw (high, start) refl in
      let same : 0 ≡ cur = some-injective _ _ (sym here ∙ at) in ground (arith, same, more)
]

-- Counting lines moves nothing.
record Counted (cur : ℕ) (s s' : Lexer) : Type 0 where
  text : InText s'
  stays : s'.c ≡ s.c
  skips : s'.has_exc ≡ true → (cur == 0) ≡ false

count_line-Counted :
    (cur : ℕ) (behind : Bool) (s : Lexer) → InText s → Counted cur s (count_line cur behind s)
unfolding count_line
count_line-Counted cur behind s t = elim (Bool-cases s.has_exc) [
  | inl twice ↦
      rw (count_line, twice)
        (record {
          text = record { laid = t.laid; ends = t.ends };
          stays = refl;
          skips = λ e. ground (arith, e);
        })
  | inr once ↦ elim (Bool-cases (cur == 10)) [
    | inl newline ↦
        rw (count_line, once, newline)
          (record {
            text = record { laid = t.laid; ends = t.ends };
            stays = refl;
            skips = λ e. ground (arith, e, once);
          })
    | inr other ↦ elim (Bool-cases (cur == 13)) [
      | inl return ↦
          rw (count_line, once, other, return)
            (record {
              text = record { laid = t.laid; ends = t.ends };
              stays = refl;
              skips = λ e. ground (arith, return);
            })
      | inr plain ↦
          rw (count_line, once, other, plain)
            (record {
              text = record { laid = t.laid; ends = t.ends };
              stays = refl;
              skips = λ e. ground (arith, e, once);
            })
    ]
  ]
]

found-IsGood :
    (src : List ℕ) (cur : ℕ) (s counted : Lexer) (found : Option TransEntry)
    → get_elem? (src ++ 0 ∷ []) s.c ≡ some cur
    → s.c ≤ length src
    → Counted cur s counted
    → ((e : TransEntry) → found ≡ some e → IsTame e)
    → IsGood src (elim found [
      | none ↦ some (go_on cur (record counted { state = 1 }))
      | some e ↦ some (if e.msg then refused else go_on cur (take_entry e counted))
    ])
unfolding IsGood take_entry
found-IsGood src cur s counted none at h k tame =
    go_on-IsGood src cur (record counted { state = 1 })
      (record { laid = k.text.laid; ends = k.text.ends }) (omega (arith, k.stays, h))
      (λ more. omega (arith, k.stays, h)) (λ twice nul. omega (arith, k.stays, h))
found-IsGood src cur s counted (some e) at h k tame = elim (Bool-cases e.msg) [
  | inl stop ↦ rw stop tt
  | inr on ↦
      let a = take_entry-Advanced e counted (tame e refl) k.text in
      rw on (
        go_on-IsGood src cur (take_entry e counted) a.text (omega (arith, a.near, k.stays, h))
          (λ more. omega (arith, a.near, k.stays, before_nul src s.c cur at more h))
          (λ twice nul. elim (a.again twice) [
            | inl skipped ↦ ground (arith, k.skips skipped, nul)
            | inr stays ↦ omega (arith, stays, k.stays, h)
          ]))
]

lex_step-IsGood :
    (map : List (List TransEntry)) (src : List ℕ) (s : Lexer)
    → IsTameMap map
    → InText s
    → s.c ≤ length src
    → IsGood src (lex_step map src s)
unfolding lex_step IsGood
lex_step-IsGood map src s tame t h = elim (Option-cases (get_elem? (src ++ 0 ∷ []) s.c)) [
  | inl outside ↦ rw (lex_step, outside) tt
  | inr (cur, at) ↦
      let behind : Bool = elim (get_elem? (src ++ 0 ∷ []) (suc s.c)) [
        | none ↦ false
        | some d ↦ d == 10
      ] in
      let counted = count_line cur behind s in
      let k = count_line-Counted cur behind s t in
      elim (Option-cases (get_elem? map s.state)) [
        | inl no_state ↦ rw (lex_step, at, no_state) tt
        | inr (entries, there) ↦ elim (Option-cases (find_entry cur entries)) [
          | inl malformed ↦ rw (lex_step, at, there, malformed) tt
          | inr (found, run) ↦
              rw (lex_step, at, there, run)
                (found-IsGood src cur s counted found at h k (λ e same.
                  found-IsTame cur entries e (map-AllTame map s.state entries tame there)
                    (run ∙ ap some same)))
        ]
      ]
]

-- The states that the loop passes through.
pub data Reached (map : List (List TransEntry)) (src : List ℕ) (lineno : ℕ) : Lexer → Type 0 where
  start : Reached map src lineno (lexer_init lineno)
  next :
      {s : Lexer} (s' : Lexer)
      → Reached map src lineno s
      → lex_step map src s ≡ some (going s')
      → Reached map src lineno s'

Reached-InText :
    (map : List (List TransEntry)) (src : List ℕ) (lineno : ℕ) (s : Lexer)
    → IsTameMap map
    → Reached map src lineno s
    → InText s × (s.c ≤ length src)
unfolding lexer_init IsGood
Reached-InText map src lineno _ tame start =
    (record { laid = omega arith; ends = omega arith }, omega arith)
Reached-InText map src lineno _ tame (next {s = s} s' r run) =
    let (t, h) = Reached-InText map src lineno s tame r in
    subst (IsGood src) run (lex_step-IsGood map src s tame t h)

-- Whatever the table of transitions is, as long as an entry that extends a token by the current
-- character also excludes that character: when the loop of the tokenizer is over, after any number
-- of rounds, its tokens are parts of the text and its NUL that stand one behind the other, in the
-- order of the list.
pub tokens-Laid :
    (map : List (List TransEntry)) (src : List ℕ) (lineno : ℕ) (s s' : Lexer)
    → IsTameMap map
    → Reached map src lineno s
    → lex_step map src s ≡ some (finished s')
    → Laid 0 s'.tokens (suc (length src))
unfolding IsGood
tokens-Laid map src lineno s s' tame r run =
    let (t, h) = Reached-InText map src lineno s tame r in
    let (t', h') = subst (IsGood src) run (lex_step-IsGood map src s tame t h) in
    Laid-mono 0 s'.tmp_token.val (suc (length src)) s'.tokens (omega (arith, t'.ends, h')) t'.laid
