-- ===== src/Lexer/Advance.antt =====
-- util/parser.h: what a transition of the tokenizer does to the tokens.
use ivm.Base.{
  ℕ, suc, ◌+◌, ◌≤◌, ◌≡◌, refl, Bool, true, false, ◌||◌, List, [], ◌∷◌, ◌++◌, ◌==◌, if◌then◌else◌,
  Bool-cases, inl, inr, ◌⊎◌, arith,
}
use ivm.Lexer.{Token, TransEntry, Lexer, take_entry}

-- Tokens that lie behind `from` and before `to`, one behind the other.
abbrev pub Laid : ℕ → List Token → ℕ → Type 0
Laid from [] to = from ≤ to
Laid from (t ∷ ts) to = (from ≤ t.val) × Laid (t.val + t.len) ts to

Laid-snoc :
    (from mid to : ℕ) (ts : List Token) (t : Token)
    → Laid from ts mid
    → mid ≤ t.val
    → t.val + t.len ≤ to
    → Laid from (ts ++ t ∷ []) to
Laid-snoc from mid to [] t h low high = (omega arith, high)
Laid-snoc from mid to (u ∷ ts) t (first, h) low high =
    (first, Laid-snoc (u.val + u.len) mid to ts t h low high)

-- The token in hand begins behind the others and ends at the next character.
pub record InText (s : Lexer) : Type 0 where
  pub laid : Laid 0 s.tokens s.tmp_token.val
  pub ends : s.tmp_token.val + s.tmp_token.len ≡ s.c

-- What a transition makes of the position.
pub record Advanced (s s' : Lexer) : Type 0 where
  pub text : InText s'
  pub near : s'.c ≤ suc s.c
  pub again : s'.has_exc ≡ true → (s.has_exc ≡ true) ⊎ (s'.c ≡ s.c)

pub Laid-mono : (from m n : ℕ) (ts : List Token) → m ≤ n → Laid from ts m → Laid from ts n
Laid-mono from m n [] h l = omega arith
Laid-mono from m n (t ∷ ts) h (low, l) = (low, Laid-mono (t.val + t.len) m n ts h l)

-- A transition that adds the current character to a token that it saves steps over it.
abbrev pub IsTame : TransEntry → Type 0
IsTame e = e.ext ≡ true → e.exc ≡ true

-- The token that a transition saves.
saved_token :
    (b : Bool) (t : Token) (id : ℕ)
    → (let u = record (if b then record t { len = suc t.len } else t) { id = id } in
        (u.val ≡ t.val) × (u.len ≡ (if b then suc t.len else t.len)))
saved_token true t id = (refl, refl)
saved_token false t id = (refl, refl)

save-Laid :
    (b : Bool) (s : Lexer) (id to : ℕ)
    → InText s
    → (if b then suc s.c else s.c) ≤ to
    → Laid 0
        (s.tokens
          ++ record (if b then record s.tmp_token { len = suc s.tmp_token.len } else s.tmp_token) {
            id = id;
          }
            ∷ [])
        to
save-Laid b s id to t h =
    let (val, len) = saved_token b s.tmp_token id in
    Laid-snoc 0 s.tmp_token.val to s.tokens _ t.laid (omega arith)
      (ground (arith, val, len, t.ends, h))

pub take_entry-Advanced :
    (e : TransEntry) (s : Lexer) → IsTame e → InText s → Advanced s (take_entry e s)
unfolding take_entry
take_entry-Advanced e s tame t = elim (Bool-cases e.ign) [
  | inl ign ↦ elim (Bool-cases e.exc) [
    | inl exc ↦
        rw (take_entry, ign, exc)
          (record {
            text = record {
              laid = Laid-mono 0 s.tmp_token.val s.c s.tokens (omega (arith, t.ends)) t.laid;
              ends = omega arith;
            };
            near = omega arith;
            again = λ x. inl x;
          })
    | inr inc ↦
        rw (take_entry, ign, inc)
          (record {
            text = record {
              laid = Laid-mono 0 s.tmp_token.val (suc s.c) s.tokens (omega (arith, t.ends)) t.laid;
              ends = omega arith;
            };
            near = omega arith;
            again = λ x. inl x;
          })
  ]
  | inr keeps ↦ elim (Bool-cases (e.save == 0)) [
    | inl plain ↦ elim (Bool-cases e.exc) [
      | inl exc ↦
          rw (take_entry, keeps, plain, exc)
            (record {
              text = record { laid = t.laid; ends = t.ends };
              near = omega arith;
              again = λ x. inl x;
            })
      | inr inc ↦
          rw (take_entry, keeps, plain, inc)
            (record {
              text = record { laid = t.laid; ends = omega (arith, t.ends) };
              near = omega arith;
              again = λ x. inl x;
            })
    ]
    | inr saves ↦ elim (Bool-cases (e.exc || e.to_state == s.state)) [
      | inl over ↦
          rw (take_entry, keeps, saves, over)
            (record {
              text = record {
                laid =
                    save-Laid (e.ext || e.to_state == s.state) s e.save (suc s.c) t (ground arith);
                ends = omega arith;
              };
              near = omega arith;
              again = λ x. inl x;
            })
      | inr back ↦
          let short : (e.ext || e.to_state == s.state) ≡ false = ground (arith, back, tame) in
          rw (take_entry, keeps, saves, back)
            (record {
              text = record {
                laid =
                    save-Laid (e.ext || e.to_state == s.state) s e.save s.c t
                      (ground (arith, short));
                ends = omega arith;
              };
              near = omega arith;
              again = λ x. inr refl;
            })
    ]
  ]
]
