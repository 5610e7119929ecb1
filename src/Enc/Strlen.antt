-- ===== src/Enc/Strlen.antt =====
-- ivm_enc_utf8_strlen_n counts the characters of a text, one step for each.
use ivm.Base.{
  ℕ, zero, suc, ◌+◌, ◌≤◌, ◌<◌, ◌≡◌, refl, ◌∙◌, ap, subst, none, some, List, [], ◌∷◌, ◌++◌,
  append_assoc, append-nil, length, length-append, get_elem?, get_elem?_outside, arith, inl, inr,
}
use ivm.Enc.{step, encode, strlen_loop, strlen_n}
use ivm.Enc.Encode.{encode-Encoded}

-- The text of some characters.
unfoldable pub encode_all : List ℕ → List ℕ
encode_all [] = []
encode_all (c ∷ cs) = elim (encode c) [ none ↦ encode_all cs | some bytes ↦ bytes ++ encode_all cs ]

-- Characters that have an encoding.
abbrev pub IsText : List ℕ → Type 0
IsText cs = (j c : ℕ) → get_elem? cs j ≡ some c → c ≤ 0x7FFFFFFF

get_elem?_middle : (pre rest : List ℕ) (b : ℕ) → get_elem? (pre ++ b ∷ rest) (length pre) ≡ some b
get_elem?_middle [] rest b = refl
get_elem?_middle (x ∷ pre) rest b = get_elem?_middle pre rest b

strlen_loop-step :
    (fuel : ℕ) (mbs : List ℕ) (i ret c : ℕ)
    → get_elem? mbs i ≡ some c
    → strlen_loop (suc fuel) mbs i ret ≡ strlen_loop fuel mbs (i + step c) (suc ret)
unfolding strlen_loop
strlen_loop-step fuel mbs i ret c e = rw (e, strlen_loop)

-- The loop behind the characters that it has counted.
strlen_loop-text :
    (fuel : ℕ) (cs pre : List ℕ) (ret : ℕ)
    → IsText cs
    → length (encode_all cs) < fuel
    → strlen_loop fuel (pre ++ encode_all cs) (length pre) ret ≡ some (ret + length cs)
unfolding strlen_loop encode_all
strlen_loop-text zero cs pre ret text few = absurd (omega arith)
strlen_loop-text (suc fuel) [] pre ret text few =
    let bare : pre ++ [] ≡ pre = append-nil pre in
    let over = get_elem?_outside pre (length pre) (omega arith) in
    rw (bare, over, strlen_loop) (ground arith)
strlen_loop-text (suc fuel) (c ∷ cs) pre ret text few = elim (encode-Encoded c) [
  | inr (high, e) ↦ absurd (omega (arith, text 0 c refl))
  | inl (low, bytes, e, x) ↦
      let here : encode_all (c ∷ cs) ≡ (x.first ∷ x.rest) ++ encode_all cs =
        ground (arith, e, x.shape) in
      let width = length-append (x.first ∷ x.rest) (encode_all cs) in
      let next =
        strlen_loop-text fuel cs (pre ++ (x.first ∷ x.rest)) (suc ret) (λ j. text (suc j))
          (omega (arith, width, ap length here)) in
      let size : length bytes ≡ suc (length x.rest) = ap length x.shape in
      let pos : length (pre ++ (x.first ∷ x.rest)) ≡ length pre + step x.first =
        omega (arith, length-append pre (x.first ∷ x.rest), x.announces, size) in
      let joined : (pre ++ (x.first ∷ x.rest)) ++ encode_all cs
          ≡ pre ++ (x.first ∷ (x.rest ++ encode_all cs)) =
        append_assoc pre (x.first ∷ x.rest) (encode_all cs) in
      ap (λ t. strlen_loop (suc fuel) (pre ++ t) (length pre) ret) here
      ∙ strlen_loop-step fuel (pre ++ (x.first ∷ (x.rest ++ encode_all cs))) (length pre) ret
          x.first (get_elem?_middle pre (x.rest ++ encode_all cs) x.first)
      ∙ subst
          (λ t.
            strlen_loop fuel t (length pre + step x.first) (suc ret) ≡ some (suc ret + length cs))
          joined
          (subst
            (λ i.
              strlen_loop fuel ((pre ++ (x.first ∷ x.rest)) ++ encode_all cs) i (suc ret)
              ≡ some (suc ret + length cs))
            pos next)
      ∙ ap some (omega arith)
]

-- ivm_enc_utf8_strlen_n of the text of any encodable characters ends with their number.
strlen_n-text : (cs : List ℕ) → IsText cs → strlen_n (encode_all cs) ≡ some (length cs)
unfolding strlen_n
strlen_n-text cs text =
    strlen_loop-text (suc (length (encode_all cs))) cs [] 0 text (omega arith)
    ∙ ap some (omega arith)
