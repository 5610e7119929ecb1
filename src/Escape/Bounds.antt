-- ===== src/Escape/Bounds.antt =====
-- util/parser.c: the buffer of an escaped text is long enough.
use ivm.Base.{
  ℕ, zero, suc, ◌+◌, ◌*◌, ◌%◌, ◌<◌, ◌≤◌, ◌≡◌, refl, ap, sym, ◌∙◌, append_assoc, Bool, true, false,
  ◌||◌, Option, none, some, List, [], ◌∷◌, ◌++◌, length, length-append, ◌==◌, if◌then◌else◌,
  Bool-cases, Option-cases, inl, inr, ◌⊎◌, arith,
}
use ivm.Enc.{encode}
use ivm.Escape.{
  is_dec, is_oct, is_hex, hex_to_digit, EscapeError, wrong_hex_escape, wrong_decimal_escape,
  wrong_octal_escape, illegal_unicode_character, Outcome, done, failed, simple_escape, read_num,
  starts, number_escape, unicode_escape, escape, write_before, parse_loop, parse_str,
}

read_num-digit :
    (is_digit : ℕ → Bool) (rdx max c d : ℕ) (str : List ℕ)
    → is_digit d ≡ true
    → read_num is_digit rdx (suc max) c (d ∷ str)
      ≡ read_num is_digit rdx max ((c * rdx + hex_to_digit d) % 4294967296) str
unfolding read_num
read_num-digit is_digit rdx max c d str e = rw (read_num, e) refl

read_num-stop :
    (is_digit : ℕ → Bool) (rdx max c d : ℕ) (str : List ℕ)
    → is_digit d ≡ false
    → read_num is_digit rdx (suc max) c (d ∷ str) ≡ (c, d ∷ str)
unfolding read_num
read_num-stop is_digit rdx max c d str e = rw (read_num, e) refl

read_num-length :
    (is_digit : ℕ → Bool) (rdx max c : ℕ) (str : List ℕ)
    → length (read_num is_digit rdx max c str).1 ≤ length str
unfolding read_num
read_num-length is_digit rdx zero c str = omega arith
read_num-length is_digit rdx (suc max) c [] = omega arith
read_num-length is_digit rdx (suc max) c (d ∷ str) = elim (Bool-cases (is_digit d)) [
  | inl e ↦
      let next = (c * rdx + hex_to_digit d) % 4294967296 in
      let shorter = read_num-length is_digit rdx max next str in
      omega (arith, ap (λ r. length r.1) (read_num-digit is_digit rdx max c d str e), shorter)
  | inr e ↦ omega (arith, ap (λ r. length r.1) (read_num-stop is_digit rdx max c d str e))
]

-- A number is read from a text that starts with a digit.
read_num-shorter :
    (is_digit : ℕ → Bool) (rdx max c : ℕ) (str : List ℕ)
    → starts is_digit str ≡ true
    → length (read_num is_digit rdx (suc max) c str).1 < length str
unfolding starts
read_num-shorter is_digit rdx max c [] e = ground (arith, e)
read_num-shorter is_digit rdx max c (d ∷ str) e =
    let next = (c * rdx + hex_to_digit d) % 4294967296 in
    let shorter = read_num-length is_digit rdx max next str in
    omega (arith, ap (λ r. length r.1) (read_num-digit is_digit rdx max c d str e), shorter)

-- From a number below `low`, either one below 2^16 is read or at least `gap` digits.
Grows : ℕ → ℕ → Type 0
Grows low gap =
    (max c : ℕ) (str : List ℕ)
    → c < low
    → ((read_num is_hex 16 max c str).0 < 65536)
      ⊎ (length (read_num is_hex 16 max c str).1 + gap ≤ length str)

digit-lt : (d : ℕ) → is_hex d ≡ true → hex_to_digit d < 16
unfolding is_hex hex_to_digit
digit-lt d h = ground (arith, h)

Grows-zero : Grows 65536 0
unfolding Grows
Grows-zero max c str h = inr (omega (arith, read_num-length is_hex 16 max c str))

Grows-suc :
    (low high gap : ℕ) → low * 16 ≤ high → high ≤ 65536 → Grows high gap → Grows low (suc gap)
unfolding Grows read_num
Grows-suc low high gap h top grows zero c str lt = inl (omega arith)
Grows-suc low high gap h top grows (suc max) c [] lt = inl (omega arith)
Grows-suc low high gap h top grows (suc max) c (d ∷ str) lt = elim (Bool-cases (is_hex d)) [
  | inl e ↦
      let digit = digit-lt d e in
      let next : (c * 16 + hex_to_digit d) % 4294967296 < high = omega arith in
      let step = read_num-digit is_hex 16 max c d str e in
      elim (grows max ((c * 16 + hex_to_digit d) % 4294967296) str next) [
        | inl small ↦ inl (omega (arith, ap (λ r. r.0) step, small))
        | inr far ↦ inr (omega (arith, ap (λ r. length r.1) step, far))
      ]
  | inr e ↦ inl (omega (arith, ap (λ r. r.0) (read_num-stop is_hex 16 max c d str e)))
]

Grows-four : Grows 1 4
Grows-four = Grows-suc 1 16 3 (omega arith) (omega arith) (
    Grows-suc 16 256 2 (omega arith) (omega arith) (
      Grows-suc 256 4096 1 (omega arith) (omega arith)
        (Grows-suc 4096 65536 0 (omega arith) (omega arith) Grows-zero)))

-- How many bytes a character has.
size : Option (List ℕ) → ℕ
size none = 0
size (some bytes) = length bytes

size-encode : (c : ℕ) → (size (encode c) ≤ 6) × ((c < 65536) → size (encode c) ≤ 3)
unfolding encode size
size-encode c = ground arith

-- What an escape writes, and the rest behind it, are no longer than its text of `n` characters.
Bounded : ℕ → Outcome (List ℕ × List ℕ) → Type 0
Bounded n (done (bytes, rest)) = (length bytes + length rest ≤ n) × (suc (length rest) ≤ n)
Bounded n (failed e) = Unit {0}

Bounded-mono : (n m : ℕ) (o : Outcome (List ℕ × List ℕ)) → n ≤ m → Bounded n o → Bounded m o
unfolding Bounded
Bounded-mono n m (done (bytes, rest)) h (w, r) = (omega arith, omega arith)
Bounded-mono n m (failed e) h b = tt

number_escape-Bounded :
    (is_digit : ℕ → Bool) (rdx max : ℕ) (error : EscapeError) (str : List ℕ)
    → Bounded (length str) (number_escape is_digit rdx (suc max) error str)
unfolding number_escape Bounded
number_escape-Bounded is_digit rdx max error str = elim (Bool-cases (starts is_digit str)) [
  | inl e ↦
      let shorter = read_num-shorter is_digit rdx max 0 str e in
      rw (number_escape, e) (omega arith, omega arith)
  | inr e ↦ rw (number_escape, e) tt
]

character-Bounded :
    (c : ℕ) (str rest : List ℕ)
    → length rest < length str
    → (c < 65536) ⊎ (length rest + 4 ≤ length str)
    → Bounded (suc (suc (length str))) (elim (encode c) [
      | some bytes ↦ done (bytes, rest)
      | none ↦ failed illegal_unicode_character
    ])
unfolding Bounded size
character-Bounded c str rest shorter far = elim (Option-cases (encode c)) [
  | inl e ↦ rw e tt
  | inr (bytes, e) ↦
      let (six, three) = size-encode c in
      let same : size (encode c) ≡ length bytes = ap size e in
      rw e (
        elim far [
          | inl small ↦ omega (arith, three small, same)
          | inr long ↦ omega (arith, six, same)
        ],
        omega arith,
      )
]

unicode_escape-Bounded : (str : List ℕ) → Bounded (suc (suc (length str))) (unicode_escape str)
unfolding unicode_escape Bounded Grows
unicode_escape-Bounded str = elim (Bool-cases (starts is_hex str)) [
  | inl e ↦
      let shorter = read_num-shorter is_hex 16 7 0 str e in
      rw (unicode_escape, e)
        (character-Bounded (read_num is_hex 16 8 0 str).0 str (read_num is_hex 16 8 0 str).1 shorter
          (Grows-four 8 0 str (omega arith)))
  | inr e ↦ rw (unicode_escape, e) tt
]

if-Bounded :
    (n : ℕ) (b : Bool) (o o' : Outcome (List ℕ × List ℕ))
    → Bounded n o
    → Bounded n o'
    → Bounded n (if b then o else o')
if-Bounded n true o o' h h' = h
if-Bounded n false o o' h h' = h'

escape-Bounded : (c : ℕ) (str : List ℕ) → Bounded (suc (suc (length str))) (escape c str)
unfolding escape
escape-Bounded c str = elim (Option-cases (simple_escape c)) [
  | inr (t, e) ↦ rw (escape, e) (unfold Bounded in (omega arith, omega arith))
  | inl e ↦
      let longer = λ (o : Outcome (List ℕ × List ℕ)).
        Bounded-mono (length str) (suc (suc (length str))) o (omega arith) in
      let longer_too = λ (o : Outcome (List ℕ × List ℕ)).
        Bounded-mono (length (c ∷ str)) (suc (suc (length str))) o (omega arith) in
      rw (escape, e)
        (if-Bounded _ (c == 88 || c == 120) _ _
          (longer _ (number_escape-Bounded is_hex 16 1 wrong_hex_escape str))
          (if-Bounded _ (c == 68 || c == 100) _ _
            (longer _ (number_escape-Bounded is_dec 10 2 wrong_decimal_escape str))
            (if-Bounded _ (c == 85 || c == 117) _ _ (unicode_escape-Bounded str) (
              if-Bounded _ (c == 79 || c == 111) _ _
                (longer _ (number_escape-Bounded is_oct 8 2 wrong_octal_escape str))
                (if-Bounded _ (is_oct c) _ (done (c ∷ [], str))
                  (longer_too _ (number_escape-Bounded is_oct 8 2 wrong_octal_escape (c ∷ str)))
                  (unfold Bounded in (omega arith, omega arith)))))))
]

-- The loop has ended, and a buffer has room for `n` bytes and the NUL that stand in it.
unfoldable pub IsBuffered : ℕ → Option (Outcome (List ℕ)) → Type 0
IsBuffered n none = ⊥
IsBuffered n (some (failed e)) = Unit {0}
IsBuffered n (some (done out)) = (text : List ℕ) × (out ≡ text ++ 0 ∷ []) × (length text ≤ n)

write_before-IsBuffered :
    (bytes : List ℕ) (m n : ℕ) (o : Option (Outcome (List ℕ)))
    → length bytes + m ≤ n
    → IsBuffered m o
    → IsBuffered n (write_before bytes o)
unfolding IsBuffered
write_before-IsBuffered bytes m n none h b = absurd b
write_before-IsBuffered bytes m n (some (failed e)) h b = tt
write_before-IsBuffered bytes m n (some (done out)) h (text, e, small) = (
  bytes ++ text,
  ap (λ t. bytes ++ t) e ∙ sym (append_assoc bytes text (0 ∷ [])),
  omega (arith, length-append bytes text),
)

after_escape :
    (fuel n : ℕ) (o : Outcome (List ℕ × List ℕ))
    → n ≤ suc fuel
    → Bounded n o
    → ((rest : List ℕ) → length rest ≤ fuel → IsBuffered (length rest) (parse_loop fuel rest))
    → IsBuffered n (elim o [
      | failed e ↦ some (failed e)
      | done (bytes, rest) ↦ write_before bytes (parse_loop fuel rest)
    ])
unfolding Bounded IsBuffered
after_escape fuel n (failed e) h b ih = tt
after_escape fuel n (done (bytes, rest)) h (written, shorter) ih =
    write_before-IsBuffered bytes (length rest) n (parse_loop fuel rest) written
      (ih rest (omega arith))

parse_loop-IsBuffered :
    (fuel : ℕ) (str : List ℕ) → length str ≤ fuel → IsBuffered (length str) (parse_loop fuel str)
unfolding IsBuffered parse_loop
parse_loop-IsBuffered fuel [] h = ([], refl, omega arith)
parse_loop-IsBuffered zero (c ∷ str) h = absurd (omega arith)
parse_loop-IsBuffered (suc fuel) (c ∷ []) h =
    write_before-IsBuffered (c ∷ []) 0 1 (parse_loop fuel []) (omega arith)
      (parse_loop-IsBuffered fuel [] (omega arith))
parse_loop-IsBuffered (suc fuel) (c ∷ d ∷ str) h = elim (Bool-cases (c == 92)) [
  | inl e ↦
      rw (parse_loop, e)
        (after_escape fuel (suc (suc (length str))) (escape d str) (omega arith)
          (escape-Bounded d str) (λ rest small. parse_loop-IsBuffered fuel rest small))
  | inr e ↦
      rw (parse_loop, e)
        (write_before-IsBuffered (c ∷ []) (length (d ∷ str)) (length (c ∷ d ∷ str))
          (parse_loop fuel (d ∷ str)) (omega arith)
          (parse_loop-IsBuffered fuel (d ∷ str) (omega arith)))
]

-- ivm_parser_parseStr_c ends on every text, with an error or with bytes and a NUL behind them that
-- fit into a buffer of one byte more than the text.
pub parse_str-IsBuffered : (str : List ℕ) → IsBuffered (length str) (parse_str str)
unfolding parse_str
parse_str-IsBuffered str = parse_loop-IsBuffered (length str) str (omega arith)
