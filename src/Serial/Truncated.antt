-- ===== src/Serial/Truncated.antt =====
-- A cache file that is cut off is refused.
use ivm.Base.{
  ℕ, zero, suc, ◌+◌, ◌≡◌, ◌≢◌, ap, sym, ◌∙◌, Bool, true, false, ◌&&◌, Option-cases, inl, inr, none,
  some, List, [], ◌∷◌, ◌++◌, length, ltb, ◌==◌, if◌then◌else◌, append-nil, arith,
}
use mathlib.Core.Option.{some-injective}
use ivm.Serial.{
  Reader, ◌>>=◌, pure, fail, read_int, read_bytes, read_many, SerialUnit, read_string,
  read_string_pool, read_pool_list, read_param, read_instr, read_param_list, read_exec,
  read_exec_in, read_exec_list, read_unit, encode_unit, decode_unit, read_behind,
}
use ivm.Serial.Format.{UnitFits, decode_unit-encode_unit}

-- More bytes behind what a reader reads change nothing but what it leaves.
abbrev Extends : {A : Type 0} → Reader A → Type 0
Extends {A} r =
    (s : List ℕ) (a : A) (left more : List ℕ)
    → r s ≡ some (a, left)
    → r (s ++ more) ≡ some (a, left ++ more)

bind-Extends :
    {A B : Type 0} (r : Reader A) (f : A → Reader B)
    → Extends r
    → ((a : A) → Extends (f a))
    → Extends (r >>= f)
bind-Extends r f hr hf s b left more e = elim (Option-cases (r s)) [
  | inl failed ↦ ground (arith, e, failed)
  | inr ((a, s'), run) ↦
      let goes : f a s' ≡ some (b, left) = ground (arith, e, run) in
      rw (◌>>=◌, hr s a s' more run) (hf a s' b left more goes)
]

pure-Extends : {A : Type 0} (a : A) → Extends (pure a)
pure-Extends a s b left more e = ground (arith, e)

fail-Extends : {A : Type 0} → Extends (fail {A = A})
fail-Extends s b left more e = ground (arith, e)

read_int-Extends : (w : ℕ) → Extends (read_int w)
unfolding read_int
read_int-Extends zero s a left more e = ground (arith, e)
read_int-Extends (suc w) [] a left more e = ground (arith, e)
read_int-Extends (suc w) (b ∷ s) a left more e = elim (Option-cases (read_int w s)) [
  | inl failed ↦ ground (arith, e, failed)
  | inr ((x, s'), run) ↦ ground (arith, e, run, read_int-Extends w s x s' more run)
]

read_bytes-Extends : (n : ℕ) → Extends (read_bytes n)
unfolding read_bytes
read_bytes-Extends zero s a left more e = ground (arith, e)
read_bytes-Extends (suc n) [] a left more e = ground (arith, e)
read_bytes-Extends (suc n) (b ∷ s) a left more e = elim (Option-cases (read_bytes n s)) [
  | inl failed ↦ ground (arith, e, failed)
  | inr ((x, s'), run) ↦ ground (arith, e, run, read_bytes-Extends n s x s' more run)
]

read_many-Extends : {A : Type 0} (r : Reader A) → Extends r → (n : ℕ) → Extends (read_many r n)
unfolding read_many
read_many-Extends r h zero s a left more e = ground (arith, e)
read_many-Extends r h (suc n) s a left more e = elim (Option-cases (r s)) [
  | inl failed ↦ ground (arith, e, failed)
  | inr ((x, s'), run) ↦ elim (Option-cases (read_many r n s')) [
    | inl failed ↦ ground (arith, e, run, failed)
    | inr ((xs, s''), runs) ↦
        ground (arith, e, run, runs, h s x s' more run, read_many-Extends r h n s' xs s'' more runs)
  ]
]

read_string-Extends : Extends read_string
unfolding read_string
read_string-Extends = bind-Extends _ _ (read_int-Extends 8) λ len.
    bind-Extends _ _ (read_int-Extends 1)
      λ c. bind-Extends _ _ (read_bytes-Extends (len + 1)) λ b. pure-Extends _

read_string_pool-Extends : Extends read_string_pool
unfolding read_string_pool
read_string_pool-Extends =
    bind-Extends _ _ (read_int-Extends 8) (read_many-Extends read_string read_string-Extends)

read_pool_list-Extends : Extends read_pool_list
unfolding read_pool_list
read_pool_list-Extends =
    bind-Extends _ _ (read_int-Extends 8)
      (read_many-Extends read_string_pool read_string_pool-Extends)

read_param-Extends : Extends read_param
unfolding read_param
read_param-Extends =
    bind-Extends _ _ (read_int-Extends 8)
      λ n. bind-Extends _ _ (read_int-Extends 1) λ v. pure-Extends _

read_instr-Extends : Extends read_instr
unfolding read_instr
read_instr-Extends =
    bind-Extends _ _ (read_int-Extends 1)
      λ n. bind-Extends _ _ (read_int-Extends 8) λ v. pure-Extends _

read_exec-Extends : Extends read_exec
unfolding read_exec read_param_list
read_exec-Extends = bind-Extends _ _ (read_int-Extends 8) λ p.
    bind-Extends _ _ (read_int-Extends 8) λ n.
      bind-Extends _ _
        (bind-Extends _ _ (read_int-Extends 8) (read_many-Extends read_param read_param-Extends))
        λ ps.
          bind-Extends _ _ (read_many-Extends read_instr read_instr-Extends n) λ is. pure-Extends _

if-Extends :
    {A : Type 0} (b : Bool) (r q : Reader A) → Extends r → Extends q → Extends (if b then r else q)
if-Extends true r q h k = h
if-Extends false r q h k = k

read_exec_in-Extends : (pools : ℕ) → Extends (read_exec_in pools)
unfolding read_exec_in
read_exec_in-Extends pools =
    bind-Extends _ _ read_exec-Extends
      λ e. if-Extends (ltb e.pool pools) _ _ (pure-Extends e) fail-Extends

read_unit-Extends : Extends read_unit
unfolding read_unit read_exec_list
read_unit-Extends = bind-Extends _ _ (read_int-Extends 8) λ root.
    bind-Extends _ _
      (bind-Extends _ _ read_pool_list-Extends λ ps. bind-Extends _ _ (read_int-Extends 8) λ n.
        bind-Extends _ _ (read_many-Extends _ (read_exec_in-Extends (length ps)) n)
          λ es. pure-Extends _)
      λ x. pure-Extends _

read_behind-Extends : (token : List ℕ) → Extends (read_behind token)
unfolding read_behind
read_behind-Extends (a ∷ b ∷ []) =
    if-Extends (a == 0x31 && b == 0x31) _ _ read_unit-Extends fail-Extends
read_behind-Extends [] = fail-Extends
read_behind-Extends (a ∷ []) = fail-Extends
read_behind-Extends (a ∷ b ∷ c ∷ s) = fail-Extends

decode_unit-Extends : Extends decode_unit
unfolding decode_unit
decode_unit-Extends = bind-Extends _ _ (read_bytes-Extends 2) read_behind-Extends

append-nil_left : (xs ys : List ℕ) → xs ++ ys ≡ [] → ys ≡ []
append-nil_left [] ys e = e
append-nil_left (x ∷ xs) ys e = ground (arith, e)

-- A cache file of a unit whose numbers fit that is cut off anywhere, by at least one byte, is
-- refused by the readers.
pub decode_unit_truncated :
    (u : SerialUnit) (kept lost : List ℕ)
    → UnitFits u
    → kept ++ lost ≡ encode_unit u
    → lost ≢ []
    → decode_unit kept ≡ none
decode_unit_truncated u kept lost f cut more = elim (Option-cases (decode_unit kept)) [
  | inl refused ↦ refused
  | inr ((v, left), run) ↦
      let whole = decode_unit-Extends kept v left lost run in
      let all : decode_unit (kept ++ lost) ≡ some (u, []) =
        ap decode_unit (cut ∙ sym (append-nil (encode_unit u))) ∙ decode_unit-encode_unit u [] f in
      absurd
        (more (append-nil_left left lost (ap (λ r. r.1) (some-injective _ _ (sym whole ∙ all)))))
]
