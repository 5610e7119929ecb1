-- ===== src/Serial/Inside.antt =====
-- What is read from any bytes is in range.
use ivm.Base.{
  ℕ, zero, suc, ◌<◌, ◌≡◌, refl, subst, ap, Bool, true, false, ◌&&◌, Option-cases, inl, inr, some,
  List, [], ◌∷◌, length, ltb, ◌==◌, ltb→lt, if◌then◌else◌, arith,
}
use mathlib.Core.Option.{some-injective}
use ivm.Serial.{
  Reader, ◌>>=◌, pure, fail, read_int, read_bytes, read_many, All, PoolString, SerialExec,
  SerialUnit, read_pool_list, read_exec, read_exec_in, read_exec_list, read_unit, decode_unit,
  read_behind,
}

-- What a reader reads satisfies `P`.
abbrev Ensures : {A : Type 0} → (A → Type 0) → Reader A → Type 0
Ensures {A} P r = (s : List ℕ) (a : A) (left : List ℕ) → r s ≡ some (a, left) → P a

bind-Ensures :
    {A B : Type 0} (Q : A → Type 0) (P : B → Type 0) (r : Reader A) (f : A → Reader B)
    → Ensures Q r
    → ((a : A) → Q a → Ensures P (f a))
    → Ensures P (r >>= f)
bind-Ensures Q P r f hr hf s b left e = elim (Option-cases (r s)) [
  | inl failed ↦ ground (arith, e, failed)
  | inr ((a, s'), run) ↦ hf a (hr s a s' run) s' b left (ground (arith, e, run))
]

any-Ensures : {A : Type 0} (r : Reader A) → Ensures (λ _. Unit {0}) r
any-Ensures r s a left e = tt

pure-Ensures : {A : Type 0} (P : A → Type 0) (a : A) → P a → Ensures P (pure a)
pure-Ensures P a p s b left e = subst P (ap (λ r. r.0) (some-injective _ _ e)) p

read_suc :
    {A : Type 0} (r : Reader A) (n : ℕ) (s : List ℕ) (x : A) (s' : List ℕ) (xs : List A)
    (s'' : List ℕ) (a : List A) (left : List ℕ)
    → r s ≡ some (x, s')
    → read_many r n s' ≡ some (xs, s'')
    → read_many r (suc n) s ≡ some (a, left)
    → x ∷ xs ≡ a
unfolding read_many
read_suc r n s x s' xs s'' a left run runs e = ground (arith, e, run, runs)

read_many-Ensures :
    {A : Type 0} (P : A → Type 0) (r : Reader A)
    → Ensures P r
    → (n : ℕ) → Ensures (All P) (read_many r n)
unfolding read_many
read_many-Ensures P r h zero s a left e = subst (All P) (ap (λ r. r.0) (some-injective _ _ e)) tt
read_many-Ensures P r h (suc n) s a left e = elim (Option-cases (r s)) [
  | inl failed ↦ ground (arith, e, failed)
  | inr ((x, s'), run) ↦ elim (Option-cases (read_many r n s')) [
    | inl failed ↦ ground (arith, e, run, failed)
    | inr ((xs, s''), runs) ↦
        subst (All P) (read_suc r n s x s' xs s'' a left run runs e)
          (h s x s' run, read_many-Ensures P r h n s' xs s'' runs)
  ]
]

-- A test is known where its branch is read.
if-Ensures :
    {A : Type 0} (P : A → Type 0) (b : Bool) (r : Reader A)
    → (b ≡ true → Ensures P r)
    → Ensures P (if b then r else fail)
if-Ensures P true r h s a left e = h refl s a left e
if-Ensures P false r h s a left e = ground (arith, e)

read_exec_in-Ensures : (pools : ℕ) → Ensures (λ e. e.pool < pools) (read_exec_in pools)
unfolding read_exec_in
read_exec_in-Ensures pools =
    bind-Ensures (λ _. Unit {0}) (λ e. e.pool < pools) _ _ (any-Ensures read_exec)
      λ e _.
        if-Ensures (λ a. a.pool < pools) (ltb e.pool pools) (pure e)
          λ inside. pure-Ensures (λ a. a.pool < pools) e (ltb→lt e.pool pools inside)

abbrev Inside : List (List PoolString) × List SerialExec → Type 0
Inside x = All (λ e. e.pool < length x.0) x.1

read_exec_list-Ensures : Ensures Inside read_exec_list
unfolding read_exec_list
read_exec_list-Ensures =
    bind-Ensures (λ _. Unit {0}) Inside _ _ (any-Ensures read_pool_list)
      λ ps _.
        bind-Ensures (λ _. Unit {0}) Inside _ _ (any-Ensures (read_int 8))
          λ n _.
            bind-Ensures (All (λ e. e.pool < length ps)) Inside _ _
              (read_many-Ensures _ _ (read_exec_in-Ensures (length ps)) n)
              λ es h. pure-Ensures Inside (ps, es) h

abbrev InsideUnit : SerialUnit → Type 0
InsideUnit u = Inside (u.pool_list, u.execs)

read_unit-Ensures : Ensures InsideUnit read_unit
unfolding read_unit
read_unit-Ensures =
    bind-Ensures (λ _. Unit {0}) InsideUnit _ _ (any-Ensures (read_int 8))
      λ root _.
        bind-Ensures Inside InsideUnit _ _ read_exec_list-Ensures λ x h. pure-Ensures InsideUnit _ h

read_behind-Ensures : (token : List ℕ) → Ensures InsideUnit (read_behind token)
unfolding read_behind
read_behind-Ensures (a ∷ b ∷ []) s u left e =
    if-Ensures InsideUnit (a == 0x31 && b == 0x31) read_unit (λ _. read_unit-Ensures) s u left e
read_behind-Ensures [] s u left e = ground (arith, e)
read_behind-Ensures (a ∷ []) s u left e = ground (arith, e)
read_behind-Ensures (a ∷ b ∷ c ∷ t) s u left e = ground (arith, e)

-- Whatever bytes the readers accept as a cache file, every executable of the unit names a pool of
-- the unit.
pub decode_unit-inside :
    (s : List ℕ) (u : SerialUnit) (left : List ℕ)
    → decode_unit s ≡ some (u, left)
    → All (λ e. e.pool < length u.pool_list) u.execs
unfolding decode_unit
decode_unit-inside =
    bind-Ensures (λ _. Unit {0}) InsideUnit _ _ (any-Ensures (read_bytes 2))
      λ t _. read_behind-Ensures t
