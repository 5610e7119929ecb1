-- ===== src/Optimizer/Control.antt =====
-- vm/opcode.def.h: where the jumps of the machine go, and what the first passes of the optimizer do
-- to that. `v` is the truth of the value on top of the stack.
use ivm.Base.{
  ℕ, zero, suc, ◌≡◌, refl, sym, subst, Bool, true, not, Option, none, some, List, get_elem?, ◌==◌,
  if◌then◌else◌, Bool-cases, Option-cases, inl, inr, arith,
}
use ivm.Opcode.{nop, jump, jump_true, jump_false, jump_true_n, jump_false_n}
use ivm.Optimizer.{OptInstr}
use ivm.Optimizer.Reduce.{is_same, is_opposite, chase}

-- Where the machine goes from an instruction at `p` that leaves the stack alone: NOP, JUMP,
-- JUMP_TRUE_N, JUMP_FALSE_N.
unfoldable pub passes : ℕ → Option ℕ → Bool → ℕ → Option ℕ
passes opc to v p =
    if opc == nop
    then some (suc p)
    else if opc == jump
    then to
    else if opc == jump_true_n
    then (if v then to else some (suc p))
    else if opc == jump_false_n
    then (if v then some (suc p) else to)
    else none

-- The same with the jumps that pop the value, JUMP_TRUE and JUMP_FALSE.
unfoldable pub branches : ℕ → Option ℕ → Bool → ℕ → Option ℕ
unfolding passes
branches opc to v p =
    if opc == jump_true
    then (if v then to else some (suc p))
    else if opc == jump_false
    then (if v then some (suc p) else to)
    else passes opc to v p

unfoldable pub pass_at : List OptInstr → Bool → ℕ → Option ℕ
pass_at l v p = elim (get_elem? l p) [ none ↦ none | some x ↦ passes x.opc x.jmpto v p ]

unfoldable pub branch_at : List OptInstr → Bool → ℕ → Option ℕ
branch_at l v p = elim (get_elem? l p) [ none ↦ none | some x ↦ branches x.opc x.jmpto v p ]

-- Steps that leave the stack alone.
pub data Reaches (l : List OptInstr) (v : Bool) : ℕ → ℕ → Type 0 where
  here : {p q : ℕ} → p ≡ q → Reaches l v p q
  step : {p q : ℕ} (r : ℕ) → pass_at l v p ≡ some r → Reaches l v r q → Reaches l v p q

pub Reaches-one :
    (l : List OptInstr) (v : Bool) (p q : ℕ) → pass_at l v p ≡ some q → Reaches l v p q
Reaches-one l v p q e = step q e (here refl)

pub Reaches-trans :
    (l : List OptInstr) (v : Bool) (p q r : ℕ) → Reaches l v p q → Reaches l v q r → Reaches l v p r
Reaches-trans l v p q r (here e) s = subst (λ m. Reaches l v m r) (sym e) s
Reaches-trans l v p q r (step m e t) s = step m e (Reaches-trans l v m q r t s)

-- Does a jump with this opcode go to its target, if the value is `v` where it does not pop it? One
-- that pops it leaves any value.
unfoldable pub is_taken : ℕ → Bool → Bool
is_taken opc v = if opc == jump_true_n then v else if opc == jump_false_n then not v else true

is_same-passes :
    (from opc : ℕ) (to : ℕ) (v : Bool) (p : ℕ)
    → is_same from opc ≡ true
    → is_taken from v ≡ true
    → passes opc (some to) v p ≡ some to
unfolding is_same is_taken passes
is_same-passes from opc to v p same taken = ground (arith, same, taken)

pub is_opposite-passes :
    (from opc : ℕ) (to : Option ℕ) (v : Bool) (p : ℕ)
    → is_opposite from opc ≡ true
    → is_taken from v ≡ true
    → passes opc to v p ≡ some (suc p)
unfolding is_opposite is_taken passes
is_opposite-passes from opc to v p opposite taken = ground (arith, opposite, taken)

-- The loop stops where the machine comes by when it takes the jump.
pub chase-Reaches :
    (l : List OptInstr) (opc cur fuel tmp last : ℕ) (v : Bool)
    → chase l opc cur fuel tmp ≡ some last
    → is_taken opc v ≡ true
    → Reaches l v tmp last
unfolding chase pass_at
chase-Reaches l opc cur zero tmp last v e taken = ground (arith, e)
chase-Reaches l opc cur (suc fuel) tmp last v e taken = elim (Option-cases (get_elem? l tmp)) [
  | inl outside ↦ ground (arith, e, outside)
  | inr (y, at) ↦ elim (Option-cases y.jmpto) [
    | inl plain ↦ here (ground (arith, e, at, plain))
    | inr (next, to) ↦ elim (Bool-cases (is_same opc y.opc)) [
      | inr other ↦ here (ground (arith, e, at, to, other))
      | inl same ↦ elim (Bool-cases (tmp == cur)) [
        | inl loop ↦ here (ground (arith, e, at, to, same, loop))
        | inr on ↦
            let goes : pass_at l v tmp ≡ some next =
              rw (pass_at, at, to) (is_same-passes opc y.opc next v tmp same taken) in
            let rest : chase l opc cur fuel next ≡ some last =
              ground (arith, e, at, to, same, on) in
            step next goes (chase-Reaches l opc cur fuel next last v rest taken)
      ]
    ]
  ]
]

pub chase-inside :
    (l : List OptInstr) (opc cur fuel tmp last : ℕ)
    → chase l opc cur fuel tmp ≡ some last
    → (y : OptInstr) × (get_elem? l last ≡ some y)
unfolding chase
chase-inside l opc cur zero tmp last e = ground (arith, e)
chase-inside l opc cur (suc fuel) tmp last e = elim (Option-cases (get_elem? l tmp)) [
  | inl outside ↦ ground (arith, e, outside)
  | inr (y, at) ↦
      let found : tmp ≡ last → (z : OptInstr) × (get_elem? l last ≡ some z) =
        λ same. (y, subst (λ m. get_elem? l m ≡ some y) same at) in
      elim (Option-cases y.jmpto) [
        | inl plain ↦ found (ground (arith, e, at, plain))
        | inr (next, to) ↦ elim (Bool-cases (is_same opc y.opc)) [
          | inr other ↦ found (ground (arith, e, at, to, other))
          | inl same ↦ elim (Bool-cases (tmp == cur)) [
            | inl loop ↦ found (ground (arith, e, at, to, same, loop))
            | inr on ↦ chase-inside l opc cur fuel next last (ground (arith, e, at, to, same, on))
          ]
        ]
      ]
]
