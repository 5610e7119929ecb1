-- ===== src/Optimizer/Invert.antt =====
-- A conditional jump over a jump: with the opposite condition it goes where the two went.
use ivm.Base.{
  ℕ, suc, ◌+◌, ◌≡◌, refl, ap, ◌∙◌, Bool, true, false, Option, none, some, List, get_elem?, ◌==◌,
  ==_iff, Option-cases, inl, inr, ◌⊎◌, arith,
}
use ivm.Opcode.{nop, jump, jump_true, jump_false}
use ivm.Optimizer.{OptInstr}
use ivm.Optimizer.Place.{get_elem?-modify_self, get_elem?-modify_other}
use ivm.Optimizer.Reduce.{opc_at, jmpto_at, is_at, flip, skips_jump, invert}
use ivm.Optimizer.Control.{passes, branches, pass_at, branch_at, Reaches, here, Reaches-one}

is_at-some : (m : Option ℕ) (t : ℕ) → is_at m t ≡ true → m ≡ some t
is_at-some none t e = ground (arith, e)
is_at-some (some u) t e = ap some ((==_iff u t).0 e)

opc_at-some :
    (l : List OptInstr) (i o : ℕ)
    → opc_at l i ≡ some o
    → (x : OptInstr) × (get_elem? l i ≡ some x) × (x.opc ≡ o)
opc_at-some l i o e = elim (Option-cases (get_elem? l i)) [
  | inl outside ↦ ground (arith, e, outside)
  | inr (x, at) ↦ (x, at, ground (arith, e, at))
]

-- What `skips_jump` finds.
record Skips (l : List OptInstr) (cur opc far : ℕ) : Type 0 where
  x : OptInstr
  y : OptInstr
  at : get_elem? l cur ≡ some x
  next : get_elem? l (suc cur) ≡ some y
  opc_x : x.opc ≡ opc
  opc_y : y.opc ≡ jump
  over : x.jmpto ≡ some (suc (suc cur))
  to : y.jmpto ≡ some far

skips_jump-Skips :
    (l : List OptInstr) (cur opc far : ℕ)
    → skips_jump l cur opc ≡ true
    → jmpto_at l (suc cur) ≡ some far
    → Skips l cur opc far
unfolding skips_jump
skips_jump-Skips l cur opc far e far_e =
    let e₁ : is_at (opc_at l cur) opc ≡ true = ground (arith, e) in
    let e₂ : is_at (jmpto_at l cur) (cur + 2) ≡ true = ground (arith, e) in
    let e₃ : is_at (opc_at l (suc cur)) jump ≡ true = ground (arith, e) in
    let (x, at, ox) = opc_at-some l cur opc (is_at-some _ opc e₁) in
    let (y, next, oy) = opc_at-some l (suc cur) jump (is_at-some _ jump e₃) in
    let two : cur + 2 ≡ suc (suc cur) = omega arith in
    let over : jmpto_at l cur ≡ some (suc (suc cur)) = is_at-some _ (cur + 2) e₂ ∙ ap some two in
    record {
      x = x;
      y = y;
      at = at;
      next = next;
      opc_x = ox;
      opc_y = oy;
      over = ground (arith, over, at);
      to = ground (arith, far_e, next);
    }

module _ (l : List OptInstr) (cur opc far opposite : ℕ) (s : Skips l cur opc far) where
  apart : (cur == suc cur) ≡ false
  apart = ground arith

  flipped :
      get_elem? (flip l cur opposite) cur ≡ some (record s.x { jmpto = some far; opc = opposite })
  unfolding flip
  flipped =
      let back : (suc cur == cur) ≡ false = ground arith in
      let far_at : jmpto_at l (suc cur) ≡ some far = rw (jmpto_at, s.next) s.to in
      get_elem?-modify_other _ (suc cur) cur _ back
      ∙ get_elem?-modify_self l cur _ s.x s.at
      ∙ rw far_at refl

  dropped : get_elem? (flip l cur opposite) (suc cur) ≡ some (record s.y { opc = nop })
  unfolding flip
  dropped =
      get_elem?-modify_self _ (suc cur) _ s.y
        (get_elem?-modify_other l cur (suc cur) _ apart ∙ s.next)

-- Two lists from whose instruction at `cur` the machine comes to one and the same place.
pub record Joins (l l' : List OptInstr) (cur : ℕ) (v top : Bool) : Type 0 where
  pub old : ℕ
  pub new : ℕ
  pub place : ℕ
  pub goes : branch_at l v cur ≡ some old
  pub goes_new : branch_at l' v cur ≡ some new
  pub reaches : Reaches l top old place
  pub reaches_new : Reaches l' top new place

false_to_true :
    (l : List OptInstr) (cur far : ℕ) (v top : Bool)
    → Skips l cur jump_false far
    → Joins l (flip l cur jump_true) cur v top
unfolding branch_at branches pass_at passes
false_to_true l cur far true top s = record {
  old = suc cur;
  new = far;
  place = far;
  goes = rw (branch_at, s.at, s.opc_x) refl;
  goes_new = rw (branch_at, flipped l cur jump_false far jump_true s) refl;
  reaches = Reaches-one _ top (suc cur) far (rw (pass_at, s.next, s.opc_y) s.to);
  reaches_new = here refl;
}
false_to_true l cur far false top s = record {
  old = suc (suc cur);
  new = suc cur;
  place = suc (suc cur);
  goes = rw (branch_at, s.at, s.opc_x) s.over;
  goes_new = rw (branch_at, flipped l cur jump_false far jump_true s) refl;
  reaches = here refl;
  reaches_new =
      Reaches-one _ top (suc cur) (suc (suc cur))
        (rw (pass_at, dropped l cur jump_false far jump_true s) refl);
}

true_to_false :
    (l : List OptInstr) (cur far : ℕ) (v top : Bool)
    → Skips l cur jump_true far
    → Joins l (flip l cur jump_false) cur v top
unfolding branch_at branches pass_at passes
true_to_false l cur far true top s = record {
  old = suc (suc cur);
  new = suc cur;
  place = suc (suc cur);
  goes = rw (branch_at, s.at, s.opc_x) s.over;
  goes_new = rw (branch_at, flipped l cur jump_true far jump_false s) refl;
  reaches = here refl;
  reaches_new =
      Reaches-one _ top (suc cur) (suc (suc cur))
        (rw (pass_at, dropped l cur jump_true far jump_false s) refl);
}
true_to_false l cur far false top s = record {
  old = suc cur;
  new = far;
  place = far;
  goes = rw (branch_at, s.at, s.opc_x) refl;
  goes_new = rw (branch_at, flipped l cur jump_true far jump_false s) refl;
  reaches = Reaches-one _ top (suc cur) far (rw (pass_at, s.next, s.opc_y) s.to);
  reaches_new = here refl;
}

not_false :
    (l : List OptInstr) (cur far : ℕ)
    → Skips l cur jump_true far
    → skips_jump l cur jump_false ≡ false
unfolding skips_jump
not_false l cur far s = rw (skips_jump, opc_at, s.at, s.opc_x) refl

-- Where a conditional jump skips the JUMP behind it, the inverted jump and the NOP in its place
-- lead the machine to the same instruction as the two jumps did, for either truth of the
-- condition.
pub invert-Joins :
    (l : List OptInstr) (cur far : ℕ) (v top : Bool)
    → (skips_jump l cur jump_false ≡ true) ⊎ (skips_jump l cur jump_true ≡ true)
    → jmpto_at l (suc cur) ≡ some far
    → Joins l (invert l cur) cur v top
unfolding invert
invert-Joins l cur far v top (inl skips) to =
    rw skips (false_to_true l cur far v top (skips_jump-Skips l cur jump_false far skips to))
invert-Joins l cur far v top (inr skips) to =
    let s = skips_jump-Skips l cur jump_true far skips to in
    let other : skips_jump l cur jump_false ≡ false = not_false l cur far s in
    rw (other, skips) (true_to_false l cur far v top s)
