-- ===== src/Optimizer/Reduce.antt =====
-- util/opt.c: the passes of the optimizer over the list of instructions.
use ivm.Base.{
  ℕ, zero, suc, ◌+◌, Bool, true, false, ◌&&◌, ◌||◌, Option, none, some, List, [], ◌∷◌, length,
  get_elem?, leb, ◌==◌, if◌then◌else◌,
}
use ivm.Opcode.{
  nop, pop, new_nil, new_none, new_obj, new_obj_t, new_num_i, new_num_f, new_str, new_func, ne, le,
  jump, jump_true, jump_false, jump_true_n, jump_false_n,
}
use ivm.Exec.{Exec, exec_empty}
use ivm.Optimizer.{OptInstr, modify, convert, generate}

-- _is_opposite_cond_jump
unfoldable pub is_opposite : ℕ → ℕ → Bool
is_opposite a b = (a == jump_true_n && b == jump_false_n) || (a == jump_false_n && b == jump_true_n)

-- _is_same_cond_jump
unfoldable pub is_same : ℕ → ℕ → Bool
is_same from to = to == jump || (from == to && (from == jump_true_n || from == jump_false_n))

-- The loop along the jumps that the jump `cur` with the opcode `opc` goes through, from the
-- instruction `tmp` on. None is fuel that ran out, or a read outside of the list.
unfoldable pub chase : List OptInstr → ℕ → ℕ → ℕ → ℕ → Option ℕ
chase l opc cur zero tmp = none
chase l opc cur (suc fuel) tmp = elim (get_elem? l tmp) [
  | none ↦ none
  | some y ↦ elim y.jmpto [
    | none ↦ some tmp
    | some next ↦ elim (is_same opc y.opc) [
      | false ↦ some tmp
      | true ↦ elim (tmp == cur) [ true ↦ some tmp | false ↦ chase l opc cur fuel next ]
    ]
  ]
]

-- ivm_ptlist_findAndRemove: the first reference to `cur` becomes NULL.
unfoldable pub find_and_remove : ℕ → List (Option ℕ) → List (Option ℕ)
find_and_remove cur [] = []
find_and_remove cur (none ∷ refs) = none ∷ find_and_remove cur refs
find_and_remove cur (some r ∷ refs) =
    let rest = find_and_remove cur refs in if r == cur then none ∷ refs else some r ∷ rest

-- `if (cur->jmpto) { ... }`: the jump at `cur` goes to where the jumps that it meets go.
unfoldable pub retarget : ℕ → List OptInstr → ℕ → Option (List OptInstr)
retarget fuel l cur = elim (get_elem? l cur) [
  | none ↦ none
  | some x ↦ elim x.jmpto [
    | none ↦ some l
    | some first ↦ elim (chase l x.opc cur fuel first) [
      | none ↦ none
      | some last ↦ elim (get_elem? l last) [
        | none ↦ none
        | some y ↦
            let released =
              if last == first
              then l
              else modify l first (λ r. record r { refs = find_and_remove cur r.refs }) in
            let to = if is_opposite x.opc y.opc then suc last else last in
            some (modify released cur (λ r. record r { jmpto = some to }))
      ]
    ]
  ]
]

-- The opcode of the instruction at `i`, and whether the one at `i` jumps to `t`.
abbrev pub opc_at : List OptInstr → ℕ → Option ℕ
opc_at l i = elim (get_elem? l i) [ none ↦ none | some x ↦ some x.opc ]

abbrev pub jmpto_at : List OptInstr → ℕ → Option ℕ
jmpto_at l i = elim (get_elem? l i) [ none ↦ none | some x ↦ x.jmpto ]

abbrev pub is_at : Option ℕ → ℕ → Bool
is_at none t = false
is_at (some u) t = u == t

-- A conditional jump over an unconditional one takes the opposite condition:
-- `jump_false addr3; jump addrx; addr3:` becomes `jump_true addrx; nop`, and vice versa.
unfoldable pub flip : List OptInstr → ℕ → ℕ → List OptInstr
unfolding modify
flip l cur opc =
    modify (modify l cur (λ r. record r { jmpto = jmpto_at l (suc cur); opc = opc })) (suc cur)
      (λ r. record r { opc = nop })

unfoldable pub skips_jump : List OptInstr → ℕ → ℕ → Bool
skips_jump l cur opc =
    is_at (opc_at l cur) opc && is_at (jmpto_at l cur) (cur + 2) && is_at (opc_at l (suc cur)) jump

unfoldable pub invert : List OptInstr → ℕ → List OptInstr
unfolding flip skips_jump
invert l cur =
    if skips_jump l cur jump_false
    then flip l cur jump_true
    else if skips_jump l cur jump_true
    then flip l cur jump_false
    else l

-- `if (cur->opc == JUMP) ... else ...`: a jump behind a jump or to the next instruction is not
-- generated. The answer is the new `suc_jump`.
unfoldable pub drop_jump : Bool → List OptInstr → ℕ → Bool × List OptInstr
unfolding modify
drop_jump suc_jump l cur =
    if is_at (opc_at l cur) jump
    then if suc_jump || is_at (jmpto_at l cur) (suc cur)
      then (suc_jump, modify l cur (λ r. record r { opc = nop }))
      else (true, l)
    else (false, l)

-- The loop of _ivm_opt_jumpReduce, over the `n` instructions from `cur` on.
unfoldable pub reduce_loop : ℕ → ℕ → ℕ → Bool → List OptInstr → Option (List OptInstr)
reduce_loop fuel zero cur suc_jump l = some l
reduce_loop fuel (suc n) cur suc_jump l = elim (retarget fuel l cur) [
  | none ↦ none
  | some l' ↦
      let (suc_jump', l'') = drop_jump suc_jump (invert l' cur) cur in
      reduce_loop fuel n (suc cur) suc_jump' l''
]

-- _ivm_opt_jumpReduce
unfoldable pub jump_reduce : ℕ → List OptInstr → Option (List OptInstr)
jump_reduce fuel l = reduce_loop fuel (length l) 0 false l

-- _is_raw_cmp: the six comparisons stand in a row.
unfoldable pub is_raw_cmp : ℕ → Bool
is_raw_cmp opc = leb ne opc && leb opc le

-- _is_raw_jump
unfoldable pub is_raw_jump : ℕ → Bool
is_raw_jump opc = opc == jump_false || opc == jump_true

-- _to_reg_op of a comparison, whose form with a register stands six places behind it, and of a jump.
unfoldable pub to_reg_op : ℕ → ℕ
unfolding is_raw_cmp
to_reg_op opc = if is_raw_cmp opc then opc + 6 else opc + 2

-- _is_new_no_se
unfoldable pub is_new_no_se : ℕ → Bool
is_new_no_se opc =
    opc == new_nil
    || opc == new_none
    || opc == new_obj
    || opc == new_obj_t
    || opc == new_num_i
    || opc == new_num_f
    || opc == new_str
    || opc == new_func

-- _is_iso_ins
unfoldable pub is_iso : OptInstr → Bool
is_iso x = length x.refs == 0 && elim x.jmpto [ none ↦ true | some _ ↦ false ]

-- The body of the loop of _ivm_opt_cmpOpt, on an instruction and the next.
unfoldable pub cmp_pair : OptInstr → OptInstr → OptInstr × OptInstr
cmp_pair x y =
    if is_raw_cmp x.opc && is_raw_jump y.opc && (is_iso x && is_iso y)
    then (record x { opc = to_reg_op x.opc }, record y { opc = to_reg_op y.opc })
    else (x, y)

-- The body of the loop of _ivm_opt_elimDupPop.
unfoldable pub pop_pair : OptInstr → OptInstr → OptInstr × OptInstr
pop_pair x y =
    if is_new_no_se x.opc && y.opc == pop && (is_iso x && is_iso y)
    then (record x { opc = nop }, record y { opc = nop })
    else (x, y)

-- A loop over the instructions that looks at each one and the next. The last one is a RETURN, which
-- neither loop looks behind.
unfoldable pub each_pair :
    (OptInstr → OptInstr → OptInstr × OptInstr) → OptInstr → List OptInstr → List OptInstr
each_pair body x [] = x ∷ []
each_pair body x (y ∷ xs) = let (x', y') = body x y in x' ∷ each_pair body y' xs

unfoldable pub peephole :
    (OptInstr → OptInstr → OptInstr × OptInstr) → List OptInstr → List OptInstr
peephole body [] = []
peephole body (x ∷ xs) = each_pair body x xs

-- _ivm_opt_cmpOpt
unfoldable pub cmp_opt : List OptInstr → List OptInstr
cmp_opt l = peephole cmp_pair l

-- _ivm_opt_elimDupPop
unfoldable pub elim_dup_pop : List OptInstr → List OptInstr
elim_dup_pop l = peephole pop_pair l

-- ivm_opt_optExec
unfoldable pub opt_exec : ℕ → Exec → Option Exec
opt_exec fuel e = elim (convert e) [
  | none ↦ none
  | some l ↦ elim (jump_reduce fuel l) [
    | none ↦ none
    | some l' ↦ generate (elim_dup_pop (cmp_opt l')) e.cached (exec_empty e)
  ]
]
