-- ===== src/Optimizer.antt =====
-- util/opt.c: the optimizer of a finished executable. The list of instructions is the memory: a
-- pointer to an instruction is its index, NULL is none. An argument is a word of 64 bits, in which
-- the relative address of a jump is a two's complement.
pub mod Reduce
pub mod Place
pub mod Rewrite
pub mod Generate
pub mod Link
pub mod Convert
pub mod RoundTrip
pub mod Control
pub mod Chase
pub mod Retarget
pub mod Invert
pub mod Peephole
pub mod Hang
use ivm.Base.{
  ℕ, zero, suc, ◌+◌, ◌-◌, ◌%◌, Bool, true, false, not, ◌&&◌, ◌||◌, Option, none, some, List, [],
  ◌∷◌, ◌++◌, length, get_elem?, set, leb, ◌==◌, if◌then◌else◌,
}
use ivm.Opcode.{nop, return_, is_jump}
use ivm.Exec.{Instr, Exec, add_instr}

abbrev pub word : ℕ
word = 18446744073709551616

-- ivm_opt_instr_t; a list of references that is not there yet is empty.
pub record OptInstr : Type 0 where
  pub lineno : ℕ
  pub opc : ℕ
  pub arg : ℕ
  pub addr : Option ℕ
  pub jmpto : Option ℕ
  pub refs : List (Option ℕ)

-- A write through a pointer.
unfoldable pub modify {ℓ} : {A : Type ℓ} → List A → ℕ → (A → A) → List A
modify [] i f = []
modify (x ∷ xs) zero f = f x ∷ xs
modify (x ∷ xs) (suc i) f = x ∷ modify xs i f

-- ivm_opt_instr_build
unfoldable pub build : Instr → OptInstr
build i = record {
  lineno = i.lineno;
  opc = i.opc;
  arg = i.arg;
  addr = none;
  jmpto = none;
  refs = [];
}

-- The address that a relative address at `pos` means.
abbrev pub target_of : ℕ → ℕ → ℕ
target_of pos arg = (pos + arg) % word

-- The first loop of ivm_opt_il_convertFromExec: does a jump leave the executable of `len`
-- instructions?
unfoldable pub has_out_ref : ℕ → ℕ → List Instr → Bool
has_out_ref len pos [] = false
has_out_ref len pos (i ∷ is) =
    is_jump i.opc && leb len (target_of pos i.arg) || has_out_ref len (suc pos) is

unfoldable pub build_all : List Instr → List OptInstr
build_all [] = []
build_all (i ∷ is) = build i ∷ build_all is

-- The test for a RETURN at the end.
unfoldable pub ends_with_return : List Instr → Bool
ends_with_return [] = false
ends_with_return (i ∷ []) = i.opc == return_
ends_with_return (i ∷ j ∷ is) = ends_with_return (j ∷ is)

abbrev pub added_return : OptInstr
added_return = record {
  lineno = 4294967295;
  opc = return_;
  arg = 0;
  addr = none;
  jmpto = none;
  refs = [];
}

-- The second loop, from the instruction at `addr` on: none is a jump target outside of the list.
unfoldable pub link : ℕ → ℕ → List OptInstr → Option (List OptInstr)
link zero addr l = some l
link (suc n) addr l = elim (get_elem? l addr) [
  | none ↦ none
  | some cur ↦ elim (is_jump cur.opc) [
    | false ↦ link n (suc addr) l
    | true ↦
        let t = target_of addr cur.arg in
        elim (get_elem? l t) [
          | none ↦ none
          | some _ ↦ link n (suc addr) (
              modify (modify l addr (λ x. record x { jmpto = some t })) t
                (λ x. record x { refs = x.refs ++ some addr ∷ [] }))
        ]
  ]
]

-- ivm_opt_il_convertFromExec
unfoldable pub convert : Exec → Option (List OptInstr)
convert e =
    let built = build_all e.instrs in
    let whole =
      if has_out_ref (length e.instrs) 0 e.instrs || not (ends_with_return e.instrs)
      then built ++ added_return ∷ []
      else built in
    link (length whole) 0 whole

-- _ivm_opt_getRealRefCount
unfoldable pub real_refs : List (Option ℕ) → ℕ
real_refs [] = 0
real_refs (none ∷ refs) = real_refs refs
real_refs (some _ ∷ refs) = suc (real_refs refs)

-- Is an instruction generated?
unfoldable pub is_kept : OptInstr → Bool
is_kept x = not (x.opc == nop && real_refs x.refs == 0)

-- The first loop of ivm_opt_il_generateExec.
unfoldable pub emit : List OptInstr → Exec → Option (List OptInstr × Exec)
emit [] dest = some ([], dest)
emit (x ∷ xs) dest = elim (is_kept x) [
  | false ↦ elim (emit xs dest) [ none ↦ none | some (xs', dest') ↦ some (x ∷ xs', dest') ]
  | true ↦ elim (add_instr dest (record { opc = x.opc; arg = x.arg; lineno = x.lineno })) [
    | none ↦ none
    | some (a, dest₁) ↦ elim (emit xs dest₁) [
      | none ↦ none
      | some (xs', dest') ↦ some (record x { addr = some a } ∷ xs', dest')
    ]
  ]
]

-- ivm_exec_setArgAt
unfoldable pub set_arg_at : Exec → ℕ → ℕ → Exec
unfolding modify
set_arg_at e i val = record e { instrs = modify e.instrs i (λ x. record x { arg = val }) }

-- The second loop, over the rest `xs` of the list `l`: none is the failed assertion that the target
-- of a jump is generated.
unfoldable pub rewrite_jumps : List OptInstr → List OptInstr → Exec → Option Exec
rewrite_jumps l [] dest = some dest
rewrite_jumps l (x ∷ xs) dest = elim (is_jump x.opc) [
  | false ↦ rewrite_jumps l xs dest
  | true ↦ elim x.addr [
    | none ↦ rewrite_jumps l xs dest
    | some a ↦ elim x.jmpto [
      | none ↦ none
      | some t ↦ elim (get_elem? l t) [
        | none ↦ none
        | some y ↦ elim y.addr [
          | none ↦ none
          | some b ↦ rewrite_jumps l xs (set_arg_at dest a ((b + word - a) % word))
        ]
      ]
    ]
  ]
]

-- ivm_opt_il_generateExec
unfoldable pub generate : List OptInstr → Bool → Exec → Option Exec
generate l cached dest = elim (emit l (record dest { cached = cached })) [
  | none ↦ none
  | some (l', dest') ↦ rewrite_jumps l' l' dest'
]
