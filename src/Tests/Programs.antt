-- ===== src/Tests/Programs.antt =====
-- The optimizer at concrete executables.
use mathlib.Core.Option.{some-injective}
use ivm.Base.{
  ℕ, zero, suc, ◌<◌, ◌≤◌, ◌≡◌, refl, subst, true, false, Option, none, some, List, [], ◌∷◌, ◌==◌,
  inl, arith,
}
use ivm.Opcode.{nop, pop, new_nil, jump, jump_false, return_, is_jump}
use ivm.Exec.Grow.{HasMemory}
use ivm.Exec.{Instr, Exec}
use ivm.Optimizer.{OptInstr, target_of, word, convert, generate, is_kept, real_refs}
use ivm.Optimizer.Reduce.{skips_jump, invert, cmp_opt, elim_dup_pop}
use ivm.Optimizer.Rewrite.{TargetsKept}
use ivm.Optimizer.Generate.{Generated, generate-Generated}
use ivm.Optimizer.Convert.{InRange, Converted, convert-Converted}
use ivm.Optimizer.RoundTrip.{IsPlain, closed, generate-convert}
use ivm.Optimizer.Invert.{Joins, invert-Joins}
use ivm.Optimizer.Peephole.{HasTargets, cmp_opt-same, peephole-Generated}

abbrev instr : ℕ → ℕ → Instr
instr opc arg = record { opc = opc; arg = arg; lineno = 1 }

abbrev executable : List Instr → Exec
executable instrs = record {
  pool = 0;
  instrs = instrs;
  alloc = 16;
  params = record { param = []; has_varg = false; legacy = false };
  cached = false;
}

abbrev empty : Exec
empty = executable []

empty-HasMemory : HasMemory empty
empty-HasMemory = record { inside = omega arith; some_room = omega arith; size = omega arith }

-- `jump_false 3; new_nil; pop; jump -3`: the first jump goes to the last instruction, which is no
-- RETURN and goes back to the start.
abbrev loop : Exec
loop =
    executable
      (instr jump_false 3 ∷ instr new_nil 0 ∷ instr pop 0 ∷ instr jump 18446744073709551613 ∷ [])

loop-InRange : InRange loop
unfolding InRange
loop-InRange zero i at is =
    subst (λ (k : Instr). target_of 0 k.arg ≤ 4) (some-injective _ _ at) (omega arith)
loop-InRange (suc zero) i at is =
    subst (λ (k : Instr). target_of 1 k.arg ≤ 4) (some-injective _ _ at) (omega arith)
loop-InRange (suc (suc zero)) i at is =
    subst (λ (k : Instr). target_of 2 k.arg ≤ 4) (some-injective _ _ at) (omega arith)
loop-InRange (suc (suc (suc zero))) i at is =
    subst (λ (k : Instr). target_of 3 k.arg ≤ 4) (some-injective _ _ at) (omega arith)
loop-InRange (suc (suc (suc (suc j)))) i at is = ground (arith, at)

loop-IsPlain : IsPlain loop.instrs
unfolding IsPlain
loop-IsPlain zero i at =
    subst (λ (k : Instr). ((k.opc == nop) ≡ false) × (k.arg < word)) (some-injective _ _ at)
      (refl, omega arith)
loop-IsPlain (suc zero) i at =
    subst (λ (k : Instr). ((k.opc == nop) ≡ false) × (k.arg < word)) (some-injective _ _ at)
      (refl, omega arith)
loop-IsPlain (suc (suc zero)) i at =
    subst (λ (k : Instr). ((k.opc == nop) ≡ false) × (k.arg < word)) (some-injective _ _ at)
      (refl, omega arith)
loop-IsPlain (suc (suc (suc zero))) i at =
    subst (λ (k : Instr). ((k.opc == nop) ≡ false) × (k.arg < word)) (some-injective _ _ at)
      (refl, omega arith)
loop-IsPlain (suc (suc (suc (suc j)))) i at = ground (arith, at)

convert-Converted_example : (l : List OptInstr) × (convert loop ≡ some l) × Converted loop l
convert-Converted_example = convert-Converted loop loop-InRange

generate-convert_example :
    (l : List OptInstr) × (after : Exec) × (convert loop ≡ some l)
    × (generate l false empty ≡ some after)
    × (after.instrs ≡ closed loop.instrs)
generate-convert_example =
    generate-convert loop empty loop-InRange loop-IsPlain (omega arith) empty-HasMemory refl

peephole-Generated_example :
    (l : List OptInstr) × (after : Exec) × (convert loop ≡ some l)
    × (generate (elim_dup_pop (cmp_opt l)) false empty ≡ some after)
    × Generated (elim_dup_pop l) false empty after
peephole-Generated_example =
    peephole-Generated loop empty false loop-InRange (omega arith) empty-HasMemory refl

-- `jump_false 2; jump 2; nop; return`, linked.
abbrev opt_instr : ℕ → Option ℕ → List (Option ℕ) → OptInstr
opt_instr opc to refs = record {
  lineno = 1;
  opc = opc;
  arg = 0;
  addr = none;
  jmpto = to;
  refs = refs;
}

abbrev skip : List OptInstr
skip =
    opt_instr jump_false (some 2) []
    ∷ opt_instr jump (some 3) []
    ∷ opt_instr nop none (some 0 ∷ [])
    ∷ opt_instr return_ none (some 1 ∷ [])
    ∷ []

skip-TargetsKept : TargetsKept skip
unfolding TargetsKept is_kept real_refs is_jump
skip-TargetsKept zero x at is =
    (2, _, subst (λ (k : OptInstr). k.jmpto ≡ some 2) (some-injective _ _ at) refl, refl, refl)
skip-TargetsKept (suc zero) x at is =
    (3, _, subst (λ (k : OptInstr). k.jmpto ≡ some 3) (some-injective _ _ at) refl, refl, refl)
skip-TargetsKept (suc (suc zero)) x at is =
    let plain : is_jump x.opc ≡ false =
      subst (λ (k : OptInstr). is_jump k.opc ≡ false) (some-injective _ _ at) refl in
    ground (arith, plain, is)
skip-TargetsKept (suc (suc (suc zero))) x at is =
    let plain : is_jump x.opc ≡ false =
      subst (λ (k : OptInstr). is_jump k.opc ≡ false) (some-injective _ _ at) refl in
    ground (arith, plain, is)
skip-TargetsKept (suc (suc (suc (suc j)))) x at is = ground (arith, at)

skip-HasTargets : HasTargets skip
unfolding HasTargets TargetsKept
skip-HasTargets j x at is = let (t, y, to, there, kept) = skip-TargetsKept j x at is in (t, to)

generate-Generated_example :
    (after : Exec) × (generate skip true empty ≡ some after) × Generated skip true empty after
generate-Generated_example =
    generate-Generated skip true empty refl skip-TargetsKept empty-HasMemory (omega arith)

cmp_opt-same_example : cmp_opt skip ≡ skip
cmp_opt-same_example = cmp_opt-same skip skip-HasTargets

skip_fits : skips_jump skip 0 jump_false ≡ true
unfolding skips_jump
skip_fits = refl

invert-Joins_example : Joins skip (invert skip 0) 0 true false
invert-Joins_example = invert-Joins skip 0 3 true false (inl skip_fits) refl

-- A jump to a jump to the end.
abbrev chain : List OptInstr
chain =
    opt_instr jump (some 1) []
    ∷ opt_instr jump (some 2) (some 0 ∷ [])
    ∷ opt_instr return_ none (some 1 ∷ [])
    ∷ []

-- `jump 1; jump 0`: a jump to a jump to itself.
abbrev stuck : Exec
stuck = executable (instr jump 1 ∷ instr jump 0 ∷ [])
