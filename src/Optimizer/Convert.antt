-- ===== src/Optimizer/Convert.antt =====
-- The conversion of an executable: its instructions, with every jump linked to its target.
use mathlib.Core.Option.{some-injective}
use mathlib.Core.List.{map, map-append}
use ivm.Base.{
  ℕ, zero, suc, ◌+◌, ◌<◌, ◌≤◌, ◌≡◌, refl, ap, sym, ◌∙◌, subst, true, false, not, ◌||◌, none, some,
  List, [], ◌∷◌, ◌++◌, length, length-append, get_elem?, get_elem?-some_lt, if◌then◌else◌,
  Bool-cases, inl, inr, ◌⊎◌, arith,
}
use ivm.Opcode.{return_, is_jump}
use ivm.Exec.{Instr, Exec}
use ivm.Optimizer.{
  OptInstr, target_of, build, build_all, has_out_ref, ends_with_return, added_return, convert,
  is_kept,
}
use ivm.Optimizer.Rewrite.{TargetsKept}
use ivm.Optimizer.Link.{bare, refers-real_refs, LinkedTo, IsInside, link-LinkedTo}

-- No jump leaves the executable by more than one instruction.
unfoldable pub InRange : Exec → Type 0
InRange e =
    (j : ℕ) (i : Instr)
    → get_elem? e.instrs j ≡ some i
    → is_jump i.opc ≡ true
    → target_of j i.arg ≤ length e.instrs

build_all-at :
    (is : List Instr) (j : ℕ) (x : OptInstr)
    → get_elem? (build_all is) j ≡ some x
    → (i : Instr) × (get_elem? is j ≡ some i) × (build i ≡ x)
unfolding build_all
build_all-at [] j x e = ground (arith, e)
build_all-at (i ∷ is) zero x e = (i, refl, some-injective _ _ e)
build_all-at (i ∷ is) (suc j) x e = build_all-at is j x e

length-build_all : (is : List Instr) → length (build_all is) ≡ length is
unfolding build_all
length-build_all [] = refl
length-build_all (i ∷ is) = ap suc (length-build_all is)

map-build_all : (is : List Instr) → map bare (build_all is) ≡ is
unfolding build_all build
map-build_all [] = refl
map-build_all (i ∷ is) = ap (λ l. i ∷ l) (map-build_all is)

has_out_ref-none :
    (len pos : ℕ) (is : List Instr) (j : ℕ) (i : Instr)
    → has_out_ref len pos is ≡ false
    → get_elem? is j ≡ some i
    → is_jump i.opc ≡ true
    → target_of (pos + j) i.arg < len
unfolding has_out_ref
has_out_ref-none len pos [] j i e at is_j = ground (arith, at)
has_out_ref-none len pos (h ∷ is) zero i e at is_j =
    let shift : pos + 0 ≡ pos = omega arith in rw shift (ground (arith, e, at, is_j))
has_out_ref-none len pos (h ∷ is) (suc j) i e at is_j =
    let shift : pos + suc j ≡ suc pos + j = omega arith in
    let rest : has_out_ref len (suc pos) is ≡ false = ground (arith, e) in
    rw shift (has_out_ref-none len (suc pos) is j i rest at is_j)

-- The list before it is linked.
IsFresh : List OptInstr → Type 0
IsFresh l = (j : ℕ) (x : OptInstr) → get_elem? l j ≡ some x → x.jmpto ≡ none

IsFresh-LinkedTo : (l : List OptInstr) → IsFresh l → LinkedTo l 0
unfolding IsFresh
IsFresh-LinkedTo l f = record {
  jumps = λ j x e lt is. absurd (omega arith);
  others = λ j x e h. f j x e;
}

-- A converted executable: all jumps are linked, and the instructions are the old ones, with a RETURN
-- behind them if a jump goes to the end or the last one is none.
pub record Converted (e : Exec) (l : List OptInstr) : Type 0 where
  pub linked : LinkedTo l (length l)
  pub code : map bare l ≡ (
      if has_out_ref (length e.instrs) 0 e.instrs || not (ends_with_return e.instrs)
      then e.instrs ++ bare added_return ∷ []
      else e.instrs)

pub snoc-at :
    {A : Type 0} (xs : List A) (y : A) (j : ℕ) (x : A)
    → get_elem? (xs ++ y ∷ []) j ≡ some x
    → (get_elem? xs j ≡ some x) ⊎ (y ≡ x)
snoc-at [] y zero x e = inr (some-injective _ _ e)
snoc-at [] y (suc j) x e = ground (arith, e)
snoc-at (z ∷ xs) y zero x e = inl e
snoc-at (z ∷ xs) y (suc j) x e = snoc-at xs y j x e

return-plain : is_jump return_ ≡ false
unfolding is_jump
return-plain = refl

abbrev longer : Exec → List OptInstr
longer e = build_all e.instrs ++ added_return ∷ []

built-IsFresh : (is : List Instr) → IsFresh (build_all is)
unfolding IsFresh build
built-IsFresh is j x at =
    let (i, there, same) = build_all-at is j x at in ap (λ y. y.jmpto) (sym same)

longer-IsFresh : (e : Exec) → IsFresh (longer e)
unfolding IsFresh
longer-IsFresh e j x at = elim (snoc-at (build_all e.instrs) added_return j x at) [
  | inl old ↦ built-IsFresh e.instrs j x old
  | inr new ↦ ap (λ y. y.jmpto) (sym new)
]

-- The target of a built jump is the one of its instruction.
built-target :
    (is : List Instr) (n : ℕ)
    → ((j : ℕ) (i : Instr) → get_elem? is j ≡ some i → is_jump i.opc ≡ true → target_of j i.arg < n)
    → (j : ℕ) (x : OptInstr) → get_elem? (build_all is) j ≡ some x
    → is_jump x.opc ≡ true
    → target_of j x.arg < n
unfolding build
built-target is n inside j x at jump =
    let (i, there, same) = build_all-at is j x at in
    subst (λ y. target_of j y.arg < n) same
      (inside j i there (subst (λ y. is_jump y.opc ≡ true) (sym same) jump))

longer-IsInside : (e : Exec) → InRange e → IsInside (longer e)
unfolding IsInside InRange
longer-IsInside e range j x at jump =
    let size : length (longer e) ≡ length e.instrs + 1 =
      omega (
        arith,
        length-append (build_all e.instrs) (added_return ∷ []),
        length-build_all e.instrs,
      ) in
    elim (snoc-at (build_all e.instrs) added_return j x at) [
      | inl old ↦ rw size (
          built-target e.instrs (length e.instrs + 1)
            (λ m i there is. omega (arith, range m i there is)) j x old jump)
      | inr new ↦
          let plain : is_jump x.opc ≡ false = subst (λ y. is_jump y.opc ≡ false) new return-plain in
          ground (arith, plain, jump)
    ]

built-IsInside :
    (e : Exec) → has_out_ref (length e.instrs) 0 e.instrs ≡ false → IsInside (build_all e.instrs)
unfolding IsInside
built-IsInside e none_out j x at jump =
    let inside : (m : ℕ) (i : Instr)
        → get_elem? e.instrs m ≡ some i
        → is_jump i.opc ≡ true
        → target_of m i.arg < length e.instrs =
      λ m i there is.
        let shift : 0 + m ≡ m = omega arith in
        rw shift at (has_out_ref-none (length e.instrs) 0 e.instrs m i none_out there is) in
    rw (length-build_all e.instrs) (built-target e.instrs (length e.instrs) inside j x at jump)

-- ivm_opt_il_convertFromExec of an executable whose jumps leave it by one instruction at most
-- stays inside the list and links every jump, and nothing else, to the instruction at its address,
-- which has the jump among its references; the instructions are those of the executable, with a
-- RETURN behind them exactly if a jump leaves it or the last one is none.
pub convert-Converted :
    (e : Exec) → InRange e → (l : List OptInstr) × (convert e ≡ some l) × Converted e l
unfolding convert
convert-Converted e range =
    elim (Bool-cases
      (has_out_ref (length e.instrs) 0 e.instrs || not (ends_with_return e.instrs))) [
        | inl adds ↦
            let (l, run, linked, same) =
              link-LinkedTo (length (longer e)) 0 (longer e) (omega arith) (longer-IsInside e range)
                (IsFresh-LinkedTo (longer e) (longer-IsFresh e)) in
            (
              l,
              rw adds run,
              record {
                linked = linked;
                code = rw adds (
                    same
                    ∙ map-append bare (build_all e.instrs) (added_return ∷ [])
                    ∙ ap (λ is. is ++ bare added_return ∷ []) (map-build_all e.instrs));
              },
            )
        | inr stays ↦
            let none_out : has_out_ref (length e.instrs) 0 e.instrs ≡ false =
              ground (arith, stays) in
            let (l, run, linked, same) =
              link-LinkedTo (length (build_all e.instrs)) 0 (build_all e.instrs) (omega arith)
                (built-IsInside e none_out)
                (IsFresh-LinkedTo (build_all e.instrs) (built-IsFresh e.instrs)) in
            (
              l,
              rw stays run,
              record { linked = linked; code = rw stays (same ∙ map-build_all e.instrs) },
            )
      ]

-- The target of a linked jump is kept, since the jump refers to it.
pub Converted-TargetsKept : (e : Exec) (l : List OptInstr) → Converted e l → TargetsKept l
unfolding TargetsKept is_kept
Converted-TargetsKept e l c i x at is =
    let r = c.linked.jumps i x at (get_elem?-some_lt l i at) is in
    let some_ref = refers-real_refs i r.target.refs r.back in
    (target_of i x.arg, r.target, r.jmpto, r.there, ground (arith, some_ref))
