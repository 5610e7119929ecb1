-- ===== src/Optimizer/RoundTrip.antt =====
-- What is converted and generated without a pass in between stays as it was.
use mathlib.Core.Option.{some-injective}
use mathlib.Core.List.{map}
use ivm.Base.{
  ℕ, zero, suc, ◌+◌, ◌<◌, ◌≤◌, ◌≡◌, refl, ap, sym, ◌∙◌, subst, Bool, true, false, not, ◌||◌, some,
  List, [], ◌∷◌, ◌++◌, length, length-append, get_elem?, get_elem?_ext, get_elem?_inside,
  get_elem?_outside, get_elem?-some_lt, ltb, ◌==◌, if◌then◌else◌, Bool-cases, inl, inr, arith,
}
use ivm.Opcode.{nop, is_jump}
use ivm.Exec.Grow.{max_instrs, HasMemory}
use ivm.Exec.{Instr, Exec}
use ivm.Optimizer.{
  OptInstr, word, target_of, has_out_ref, ends_with_return, added_return, convert, generate,
  is_kept,
}
use ivm.Optimizer.Place.{place}
use ivm.Optimizer.Rewrite.{distance, generated, generated-jump, generated-plain}
use ivm.Optimizer.Generate.{Generated, generate-Generated}
use ivm.Optimizer.Link.{bare, LinkedTo}
use ivm.Optimizer.Convert.{InRange, Converted, convert-Converted, Converted-TargetsKept, snoc-at}

-- Instructions with arguments of a word, none of them a NOP.
unfoldable pub IsPlain : List Instr → Type 0
IsPlain is =
    (j : ℕ) (i : Instr) → get_elem? is j ≡ some i → ((i.opc == nop) ≡ false) × (i.arg < word)

-- What an executable has after a RETURN is added where it needs one.
pub closed : List Instr → List Instr
closed is =
    if has_out_ref (length is) 0 is || not (ends_with_return is)
    then is ++ bare added_return ∷ []
    else is

length-closed : (is : List Instr) → length (closed is) ≤ length is + 1
unfolding closed
length-closed is = elim (Bool-cases (has_out_ref (length is) 0 is || not (ends_with_return is))) [
  | inl adds ↦ rw adds (omega (arith, length-append is (bare added_return ∷ [])))
  | inr stays ↦ rw stays (omega arith)
]

closed-IsPlain : (is : List Instr) → IsPlain is → IsPlain (closed is)
unfolding closed IsPlain
closed-IsPlain is plain =
    elim (Bool-cases (has_out_ref (length is) 0 is || not (ends_with_return is))) [
      | inl adds ↦ rw adds (λ j i e. elim (snoc-at is (bare added_return) j i e) [
        | inl old ↦ plain j i old
        | inr new ↦ subst (λ x. ((x.opc == nop) ≡ false) × (x.arg < word)) new (refl, omega arith)
      ])
      | inr stays ↦ rw stays plain
    ]

get_elem?-map :
    {A B : Type 0} (f : A → B) (l : List A) (j : ℕ) (x : A)
    → get_elem? l j ≡ some x
    → get_elem? (map f l) j ≡ some (f x)
get_elem?-map f [] j x e = ground (arith, e)
get_elem?-map f (y ∷ l) zero x e = ap some (ap f (some-injective _ _ e))
get_elem?-map f (y ∷ l) (suc j) x e = get_elem?-map f l j x e

length-map : {A B : Type 0} (f : A → B) (l : List A) → length (map f l) ≡ length l
length-map f [] = refl
length-map f (x ∷ l) = ap suc (length-map f l)

AllKept : List OptInstr → Type 0
AllKept l = (j : ℕ) (x : OptInstr) → get_elem? l j ≡ some x → is_kept x ≡ true

AllKept-place : (l : List OptInstr) → AllKept l → (i : ℕ) → i ≤ length l → place l i ≡ i
unfolding AllKept place
AllKept-place l all zero h = refl
AllKept-place [] all (suc i) h = absurd (omega arith)
AllKept-place (x ∷ l) all (suc i) h =
    rw (all 0 x refl) (ap suc (AllKept-place l (λ j. all (suc j)) i (omega arith)))

distance_back : (j arg : ℕ) → j < word → arg < word → distance j (target_of j arg) ≡ arg
distance_back j arg h k = omega arith

module _ (l : List OptInstr) (linked : LinkedTo l (length l)) (plain : IsPlain (map bare l))
    (small : length l < word) where
  all_kept : AllKept l
  unfolding AllKept IsPlain is_kept
  all_kept j x e = ground (arith, (plain j (bare x) (get_elem?-map bare l j x e)).0)

  generated-bare : (j : ℕ) (x : OptInstr) → get_elem? l j ≡ some x → generated l j x ≡ bare x
  unfolding IsPlain
  generated-bare j x e = elim (Bool-cases (is_jump x.opc)) [
    | inl is ↦
        let lt = get_elem?-some_lt l j e in
        let r = linked.jumps j x e lt is in
        let t = target_of j x.arg in
        let from : place l j ≡ j = AllKept-place l all_kept j (omega arith) in
        let to : place l t ≡ t =
          AllKept-place l all_kept t (omega (arith, get_elem?-some_lt l t r.there)) in
        let fits = (plain j (bare x) (get_elem?-map bare l j x e)).1 in
        let back = distance_back j x.arg (omega (arith, lt, small)) fits in
        generated-jump l j x t is r.jmpto ∙ rw (from, to, back) refl
    | inr other ↦ generated-plain l j x other
  ]

  same_at :
      (cached : Bool) (dest after : Exec)
      → Generated l cached dest after
      → (j : ℕ) → get_elem? after.instrs j ≡ get_elem? (map bare l) j
  unfolding AllKept
  same_at cached dest after g j = elim (Bool-cases (ltb j (length l))) [
    | inl inside ↦
        let (x, e) = get_elem?_inside l j (ground (arith, inside)) in
        let here : place l j ≡ j = AllKept-place l all_kept j (ground (arith, inside)) in
        (rw here at (g.instrs j x e (all_kept j x e)))
        ∙ ap some (generated-bare j x e)
        ∙ sym (get_elem?-map bare l j x e)
    | inr outside ↦
        let size : length after.instrs ≡ length l =
          g.size ∙ AllKept-place l all_kept (length l) (omega arith) in
        get_elem?_outside after.instrs j (ground (arith, size, outside))
        ∙ sym (get_elem?_outside (map bare l) j (ground (arith, length-map bare l, outside)))
  ]

-- A converted executable is longer by one instruction at most.
pub length-Converted :
    (e : Exec) (l : List OptInstr) → Converted e l → length l ≤ length e.instrs + 1
unfolding closed
length-Converted e l c = ground (arith, length-map bare l, ap length c.code, length-closed e.instrs)

-- Converting an executable of fewer than 2^31 instructions without a NOP, whose jumps leave it by
-- one instruction at most, and generating it again into an empty one with some memory gives the
-- same instructions with the same arguments, and the RETURN behind them that the conversion adds.
pub generate-convert :
    (e dest : Exec)
    → InRange e
    → IsPlain e.instrs
    → length e.instrs < max_instrs
    → HasMemory dest
    → dest.instrs ≡ []
    → (l : List OptInstr) × (after : Exec) × (convert e ≡ some l)
      × (generate l e.cached dest ≡ some after)
      × (after.instrs ≡ closed e.instrs)
unfolding closed
generate-convert e dest range plain small memory fresh =
    let (l, run, c) = convert-Converted e range in
    let size = length-Converted e l c in
    let (after, done, g) =
      generate-Generated l e.cached dest fresh (Converted-TargetsKept e l c) memory
        (omega (arith, small, size)) in
    let plain_l : IsPlain (map bare l) =
      subst IsPlain (sym c.code) (closed-IsPlain e.instrs plain) in
    (
      l,
      after,
      run,
      done,
      get_elem?_ext after.instrs (map bare l)
            (same_at l c.linked plain_l (omega (arith, small, size)) e.cached dest after g)
          ∙ c.code,
    )
