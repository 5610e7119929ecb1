-- ===== src/Optimizer/Peephole.antt =====
-- The passes over pairs of instructions leave the jumps alone, so that their targets are generated.
use mathlib.Core.Option.{some-injective}
use ivm.Base.{
  ℕ, zero, suc, ◌<◌, ◌≡◌, refl, ap, ◌∙◌, subst, Bool, true, false, ◌&&◌, Option, some, List, [],
  ◌∷◌, length, get_elem?, get_elem?-some_lt, ◌==◌, Bool-cases, inl, inr, ◌⊎◌, arith,
}
use ivm.Opcode.{nop, pop, is_jump}
use ivm.Exec.Grow.{max_instrs, HasMemory}
use ivm.Exec.{Exec}
use ivm.Optimizer.{OptInstr, target_of, real_refs, is_kept, convert, generate}
use ivm.Optimizer.Reduce.{
  is_raw_jump, is_new_no_se, is_iso, cmp_pair, pop_pair, each_pair, peephole, cmp_opt, elim_dup_pop,
}
use ivm.Optimizer.Link.{refers-real_refs}
use ivm.Optimizer.Convert.{InRange, Converted, convert-Converted}
use ivm.Optimizer.Rewrite.{TargetsKept}
use ivm.Optimizer.RoundTrip.{length-Converted}
use ivm.Optimizer.Generate.{Generated, generate-Generated}

-- Every jump has a target.
unfoldable pub HasTargets : List OptInstr → Type 0
HasTargets l =
    (j : ℕ) (x : OptInstr)
    → get_elem? l j ≡ some x
    → is_jump x.opc ≡ true
    → (t : ℕ) × (x.jmpto ≡ some t)

raw_jump-jump : (opc : ℕ) → is_raw_jump opc ≡ true → is_jump opc ≡ true
unfolding is_raw_jump is_jump
raw_jump-jump opc e = ground (arith, e)

linked-not_iso : (y : OptInstr) (t : ℕ) → y.jmpto ≡ some t → is_iso y ≡ false
unfolding is_iso
linked-not_iso y t e = ground (arith, e)

cmp_pair-same :
    (x y : OptInstr) → (is_jump y.opc ≡ true → (t : ℕ) × (y.jmpto ≡ some t)) → cmp_pair x y ≡ (x, y)
unfolding cmp_pair
cmp_pair-same x y h = elim (Bool-cases (is_raw_jump y.opc)) [
  | inl raw ↦
      let (t, to) = h (raw_jump-jump y.opc raw) in ground (arith, raw, linked-not_iso y t to)
  | inr other ↦ ground (arith, other)
]

each_pair-same :
    (x : OptInstr) (xs : List OptInstr) → HasTargets xs → each_pair cmp_pair x xs ≡ x ∷ xs
unfolding each_pair HasTargets
each_pair-same x [] h = refl
each_pair-same x (y ∷ xs) h =
    rw (cmp_pair-same x y (h 0 y refl)) (ap (λ l. x ∷ l) (each_pair-same y xs (λ j. h (suc j))))

-- In a list in which every jump has a target, as the conversion makes it, the pass for comparisons
-- changes nothing.
pub cmp_opt-same : (l : List OptInstr) → HasTargets l → cmp_opt l ≡ l
unfolding cmp_opt peephole HasTargets
cmp_opt-same [] h = refl
cmp_opt-same (x ∷ xs) h = each_pair-same x xs (λ j. h (suc j))

-- An instruction as it was, or a NOP where it had no references.
Muted : OptInstr → OptInstr → Type 0
Muted x y = (y ≡ x) ⊎ ((y ≡ record x { opc = nop }) × (real_refs x.refs ≡ 0))

iso-real_refs : (x : OptInstr) → is_iso x ≡ true → real_refs x.refs ≡ 0
unfolding is_iso
iso-real_refs x e = no_refs x.refs (ground (arith, e))
  where
    no_refs : (refs : List (Option ℕ)) → length refs ≡ 0 → real_refs refs ≡ 0
    no_refs [] h = unfold real_refs in refl
    no_refs (r ∷ refs) h = absurd (omega arith)

pop_pair-Muted : (x y : OptInstr) → Muted x (pop_pair x y).0 × Muted y (pop_pair x y).1
unfolding pop_pair Muted
pop_pair-Muted x y =
    elim (Bool-cases (is_new_no_se x.opc && y.opc == pop && (is_iso x && is_iso y))) [
      | inl fits ↦
          let iso_x : is_iso x ≡ true = ground (arith, fits) in
          let iso_y : is_iso y ≡ true = ground (arith, fits) in
          rw fits (inr (refl, iso-real_refs x iso_x), inr (refl, iso-real_refs y iso_y))
      | inr other ↦ rw other (inl refl, inl refl)
    ]

Muted-trans : (x y z : OptInstr) → Muted x y → Muted y z → Muted x z
unfolding Muted
Muted-trans x y z (inl e) m =
    subst (λ (w : OptInstr). (z ≡ w) ⊎ ((z ≡ record w { opc = nop }) × (real_refs w.refs ≡ 0))) e m
Muted-trans x y z (inr (e, none_)) (inl same) = inr (same ∙ e, none_)
Muted-trans x y z (inr (e, none_)) (inr (f, _)) =
    inr (f ∙ ap (λ (w : OptInstr). record w { opc = nop }) e, none_)

-- The lists agree up to such NOPs.
data MutedList : List OptInstr → List OptInstr → Type 0 where
  muted_nil : MutedList [] []
  muted_cons :
      (x y : OptInstr) (l l' : List OptInstr)
      → Muted x y
      → MutedList l l'
      → MutedList (x ∷ l) (y ∷ l')

each_pair-Muted :
    (x₀ x : OptInstr) (xs : List OptInstr)
    → Muted x₀ x
    → MutedList (x₀ ∷ xs) (each_pair pop_pair x xs)
unfolding each_pair
each_pair-Muted x₀ x [] m = muted_cons x₀ x [] [] m muted_nil
each_pair-Muted x₀ x (y ∷ xs) m =
    let (first, next) = pop_pair-Muted x y in
    muted_cons x₀ _ (y ∷ xs) _ (Muted-trans x₀ x _ m first) (each_pair-Muted y _ xs next)

elim_dup_pop-Muted : (l : List OptInstr) → MutedList l (elim_dup_pop l)
unfolding elim_dup_pop peephole Muted
elim_dup_pop-Muted [] = muted_nil
elim_dup_pop-Muted (x ∷ xs) = each_pair-Muted x x xs (inl refl)

Muted-old :
    (l l' : List OptInstr) (j : ℕ) (y : OptInstr)
    → MutedList l l'
    → get_elem? l' j ≡ some y
    → (x : OptInstr) × (get_elem? l j ≡ some x) × Muted x y
Muted-old _ _ j y muted_nil e = ground (arith, e)
Muted-old _ _ zero y (muted_cons x y' l l' m r) e =
    (x, refl, subst (Muted x) (some-injective _ _ e) m)
Muted-old _ _ (suc j) y (muted_cons x y' l l' m r) e = Muted-old l l' j y r e

Muted-new :
    (l l' : List OptInstr) (j : ℕ) (x : OptInstr)
    → MutedList l l'
    → get_elem? l j ≡ some x
    → (y : OptInstr) × (get_elem? l' j ≡ some y) × Muted x y
Muted-new _ _ j x muted_nil e = ground (arith, e)
Muted-new _ _ zero x (muted_cons x' y l l' m r) e =
    (y, refl, subst (λ w. Muted w y) (some-injective _ _ e) m)
Muted-new _ _ (suc j) x (muted_cons x' y l l' m r) e = Muted-new l l' j x r e

length-MutedList : (l l' : List OptInstr) → MutedList l l' → length l' ≡ length l
length-MutedList _ _ muted_nil = refl
length-MutedList _ _ (muted_cons x y l l' m r) = ap suc (length-MutedList l l' r)

nop-plain : is_jump nop ≡ false
unfolding is_jump
nop-plain = refl

Muted-jump : (x y : OptInstr) → Muted x y → is_jump y.opc ≡ true → y ≡ x
unfolding Muted
Muted-jump x y (inl e) is = e
Muted-jump x y (inr (e, _)) is =
    let mute : is_jump y.opc ≡ false = ap (λ (w : OptInstr). is_jump w.opc) e ∙ nop-plain in
    ground (arith, mute, is)

Muted-kept : (x y : OptInstr) → Muted x y → 0 < real_refs x.refs → is_kept y ≡ true
unfolding Muted is_kept
Muted-kept x y (inl e) some_ref =
    let same : real_refs y.refs ≡ real_refs x.refs = ap (λ (w : OptInstr). real_refs w.refs) e in
    ground (arith, same, some_ref)
Muted-kept x y (inr (_, no_ref)) some_ref = absurd (omega arith)

elim_dup_pop-TargetsKept :
    (e : Exec) (l : List OptInstr) → Converted e l → TargetsKept (elim_dup_pop l)
unfolding TargetsKept
elim_dup_pop-TargetsKept e l c i y at is =
    let muted = elim_dup_pop-Muted l in
    let (x, at_x, m) = Muted-old l _ i y muted at in
    let same = Muted-jump x y m is in
    let is_x : is_jump x.opc ≡ true = subst (λ (w : OptInstr). is_jump w.opc ≡ true) same is in
    let r = c.linked.jumps i x at_x (get_elem?-some_lt l i at_x) is_x in
    let (target, there, m') = Muted-new l _ (target_of i x.arg) r.target muted r.there in
    (
      target_of i x.arg,
      target,
      ap (λ (w : OptInstr). w.jmpto) same ∙ r.jmpto,
      there,
      Muted-kept r.target target m' (refers-real_refs i r.target.refs r.back),
    )

Converted-HasTargets : (e : Exec) (l : List OptInstr) → Converted e l → HasTargets l
unfolding HasTargets
Converted-HasTargets e l c j x at is =
    let r = c.linked.jumps j x at (get_elem?-some_lt l j at) is in (target_of j x.arg, r.jmpto)

-- After the conversion of an executable of fewer than 2^31 instructions whose jumps leave it by
-- one instruction at most, the passes for comparisons and for unused values leave the targets of
-- all jumps to be generated: the generation into an empty executable with some memory ends with no
-- assertion failed, and lays out the list, with NOPs for unused values, as it is.
pub peephole-Generated :
    (e dest : Exec) (cached : Bool)
    → InRange e
    → length e.instrs < max_instrs
    → HasMemory dest
    → dest.instrs ≡ []
    → (l : List OptInstr) × (after : Exec) × (convert e ≡ some l)
      × (generate (elim_dup_pop (cmp_opt l)) cached dest ≡ some after)
      × Generated (elim_dup_pop l) cached dest after
peephole-Generated e dest cached range small memory fresh =
    let (l, run, c) = convert-Converted e range in
    let size = length-Converted e l c in
    let muted_size = length-MutedList l _ (elim_dup_pop-Muted l) in
    let (after, done, g) =
      generate-Generated (elim_dup_pop l) cached dest fresh (elim_dup_pop-TargetsKept e l c) memory
        (omega (arith, small, size, muted_size)) in
    let same = cmp_opt-same l (Converted-HasTargets e l c) in
    (l, after, run, ap (λ k. generate (elim_dup_pop k) cached dest) same ∙ done, g)
