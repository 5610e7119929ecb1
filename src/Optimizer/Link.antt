-- ===== src/Optimizer/Link.antt =====
-- The links of jumps to their targets, and back.
use mathlib.Core.Option.{some-injective}
use mathlib.Core.List.{map}
use ivm.Base.{
  ℕ, zero, suc, ◌+◌, ◌<◌, ◌≤◌, ◌≡◌, refl, ap, sym, ◌∙◌, subst, Bool, true, false, ◌||◌, Option,
  none, some, List, [], ◌∷◌, ◌++◌, length, get_elem?, get_elem?_inside, get_elem?-some_lt, ◌==◌,
  ==_iff, if◌then◌else◌, Bool-cases, inl, inr, ◌⊎◌, arith,
}
use ivm.Opcode.{is_jump}
use ivm.Exec.{Instr}
use ivm.Optimizer.{OptInstr, target_of, modify, link, real_refs}
use ivm.Optimizer.Place.{length-modify, get_elem?-modify_self, get_elem?-modify_other}

-- Is the instruction among the references?
unfoldable pub refers : ℕ → List (Option ℕ) → Bool
refers i [] = false
refers i (none ∷ refs) = refers i refs
refers i (some r ∷ refs) = r == i || refers i refs

refers-append :
    (i : ℕ) (refs more : List (Option ℕ)) → refers i refs ≡ true → refers i (refs ++ more) ≡ true
unfolding refers
refers-append i [] more e = ground (arith, e)
refers-append i (none ∷ refs) more e = refers-append i refs more e
refers-append i (some r ∷ refs) more e = ground (arith, e, refers-append i refs more)

refers_last : (i : ℕ) (refs : List (Option ℕ)) → refers i (refs ++ some i ∷ []) ≡ true
unfolding refers
refers_last i [] = ground arith
refers_last i (none ∷ refs) = refers_last i refs
refers_last i (some r ∷ refs) = ground (arith, refers_last i refs)

pub refers-real_refs : (i : ℕ) (refs : List (Option ℕ)) → refers i refs ≡ true → 0 < real_refs refs
unfolding refers real_refs
refers-real_refs i [] e = ground (arith, e)
refers-real_refs i (none ∷ refs) e = refers-real_refs i refs e
refers-real_refs i (some r ∷ refs) e = omega arith

-- The instruction without its links.
abbrev pub bare : OptInstr → Instr
bare x = record { opc = x.opc; arg = x.arg; lineno = x.lineno }

-- What linking the jump at `a` to `t` makes of the instruction at `j`.
abbrev linked_at : ℕ → ℕ → ℕ → OptInstr → OptInstr
linked_at a t j x = record x {
  jmpto = if a == j then some t else x.jmpto;
  refs = if t == j then x.refs ++ some a ∷ [] else x.refs;
}

abbrev link_one : List OptInstr → ℕ → ℕ → List OptInstr
link_one l a t =
    modify (modify l a (λ x. record x { jmpto = some t })) t
      (λ x. record x { refs = x.refs ++ some a ∷ [] })

get_elem?-modify {ℓ} :
    {A : Type ℓ} (l : List A) (i j : ℕ) (f : A → A) (x : A)
    → get_elem? l j ≡ some x
    → get_elem? (modify l i f) j ≡ some (if i == j then f x else x)
get_elem?-modify l i j f x e = elim (Bool-cases (i == j)) [
  | inl same ↦
      let i-j = (==_iff i j).0 same in
      rw same (
        subst (λ m. get_elem? (modify l i f) m ≡ some (f x)) i-j
          (get_elem?-modify_self l i f x (ap (get_elem? l) i-j ∙ e)))
  | inr apart ↦ rw apart (get_elem?-modify_other l i j f apart ∙ e)
]

set_jmpto : ℕ → OptInstr → OptInstr
set_jmpto t x = record x { jmpto = some t }

two_writes :
    (to_here from_here : Bool) (a t : ℕ) (x : OptInstr)
    → (let y = if from_here then set_jmpto t x else x in
        if to_here then record y { refs = y.refs ++ some a ∷ [] } else y)
      ≡ record x {
        jmpto = if from_here then some t else x.jmpto;
        refs = if to_here then x.refs ++ some a ∷ [] else x.refs;
      }
unfolding set_jmpto
two_writes true true a t x = refl
two_writes true false a t x = refl
two_writes false true a t x = refl
two_writes false false a t x = refl

link_one-at :
    (l : List OptInstr) (a t j : ℕ) (x : OptInstr)
    → get_elem? l j ≡ some x
    → get_elem? (link_one l a t) j ≡ some (linked_at a t j x)
unfolding set_jmpto
link_one-at l a t j x e =
    get_elem?-modify (modify l a (λ y. record y { jmpto = some t })) t j _ _
      (get_elem?-modify l a j (λ y. record y { jmpto = some t }) x e)
    ∙ ap some (two_writes (t == j) (a == j) a t x)

length-link_one : (l : List OptInstr) (a t : ℕ) → length (link_one l a t) ≡ length l
length-link_one l a t = length-modify _ t _ ∙ length-modify l a _

-- The same, the other way round.
link_one-inv :
    (l : List OptInstr) (a t j : ℕ) (y : OptInstr)
    → get_elem? (link_one l a t) j ≡ some y
    → (x : OptInstr) × (get_elem? l j ≡ some x) × (y ≡ linked_at a t j x)
link_one-inv l a t j y e =
    let inside : j < length l =
      subst (λ n. j < n) (length-link_one l a t) (get_elem?-some_lt (link_one l a t) j e) in
    let (x, at) = get_elem?_inside l j inside in
    (x, at, some-injective _ _ (sym e ∙ link_one-at l a t j x at))

-- A jump that is linked: its target stands in the list and refers back to it.
pub record Linked (l : List OptInstr) (j : ℕ) (x : OptInstr) : Type 0 where
  pub target : OptInstr
  pub jmpto : x.jmpto ≡ some (target_of j x.arg)
  pub there : get_elem? l (target_of j x.arg) ≡ some target
  pub back : refers j target.refs ≡ true

-- Every jump before `a` is linked, and nothing else is.
pub record LinkedTo (l : List OptInstr) (a : ℕ) : Type 0 where
  pub jumps :
      (j : ℕ) (x : OptInstr) → get_elem? l j ≡ some x → j < a → is_jump x.opc ≡ true → Linked l j x
  pub others :
      (j : ℕ) (x : OptInstr)
      → get_elem? l j ≡ some x
      → (a ≤ j) ⊎ (is_jump x.opc ≡ false)
      → x.jmpto ≡ none

-- Jumps stay inside the list.
unfoldable pub IsInside : List OptInstr → Type 0
IsInside l =
    (j : ℕ) (x : OptInstr)
    → get_elem? l j ≡ some x
    → is_jump x.opc ≡ true
    → target_of j x.arg < length l

Linked-link_one :
    (l : List OptInstr) (a t j : ℕ) (x : OptInstr)
    → (a == j) ≡ false
    → Linked l j x
    → Linked (link_one l a t) j (linked_at a t j x)
Linked-link_one l a t j x apart r =
    let u = target_of j x.arg in
    record {
      target = linked_at a t u r.target;
      jmpto = rw apart r.jmpto;
      there = link_one-at l a t u r.target r.there;
      back = elim (Bool-cases (t == u)) [
        | inl same ↦ rw same (refers-append j r.target.refs (some a ∷ []) r.back)
        | inr other ↦ rw other r.back
      ];
    }

new-Linked :
    (l : List OptInstr) (a : ℕ) (x y : OptInstr)
    → get_elem? l (target_of a x.arg) ≡ some y
    → Linked (link_one l a (target_of a x.arg)) a (linked_at a (target_of a x.arg) a x)
new-Linked l a x y there =
    let t = target_of a x.arg in
    let here : (a == a) ≡ true = (==_iff a a).1 refl in
    let same : (t == t) ≡ true = (==_iff t t).1 refl in
    record {
      target = linked_at a t t y;
      jmpto = rw here refl;
      there = link_one-at l a t t y there;
      back = rw same (refers_last a y.refs);
    }

module _ (l : List OptInstr) (a : ℕ) (x y : OptInstr) (r : LinkedTo l a)
    (at : get_elem? l a ≡ some x) (is : is_jump x.opc ≡ true)
    (there : get_elem? l (target_of a x.arg) ≡ some y) where
  abbrev to : ℕ
  to = target_of a x.arg

  jumps_after :
      (j : ℕ) (w : OptInstr)
      → get_elem? l j ≡ some w
      → j < suc a
      → is_jump w.opc ≡ true
      → Linked (link_one l a to) j (linked_at a to j w)
  jumps_after j w before lt jw = elim (Bool-cases (a == j)) [
    | inl here ↦
        let a-j = (==_iff a j).0 here in
        let x-w : x ≡ w = some-injective _ _ (sym at ∙ ap (get_elem? l) a-j ∙ before) in
        subst (λ m. Linked (link_one l a to) m (linked_at a to m w)) a-j
          (subst (λ v. Linked (link_one l a to) a (linked_at a to a v)) x-w
            (new-Linked l a x y there))
    | inr apart ↦
        Linked-link_one l a to j w apart (r.jumps j w before (ground (arith, apart, lt)) jw)
  ]

  others_after :
      (j : ℕ) (w : OptInstr)
      → get_elem? l j ≡ some w
      → (suc a ≤ j) ⊎ (is_jump w.opc ≡ false)
      → (linked_at a to j w).jmpto ≡ none
  others_after j w before h = elim (Bool-cases (a == j)) [
    | inl here ↦
        let a-j = (==_iff a j).0 here in
        let x-w : x ≡ w = some-injective _ _ (sym at ∙ ap (get_elem? l) a-j ∙ before) in
        let jump : is_jump w.opc ≡ true = subst (λ v. is_jump v.opc ≡ true) x-w is in
        elim h [ inl behind ↦ absurd (omega arith) | inr plain ↦ ground (arith, jump, plain) ]
    | inr apart ↦
        let old : w.jmpto ≡ none =
          r.others j w before (elim h [ inl behind ↦ inl (omega arith) | inr plain ↦ inr plain ]) in
        rw apart old
  ]

  LinkedTo-link_one : LinkedTo (link_one l a to) (suc a)
  LinkedTo-link_one = record {
    jumps = λ j z e lt jz.
        let (w, before, same) = link_one-inv l a to j z e in
        subst (Linked (link_one l a to) j) (sym same)
          (jumps_after j w before lt (subst (λ v. is_jump v.opc ≡ true) same jz));
    others = λ j z e h.
        let (w, before, same) = link_one-inv l a to j z e in
        ap (λ v. v.jmpto) same
        ∙ others_after j w before (subst (λ v. (suc a ≤ j) ⊎ (is_jump v.opc ≡ false)) same h);
  }

-- An instruction that is no jump needs no link.
LinkedTo-plain :
    (l : List OptInstr) (a : ℕ) (x : OptInstr)
    → LinkedTo l a
    → get_elem? l a ≡ some x
    → is_jump x.opc ≡ false
    → LinkedTo l (suc a)
LinkedTo-plain l a x r at plain = record {
  jumps = λ j z e lt jz. elim (Bool-cases (a == j)) [
    | inl here ↦
        let a-j = (==_iff a j).0 here in
        let x-z : x ≡ z = some-injective _ _ (sym at ∙ ap (get_elem? l) a-j ∙ e) in
        let not_jump : is_jump z.opc ≡ false = subst (λ v. is_jump v.opc ≡ false) x-z plain in
        ground (arith, not_jump, jz)
    | inr apart ↦ r.jumps j z e (ground (arith, apart, lt)) jz
  ];
  others = λ j z e h. elim h [
    | inl behind ↦ r.others j z e (inl (omega arith))
    | inr too ↦ r.others j z e (inr too)
  ];
}

map-modify :
    (l : List OptInstr) (i : ℕ) (f : OptInstr → OptInstr)
    → ((x : OptInstr) → bare (f x) ≡ bare x)
    → map bare (modify l i f) ≡ map bare l
unfolding modify
map-modify [] i f same = refl
map-modify (x ∷ l) zero f same = ap (λ y. y ∷ map bare l) (same x)
map-modify (x ∷ l) (suc i) f same = ap (λ ys. bare x ∷ ys) (map-modify l i f same)

map-link_one : (l : List OptInstr) (a t : ℕ) → map bare (link_one l a t) ≡ map bare l
map-link_one l a t =
    map-modify (modify l a (λ x. record x { jmpto = some t })) t _ (λ x. refl)
    ∙ map-modify l a _ (λ x. refl)

IsInside-link_one : (l : List OptInstr) (a t : ℕ) → IsInside l → IsInside (link_one l a t)
unfolding IsInside
IsInside-link_one l a t inside j z e jz =
    let (w, before, same) = link_one-inv l a t j z e in
    let at = inside j w before (subst (λ v. is_jump v.opc ≡ true) same jz) in
    rw (length-link_one l a t, same) at

-- The loop ends, with every jump linked and the instructions as they were.
pub link-LinkedTo :
    (n a : ℕ) (l : List OptInstr)
    → n + a ≡ length l
    → IsInside l
    → LinkedTo l a
    → (l' : List OptInstr) × (link n a l ≡ some l')
      × LinkedTo l' (length l')
      × (map bare l' ≡ map bare l)
unfolding link
link-LinkedTo zero a l size inside r = (l, refl, subst (LinkedTo l) (omega arith) r, refl)
link-LinkedTo (suc n) a l size inside r =
    let (x, at) = get_elem?_inside l a (omega arith) in
    elim (Bool-cases (is_jump x.opc)) [
      | inl is ↦
          let t = target_of a x.arg in
          let (y, there) = get_elem?_inside l t (unfold IsInside in inside a x at is) in
          let (l', run, done, same) =
            link-LinkedTo n (suc a) (link_one l a t) (omega (arith, size, length-link_one l a t))
              (IsInside-link_one l a t inside) (LinkedTo-link_one l a x y r at is there) in
          (l', rw (link, at, is, there) run, done, same ∙ map-link_one l a t)
      | inr plain ↦
          let (l', run, done, same) =
            link-LinkedTo n (suc a) l (omega (arith, size)) inside
              (LinkedTo-plain l a x r at plain) in
          (l', rw (link, at, plain) run, done, same)
    ]
