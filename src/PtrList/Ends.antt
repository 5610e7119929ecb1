-- ===== src/PtrList/Ends.antt =====
-- Pushing and popping at the ends of a pointer list.
use ivm.Base.{
  ℕ, suc, ◌-◌, ◌<◌, ◌≡◌, refl, subst, ◌∙◌, ap, false, Bool-cases, some, List, [], ◌∷◌, ◌++◌, arith,
  length, length-set, length-append, length-take, length-drop, get_elem?_inside, set, take,
  take-set, take_append, take-suc, drop, leb, ◌==◌, if◌then◌else◌, inl, inr, ◌⊎◌,
}
use ivm.PtrList.{PtrList, inc, push, move_right, push_front, pop}
use ivm.PtrList.Memory.{items, IsValid, Roomy, inc-Roomy, store_inside}

-- ivm_ptlist_push on a valid list stays inside the memory, which it doubles if it is full; it
-- appends the element and returns its index.
pub push-items :
    (junk : ℕ → ℕ) (l : PtrList) (p : ℕ)
    → IsValid l
    → (l' : PtrList) × (push junk l p ≡ some (l.cur, l'))
      × IsValid l'
      × (items l' ≡ items l ++ p ∷ [])
unfolding push
push-items junk l p v =
    let r = if leb l.alloc l.cur then inc junk l else l in
    let w : Roomy l (suc l.cur) r = inc-Roomy junk l v in
    let inside : r.cur < length r.lst = omega (arith, w.room, w.same, w.valid.sized) in
    (
      record r { lst = set r.lst r.cur p; cur = suc r.cur },
      ground (arith, store_inside r.lst r.cur p inside, w.same),
      record {
        sized = length-set r.lst r.cur p ∙ w.valid.sized;
        fits = omega (arith, w.room, w.same);
        roomy = w.valid.roomy;
      },
      take-set r.lst r.cur p inside ∙ ap (λ q. q ++ p ∷ []) w.kept,
    )

move_right-items :
    (cells : List ℕ) (n p : ℕ)
    → n < length cells
    → (moved : List ℕ) × (move_right cells n ≡ some moved)
      × (length moved ≡ length cells)
      × (take (suc n) (set moved 0 p) ≡ p ∷ take n cells)
unfolding move_right take drop
move_right-items [] n p h = absurd (omega arith)
move_right-items (c ∷ cells) n p h =
    let room : leb (length (c ∷ cells)) n ≡ false = ground arith in
    (
      c ∷ (take n (c ∷ cells) ++ drop n cells),
      rw (room, move_right) refl,
      omega (
        arith,
        length-append (take n (c ∷ cells)) (drop n cells),
        length-take n (c ∷ cells) (omega arith),
        length-drop n cells,
      ),
      ap (λ l. p ∷ l)
          (subst (λ m. take m (take n (c ∷ cells) ++ drop n cells) ≡ take n (c ∷ cells))
            (length-take n (c ∷ cells) (omega arith))
            (take_append (take n (c ∷ cells)) (drop n cells))),
    )

-- ivm_ptlist_pushFront on a valid list stays inside the memory and puts the element before all
-- others, in their order.
push_front-items :
    (junk : ℕ → ℕ) (l : PtrList) (p : ℕ)
    → IsValid l
    → (l' : PtrList) × (push_front junk l p ≡ some (l.cur, l'))
      × IsValid l'
      × (items l' ≡ p ∷ items l)
unfolding push_front
push_front-items junk l p v =
    let r = if leb l.alloc l.cur then inc junk l else l in
    let w : Roomy l (suc l.cur) r = inc-Roomy junk l v in
    let inside : r.cur < length r.lst = omega (arith, w.room, w.same, w.valid.sized) in
    let (moved, run, width, front) = move_right-items r.lst r.cur p inside in
    (
      record r { lst = set moved 0 p; cur = suc r.cur },
      ground (arith, run, store_inside moved 0 p (omega (arith, width)), w.same),
      record {
        sized = length-set moved 0 p ∙ width ∙ w.valid.sized;
        fits = omega (arith, w.room, w.same);
        roomy = w.valid.roomy;
      },
      front ∙ ap (λ q. p ∷ q) (ap (λ n. take n r.lst) refl ∙ w.kept),
    )

-- ivm_ptlist_pop takes the last element off a valid list; an empty list answers NULL and stays as
-- it is.
pub pop-items :
    (l : PtrList)
    → IsValid l
    → ((items l ≡ []) × (pop l ≡ some (0, l)))
      ⊎ ((p : ℕ) × (l' : PtrList) × (pop l ≡ some (p, l'))
          × IsValid l'
          × (items l ≡ items l' ++ p ∷ []))
unfolding pop take
pop-items l v = elim (Bool-cases (l.cur == 0)) [
  | inl empty ↦
      let none_left : l.cur ≡ 0 = ground arith in
      inl (rw (none_left, take) refl, ground (arith, empty))
  | inr more ↦
      let last : suc (l.cur - 1) ≡ l.cur = ground arith in
      let (p, e) = get_elem?_inside l.lst (l.cur - 1) (omega (arith, v.fits, v.sized)) in
      inr (
        p,
        record l { cur = l.cur - 1 },
        ground (arith, more, e),
        record { sized = v.sized; fits = omega (arith, v.fits); roomy = v.roomy },
        rw last at (take-suc (l.cur - 1) l.lst p e),
      )
]
