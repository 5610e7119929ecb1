-- ===== src/ListObj/Push.antt =====
-- vm/inline/listobj.h: pushing an element.
use ivm.Base.{
  ℕ, suc, ◌+◌, ◌*◌, ◌<◌, ◌≤◌, ◌≡◌, refl, ap, ◌∙◌, Bool, true, false, some, length, length-set,
  get_elem?-set, set, ltb, leb, ◌==◌, if◌then◌else◌, Bool-cases, inl, inr, ◌⊎◌, arith,
}
use ivm.Range.Ints.{pos}
use ivm.PtrList.{realloc, store}
use ivm.PtrList.Memory.{length-realloc, store_inside}
use ivm.ListObj.{ListObj, Vm, wb_obj, list_get, list_expand, list_push}
use ivm.ListObj.Index.{IsValid}
use ivm.ListObj.Write.{wb_obj-Marked, get_elem?-realloc}

-- The list after `obj` was pushed.
pub record Pushed (l : ListObj) (vm : Vm) (obj : ℕ) (l' : ListObj) : Type 0 where
  pub valid : IsValid l'
  pub size : l'.size ≡ suc l.size
  pub elements :
      (j : ℕ) → list_get l' (pos j) ≡ (if l.size == j then some obj else list_get l (pos j))
  pub marked : l.gen ≡ true → vm.obj_gen obj ≡ false → l'.wb ≡ true

-- The cells that a list without room for one more element and the next asks for.
abbrev pub next_alloc : ListObj → ℕ
next_alloc l = if l.alloc == 0 then 4 else l.alloc * 2

-- On a list `r` with the elements of `l` and room for one more.
pushed :
    (self : ℕ) (l r : ListObj) (vm : Vm) (obj : ℕ)
    → (obj == 0) ≡ false
    → IsValid r
    → r.size < r.alloc
    → r.size ≡ l.size
    → r.gen ≡ l.gen
    → ((j : ℕ) → list_get r (pos j) ≡ list_get l (pos j))
    → (l₂ : ListObj) × (vm₂ : Vm) × (wb_obj self r vm obj ≡ some (l₂, vm₂))
      × (store l₂.lst l₂.size obj ≡ some (set l₂.lst l₂.size obj))
      × (suc l₂.size ≡ suc l.size)
      × Pushed l vm obj (record l₂ { lst = set l₂.lst l₂.size obj; size = suc l₂.size })
unfolding list_get
pushed self l r vm obj there v room sized same_gen same =
    let (l₂, vm₂, run, m) = wb_obj-Marked self r vm obj there in
    let inside : r.size < length r.lst = omega (arith, v.sized) in
    let width = length-set r.lst r.size obj in
    (
      l₂,
      vm₂,
      run,
      rw (m.lst, m.size) (store_inside r.lst r.size obj inside),
      ap suc (m.size ∙ sized),
      record {
        valid = record {
          sized = rw (m.lst, m.size, m.alloc) (width ∙ v.sized);
          fits = rw (m.size, m.alloc) room;
        };
        size = ap suc (m.size ∙ sized);
        elements = λ j.
            rw (m.lst, m.size)
              (ground (arith, get_elem?-set r.lst r.size j obj inside, same j, sized));
        marked = λ old young. m.marked (same_gen ∙ old) young;
      },
    )

-- ivm_list_object_push of an object other than NULL, on a list whose elements lie in its memory,
-- ends inside the memory: either there is no room for two more, and more memory is not granted,
-- then it answers 0, no element changes, and the capacity stays, but becomes 2 where the list had
-- no memory; or it appends the object, answers the new size, keeps all other elements, and marks
-- the list if it is old and the object is young.
pub list_push-Pushed :
    (junk : ℕ → ℕ) (grants : ℕ → Bool) (self : ℕ) (l : ListObj) (vm : Vm) (obj : ℕ)
    → IsValid l
    → (obj == 0) ≡ false
    → ((l.alloc ≤ l.size + 1)
        × (grants (next_alloc l) ≡ false)
        × (list_push junk grants self l vm obj
            ≡ some (
              0,
              record l { alloc = if l.alloc == 0 then 2 else l.alloc },
              record vm { mem_error = true },
            )))
      ⊎ ((l' : ListObj) × (vm' : Vm) × (list_push junk grants self l vm obj
            ≡ some (suc l.size, l', vm'))
          × Pushed l vm obj l')
unfolding list_push list_expand list_get
list_push-Pushed junk grants self l vm obj v there = elim (Bool-cases (leb l.alloc (l.size + 1))) [
  | inr room ↦
      let (l₂, vm₂, told, stored, count, p) =
        pushed self l l vm obj there v (ground (arith, room)) refl refl (λ j. refl) in
      inr (
        record l₂ { lst = set l₂.lst l₂.size obj; size = suc l₂.size },
        vm₂,
        rw (list_push, room, told, stored)
            (ap (λ n. some (n, record l₂ { lst = set l₂.lst l₂.size obj; size = suc l₂.size }, vm₂))
              count),
        p,
      )
  | inl full ↦ elim (Bool-cases (grants (next_alloc l))) [
    | inr refused ↦
        inl (ground (arith, full), refused, rw (list_push, full, list_expand, refused) refl)
    | inl granted ↦
        let r = record l { alloc = next_alloc l; lst = realloc junk (next_alloc l) l.lst } in
        let (l₂, vm₂, told, stored, count, p) =
          pushed self l r vm obj there
            (record {
              sized = length-realloc junk (next_alloc l) l.lst;
              fits = ground (arith, v.fits);
            })
            (ground (arith, v.fits)) refl refl
            (λ j. elim (Bool-cases (ltb j l.size)) [
              | inl old ↦ rw old (
                  get_elem?-realloc junk (next_alloc l) j l.lst (ground (arith, old, v.fits))
                    (ground (arith, old, v.fits, v.sized)))
              | inr new ↦ rw new refl
            ]) in
        inr (
          record l₂ { lst = set l₂.lst l₂.size obj; size = suc l₂.size },
          vm₂,
          rw (list_push, full, list_expand, granted, told, stored)
              (ap
                (λ n. some (n, record l₂ { lst = set l₂.lst l₂.size obj; size = suc l₂.size }, vm₂))
                count),
          p,
        )
  ]
]
