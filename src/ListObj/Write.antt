-- ===== src/ListObj/Write.antt =====
-- vm/inline/listobj.h: what setting an element of a list does.
use ivm.Base.{
  ℕ, zero, suc, ◌+◌, ◌-◌, ◌*◌, ◌<◌, ◌≡◌, refl, ap, ◌∙◌, Bool, true, false, some, List, [], ◌∷◌,
  length, length-set, get_elem?, get_elem?-set, set, ltb, leb, ◌==◌, if◌then◌else◌, Bool-cases, inl,
  inr, ◌⊎◌, arith,
}
use ivm.Range.Ints.{pos}
use ivm.PtrList.{realloc, store, clear}
use ivm.PtrList.Memory.{length-realloc, store_inside}
use ivm.PtrList.Insert.{clear-cells}
use ivm.ListObj.{
  ListObj, Vm, as_size, as_cells, wb_obj, list_get, init_cells, list_expand_to, list_set,
}
use ivm.ListObj.Index.{IsValid}

-- The write barrier changes nothing but the mark, which an old list with a young object has.
pub record Marked (l l' : ListObj) (vm : Vm) (child : ℕ) : Type 0 where
  pub alloc : l'.alloc ≡ l.alloc
  pub size : l'.size ≡ l.size
  pub lst : l'.lst ≡ l.lst
  pub gen : l'.gen ≡ l.gen
  pub marked : l.gen ≡ true → vm.obj_gen child ≡ false → l'.wb ≡ true

pub wb_obj-Marked :
    (self : ℕ) (l : ListObj) (vm : Vm) (child : ℕ)
    → (child == 0) ≡ false
    → (l' : ListObj) × (vm' : Vm) × (wb_obj self l vm child ≡ some (l', vm')) × Marked l l' vm child
unfolding wb_obj
wb_obj-Marked self l vm child there = elim (Bool-cases l.gen) [
  | inr young ↦ (
    l,
    vm,
    rw (wb_obj, young) refl,
    record {
      alloc = refl;
      size = refl;
      lst = refl;
      gen = refl;
      marked = λ old y. ground (arith, young, old);
    },
  )
  | inl old ↦ elim (Bool-cases (vm.obj_gen child)) [
    | inl grown ↦ (
      l,
      vm,
      rw (wb_obj, old, there, grown) refl,
      record {
        alloc = refl;
        size = refl;
        lst = refl;
        gen = refl;
        marked = λ o y. ground (arith, grown, y);
      },
    )
    | inr young ↦ elim (Bool-cases l.wb) [
      | inl marked ↦ (
        l,
        vm,
        rw (wb_obj, old, there, young, marked) refl,
        record { alloc = refl; size = refl; lst = refl; gen = refl; marked = λ o y. marked },
      )
      | inr clean ↦ (
        record l { wb = true },
        record vm { wb_obj = self ∷ vm.wb_obj },
        rw (wb_obj, old, there, young, clean) refl,
        record { alloc = refl; size = refl; lst = refl; gen = refl; marked = λ o y. refl },
      )
    ]
  ]
]

pub get_elem?-realloc :
    (junk : ℕ → ℕ) (n j : ℕ) (cells : List ℕ)
    → j < n
    → j < length cells
    → get_elem? (realloc junk n cells) j ≡ get_elem? cells j
unfolding realloc
get_elem?-realloc junk zero j cells h k = absurd (omega arith)
get_elem?-realloc junk (suc n) j [] h k = absurd (omega arith)
get_elem?-realloc junk (suc n) zero (c ∷ cells) h k = refl
get_elem?-realloc junk (suc n) (suc j) (c ∷ cells) h k =
    get_elem?-realloc junk n j cells (omega arith) (omega arith)

-- A list of fewer cells can be doubled without a wrap of its number of bytes.
abbrev pub max_cells : ℕ
max_cells = 1152921504606846976

-- A list with the elements of `l` and NULL behind them up to `size`.
record Extended (l l' : ListObj) (size : ℕ) : Type 0 where
  valid : IsValid l'
  sized : l'.size ≡ size
  gen : l'.gen ≡ l.gen
  cells :
      (j : ℕ) → j < size → get_elem? l'.lst j ≡ (if ltb j l.size then get_elem? l.lst j else some 0)

init_cells-Extended :
    (l r : ListObj) (vm : Vm)
    → IsValid r
    → l.size < r.size
    → r.size < max_cells
    → r.gen ≡ l.gen
    → ((j : ℕ) → j < l.size → get_elem? r.lst j ≡ get_elem? l.lst j)
    → (l' : ListObj) × (init_cells l.size r vm ≡ some (true, l', vm)) × Extended l l' r.size
unfolding init_cells
init_cells-Extended l r vm v more less gen old =
    let whole : as_cells (r.size - l.size) ≡ r.size - l.size = omega (arith, less) in
    let (c, run, width, get) =
      clear-cells (r.size - l.size) l.size r.lst (omega (arith, v.fits, v.sized)) in
    let clears : clear r.lst l.size (as_cells (r.size - l.size)) ≡ some c =
      ap (clear r.lst l.size) whole ∙ run in
    (
      record r { lst = c },
      rw (init_cells, clears) refl,
      record {
        valid = record { sized = width ∙ v.sized; fits = v.fits };
        sized = refl;
        gen = gen;
        cells = λ j h. ground (arith, get j, old j);
      },
    )

expand_grows :
    (junk : ℕ → ℕ) (grants : ℕ → Bool) (l : ListObj) (vm : Vm) (size : ℕ)
    → size < max_cells
    → leb size l.size ≡ false
    → leb size l.alloc ≡ false
    → grants (size * 2) ≡ true
    → list_expand_to junk grants l vm size
      ≡ init_cells l.size
          (record l { alloc = size * 2; size = size; lst = realloc junk (size * 2) l.lst })
          vm
unfolding list_expand_to
expand_grows junk grants l vm size less larger full granted =
    let asked : as_size (size * 2) ≡ size * 2 = omega (arith, less) in
    let cells : as_cells (size * 2) ≡ size * 2 = omega (arith, less) in
    rw (larger, full, asked, cells, granted) refl

list_expand_to-Extended :
    (junk : ℕ → ℕ) (grants : ℕ → Bool) (l : ListObj) (vm : Vm) (size : ℕ)
    → IsValid l
    → l.size < size
    → size < max_cells
    → ((l.alloc < size)
        × (grants (size * 2) ≡ false)
        × (list_expand_to junk grants l vm size ≡ some (false, l, record vm { mem_error = true })))
      ⊎ ((l' : ListObj) × (list_expand_to junk grants l vm size ≡ some (true, l', vm))
          × Extended l l' size)
unfolding list_expand_to
list_expand_to-Extended junk grants l vm size v more less =
    let asked : as_size (size * 2) ≡ size * 2 = omega (arith, less) in
    let cells : as_cells (size * 2) ≡ size * 2 = omega (arith, less) in
    let larger : leb size l.size ≡ false = ground arith in
    elim (Bool-cases (leb size l.alloc)) [
      | inl room ↦
          let (l', run, x) =
            init_cells-Extended l (record l { size = size }) vm
              (record { sized = v.sized; fits = ground (arith, room) }) more less refl
              (λ j h. refl) in
          inr (l', rw (larger, room) run, x)
      | inr full ↦ elim (Bool-cases (grants (size * 2))) [
        | inl granted ↦
            let r = record l {
              alloc = size * 2;
              size = size;
              lst = realloc junk (size * 2) l.lst;
            } in
            let (l', run, x) =
              init_cells-Extended l r vm
                (record { sized = length-realloc junk (size * 2) l.lst; fits = omega arith }) more
                less refl
                (λ j h.
                  get_elem?-realloc junk (size * 2) j l.lst (omega arith)
                    (omega (arith, v.sized, v.fits))) in
            inr (l', expand_grows junk grants l vm size less larger full granted ∙ run, x)
        | inr refused ↦
            inl (ground (arith, full), refused, rw (larger, full, asked, cells, refused) refl)
      ]
    ]

-- The list after the element at `i` was set to `obj`.
pub record Assigned (l : ListObj) (vm : Vm) (i obj : ℕ) (l' : ListObj) : Type 0 where
  pub valid : IsValid l'
  pub size : l'.size ≡ (if ltb i l.size then l.size else i + 1)
  pub elements : (j : ℕ) → list_get l' (pos j) ≡ (if i == j then some obj else list_get l (pos j))
  pub marked : (obj == 0) ≡ false → l.gen ≡ true → vm.obj_gen obj ≡ false → l'.wb ≡ true

barrier :
    (self : ℕ) (l : ListObj) (vm : Vm) (obj : ℕ)
    → (l' : ListObj) × (vm' : Vm) × ((if obj == 0 then some (l, vm) else wb_obj self l vm obj)
        ≡ some (l', vm'))
      × (l'.alloc ≡ l.alloc)
      × (l'.size ≡ l.size)
      × (l'.lst ≡ l.lst)
      × (l'.gen ≡ l.gen)
      × ((obj == 0) ≡ false → l.gen ≡ true → vm.obj_gen obj ≡ false → l'.wb ≡ true)
barrier self l vm obj = elim (Bool-cases (obj == 0)) [
  | inl null ↦
      (l, vm, rw null refl, refl, refl, refl, refl, λ there old young. ground (arith, there, null))
  | inr there ↦
      let (l', vm', run, m) = wb_obj-Marked self l vm obj there in
      (l', vm', rw there run, m.alloc, m.size, m.lst, m.gen, λ _ old young. m.marked old young)
]

-- The barrier and the write, on a list `r` that has the elements of `l` and room for the index.
written :
    (self : ℕ) (l r : ListObj) (vm : Vm) (i obj : ℕ)
    → IsValid r
    → i < r.size
    → r.gen ≡ l.gen
    → r.size ≡ (if ltb i l.size then l.size else i + 1)
    → ((j : ℕ) → list_get r (pos j) ≡ list_get l (pos j))
    → (l₂ : ListObj) × (vm₂ : Vm) × ((if obj == 0 then some (r, vm) else wb_obj self r vm obj)
        ≡ some (l₂, vm₂))
      × (store l₂.lst i obj ≡ some (set l₂.lst i obj))
      × Assigned l vm i obj (record l₂ { lst = set l₂.lst i obj })
unfolding list_get
written self l r vm i obj v inside same_gen sized same =
    let (l₂, vm₂, run, alloc, size, lst, gen, marked) = barrier self r vm obj in
    let room : i < length r.lst = omega (arith, v.sized, v.fits) in
    let width = length-set r.lst i obj in
    (
      l₂,
      vm₂,
      run,
      rw lst (store_inside r.lst i obj room),
      record {
        valid = record {
          sized = rw (lst, alloc) (width ∙ v.sized);
          fits = rw (size, alloc) v.fits;
        };
        size = size ∙ sized;
        elements = λ j. rw (lst, size) (ground (arith, get_elem?-set r.lst i j obj room, same j));
        marked = λ there old young. marked there (same_gen ∙ old) young;
      },
    )

-- ivm_list_object_set of an index below 2^60 - 1 on a list whose elements lie in its memory ends
-- inside the memory: either more memory is needed and not granted, then it answers NULL and
-- nothing but the error flag changes; or the index reads as the object afterwards, all others as
-- before, NULL between the old end and the index; the list is as long as needed, its elements lie
-- in its memory, and it is marked if it is old and the object is young.
pub list_set-Assigned :
    (junk : ℕ → ℕ) (grants : ℕ → Bool) (none_obj self : ℕ) (l : ListObj) (vm : Vm) (i obj : ℕ)
    → IsValid l
    → i + 1 < max_cells
    → ((l.alloc < i + 1)
        × (grants ((i + 1) * 2) ≡ false)
        × (list_set junk grants none_obj self l vm i obj
            ≡ some (0, l, record vm { mem_error = true })))
      ⊎ ((l' : ListObj) × (vm' : Vm) × (list_set junk grants none_obj self l vm i obj
            ≡ some (if obj == 0 then none_obj else obj, l', vm'))
          × Assigned l vm i obj l')
unfolding list_set list_get
list_set-Assigned junk grants none_obj self l vm i obj v less = elim (Bool-cases (leb l.size i)) [
  | inr inside ↦
      let low : ltb i l.size ≡ true = ground (arith, inside) in
      let (l₂, vm₂, run, stored, a) =
        written self l l vm i obj v (ground (arith, inside)) refl (rw low refl) (λ j. refl) in
      inr (record l₂ { lst = set l₂.lst i obj }, vm₂, rw (list_set, inside, run, stored) refl, a)
  | inl beyond ↦
      let next : as_size (i + 1) ≡ i + 1 = omega (arith, less) in
      let high : ltb i l.size ≡ false = ground (arith, beyond) in
      elim (list_expand_to-Extended junk grants l vm (i + 1) v (ground (arith, beyond)) less) [
        | inl (full, refused, run) ↦ inl (
          full,
          refused,
          rw (list_set, beyond, ap (list_expand_to junk grants l vm) next ∙ run) refl,
        )
        | inr (r, run, x) ↦
            let expands = ap (list_expand_to junk grants l vm) next ∙ run in
            let same : (j : ℕ) → list_get r (pos j) ≡ list_get l (pos j) =
              λ j. ground (arith, x.sized, x.cells j, beyond) in
            let (l₂, vm₂, told, stored, a) =
              written self l r vm i obj x.valid (omega (arith, x.sized)) x.gen (rw high x.sized)
                same in
            inr (
              record l₂ { lst = set l₂.lst i obj },
              vm₂,
              rw (list_set, beyond, expands, told, stored) refl,
              a,
            )
      ]
]
