-- ===== src/ListObj.antt =====
-- vm/listobj.h, vm/listobj.c and vm/inline/listobj.h: the list as an object (ivm_list_object_t). An
-- object is a number and NULL is 0; `lst` is the allocated memory. `grants` says which requests for
-- so many cells ivm_vmstate_reallocWild grants, `junk` what new memory holds. An access outside the
-- memory is none. The counter of wild memory is left out.
pub mod Index
pub mod Write
pub mod Push
pub mod Step
use ivm.Base.{
  ℕ, zero, suc, ◌+◌, ◌-◌, ◌*◌, ◌%◌, Bool, true, false, not, ◌&&◌, Option, none, some, List, [], ◌∷◌,
  ◌++◌, length, get_elem?, take, drop, ltb, leb, ◌==◌, if◌then◌else◌,
}
use ivm.Range.Ints.{ℤ, pos, negsuc}
use ivm.PtrList.{realloc, store, clear}

pub record ListObj : Type 0 where
  pub alloc : ℕ
  pub size : ℕ
  pub lst : List ℕ
  pub gen : Bool
  pub wb : Bool

-- What of the VM's state a list uses: the collector's list of objects behind the write barrier, the
-- generation of each object, and whether memory ran out.
pub record Vm : Type 0 where
  pub wb_obj : List ℕ
  pub obj_gen : ℕ → Bool
  pub mem_error : Bool

-- IVM_WBOBJ of the list at `self`; an old list must be given an object.
unfoldable pub wb_obj : ℕ → ListObj → Vm → ℕ → Option (ListObj × Vm)
wb_obj self l vm child =
    let told : ListObj × Vm =
      if l.wb then (l, vm) else (record l { wb = true }, record vm { wb_obj = self ∷ vm.wb_obj }) in
    if l.gen
    then (if child == 0 then none else some (if vm.obj_gen child then (l, vm) else told))
    else some (l, vm)

-- ivm_list_realIndex
unfoldable pub real_index : ℕ → ℤ → ℕ
real_index size (pos i) = i
real_index size (negsuc n) =
    if size == 0 then 0 else let i = suc n % size in if i == 0 then 0 else size - i

-- ivm_list_object_get
unfoldable pub list_get : ListObj → ℤ → Option ℕ
list_get l (pos i) = if ltb i l.size then get_elem? l.lst i else some 0
list_get l (negsuc n) =
    if l.size == 0
    then some 0
    else let i = suc n % l.size in
      if i == 0 then get_elem? l.lst 0 else get_elem? l.lst (l.size - i)

-- A number of 64 bits wraps around; so does the number of bytes of so many cells of 8 bytes.
abbrev pub as_size : ℕ → ℕ
as_size n = n % 18446744073709551616

abbrev pub as_cells : ℕ → ℕ
as_cells n = n % 2305843009213693952

-- STD_INIT of the cells between the old and the new size.
unfoldable pub init_cells : ℕ → ListObj → Vm → Option (Bool × ListObj × Vm)
init_cells osize l vm = elim (clear l.lst osize (as_cells (l.size - osize))) [
  | none ↦ none
  | some cells ↦ some (true, record l { lst = cells }, vm)
]

module _ (junk : ℕ → ℕ) (grants : ℕ → Bool) where
  -- _ivm_list_object_expand, with IVM_DEFAULT_LIST_OBJECT_BUFFER_SIZE.
  unfoldable pub list_expand : ListObj → Vm → Bool × ListObj × Vm
  list_expand l vm =
      let alloc = if l.alloc == 0 then 4 else l.alloc * 2 in
      if grants alloc
      then (true, record l { alloc = alloc; lst = realloc junk alloc l.lst }, vm)
      else (
        false,
        record l { alloc = if l.alloc == 0 then 2 else l.alloc },
        record vm { mem_error = true },
      )

  -- ivm_list_object_push: the new size, 0 if there is no memory.
  unfoldable pub list_push : ℕ → ListObj → Vm → ℕ → Option (ℕ × ListObj × Vm)
  list_push self l vm obj =
      let (granted, l₁, vm₁) =
        if leb l.alloc (l.size + 1) then list_expand l vm else (true, l, vm) in
      if granted
      then elim (wb_obj self l₁ vm₁ obj) [
        | none ↦ none
        | some (l₂, vm₂) ↦ elim (store l₂.lst l₂.size obj) [
          | none ↦ none
          | some cells ↦ some (suc l₂.size, record l₂ { lst = cells; size = suc l₂.size }, vm₂)
        ]
      ]
      else some (0, l₁, vm₁)

  -- _ivm_list_object_expandTo
  unfoldable pub list_expand_to : ListObj → Vm → ℕ → Option (Bool × ListObj × Vm)
  list_expand_to l vm size =
      if leb size l.size
      then some (true, record l { size = size }, vm)
      else if leb size l.alloc
      then init_cells l.size (record l { size = size }) vm
      else if grants (as_cells (as_size (size * 2)))
      then init_cells l.size
          (record l {
            alloc = as_size (size * 2);
            size = size;
            lst = realloc junk (as_cells (as_size (size * 2))) l.lst;
          })
          vm
      else some (false, l, record vm { mem_error = true })

  -- ivm_list_object_set; `none_obj` is IVM_NONE, and NULL is the answer if there is no memory.
  unfoldable pub list_set : ℕ → ℕ → ListObj → Vm → ℕ → ℕ → Option (ℕ × ListObj × Vm)
  list_set none_obj self l vm i obj =
      elim (if leb l.size i then list_expand_to l vm (as_size (i + 1)) else some (true, l, vm)) [
        | none ↦ none
        | some (granted, l₁, vm₁) ↦
            if granted
            then elim (if obj == 0 then some (l₁, vm₁) else wb_obj self l₁ vm₁ obj) [
              | none ↦ none
              | some (l₂, vm₂) ↦ elim (store l₂.lst i obj) [
                | none ↦ none
                | some cells ↦
                    some (if obj == 0 then none_obj else obj, record l₂ { lst = cells }, vm₂)
              ]
            ]
            else some (0, l₁, vm₁)
      ]

-- ivm_list_object_pop
unfoldable pub list_pop : ListObj → Option (ℕ × ListObj)
list_pop l = if l.size == 0 then some (0, l) else elim (get_elem? l.lst (l.size - 1)) [
  | none ↦ none
  | some obj ↦ some (obj, record l { size = l.size - 1 })
]

-- ivm_list_object_iter_next of an iterator at `cur`.
unfoldable pub list_iter_next : ℕ → ListObj → ℕ → Option (ℕ × ℕ)
list_iter_next none_obj l cur =
    if leb l.size cur then some (0, cur) else elim (get_elem? l.lst cur) [
      | none ↦ none
      | some obj ↦ some (if obj == 0 then none_obj else obj, suc cur)
    ]

-- The loop of ivm_list_object_step.
unfoldable pub step_loop : ℕ → ℕ → ℕ → ℕ → ℕ → List ℕ → Option (ℕ × List ℕ)
step_loop zero step size i j lst = none
step_loop (suc fuel) step size i j lst = elim (ltb j size) [
  | false ↦ some (i, lst)
  | true ↦ elim (get_elem? lst j) [
    | none ↦ none
    | some obj ↦ elim (store lst i obj) [
      | none ↦ none
      | some lst' ↦ step_loop fuel step size (suc i) (j + step) lst'
    ]
  ]
]

-- ivm_list_object_step; none is the failure of its assertion.
unfoldable pub list_step : ListObj → ℕ → Option ListObj
list_step l step =
    if step == 0
    then none
    else if step == 1
    then some l
    else elim (step_loop (suc l.size) step l.size 0 0 l.lst) [
      | none ↦ none
      | some (size, lst) ↦ some (record l { size = size; lst = lst })
    ]
