-- ===== src/Slot/Setters.antt =====
-- vm/inline/slot.h and vm/vm.h: the macros SET_SLOT and SET_EMPTY_SLOT, the write barrier before
-- them, and ivm_slot_table_merge (vm/slot.c).
use ivm.Base.{
  ℕ, zero, suc, ◌+◌, Bool, true, false, not, ◌&&◌, Option, none, some, List, [], ◌∷◌, ◌++◌, length,
  set, if◌then◌else◌,
}
use ivm.Probe.{Cell, key_at, is_empty_at}
use ivm.Slot.{Str, SlotTable, State, find_slot, get_slot, expand, expand_to}

-- IVM_WBSLOT
unfoldable pub wb_slot : SlotTable → State → Option ℕ → SlotTable × State
wb_slot t st none = (t, st)
wb_slot t st (some obj) =
    if t.gen && not (st.obj_gen obj)
    then (if t.wb
        then (t, st)
        else (record t { wb = true }, record st { wb_slot = st.wb_slot ++ t.self ∷ [] }))
    else (t, st)

-- `i->k = key; i->v = obj;`
unfoldable pub write_slot : SlotTable → ℕ → Str → Option ℕ → SlotTable
write_slot t i k obj = record t { tabl = set t.tabl i (record { k = some k; v = obj }) }

-- The end of a setter: the table, the state, and the slot that `set_cc` would cache.
pub record Outcome : Type 0 where
  pub table : SlotTable
  pub state : State
  pub slot : Option ℕ

-- What SET_SLOT does at the cell that its loops stop at.
unfoldable pub store_at : SlotTable → State → ℕ → Str → Option ℕ → Outcome
store_at t st i k obj =
    let stored : Outcome = record { table = write_slot t i k obj; state = st; slot = some i } in
    if is_empty_at (key_at t.tabl) i
    then elim obj [ none ↦ record { table = t; state = st; slot = none } | some _ ↦ stored ]
    else stored

-- `!obj`
abbrev pub is_null : Option ℕ → Bool
is_null none = true
is_null (some _) = false

-- `while (1)` of SET_SLOT, over a hash table; none is a fatal error or fuel that ran out.
unfoldable pub set_loop : ℕ → SlotTable → State → Str → Option ℕ → Option Outcome
set_loop zero t st k obj = none
set_loop (suc fuel) t st k obj = elim (find_slot t k) [
  | some i ↦ some (store_at t st i k obj)
  | none ↦
      let grown = elim (expand t st) as (λ _. Option Outcome) [
        | none ↦ none
        | some (_, t', st') ↦ set_loop fuel t' st' k obj
      ] in
      if is_null obj then some (record { table = t; state = st; slot = none }) else grown
]

-- SET_SLOT after its write barrier and its cache check.
unfoldable pub set_body : SlotTable → State → Str → Option ℕ → Option Outcome
set_body t st k obj = if t.is_hash then set_loop 2 t st k obj else elim (find_slot t k) [
  | some i ↦ some (store_at t st i k obj)
  | none ↦ elim (expand t st) [
    | none ↦ none
    | some (changed, t', st') ↦
        if changed
        then set_loop 2 t' st' k obj
        else some (record {
          table = write_slot t' (length t.tabl) k obj;
          state = st';
          slot = some (length t.tabl);
        })
  ]
]

-- ivm_slot_table_setSlot
unfoldable pub set_slot : SlotTable → State → Str → Option ℕ → Option Outcome
set_slot t st k obj = let (t₁, st₁) = wb_slot t st obj in set_body t₁ st₁ k obj

-- SET_EMPTY_SLOT (ivm_slot_table_setEmptySlot): is the slot new, and the table.
unfoldable pub set_empty_at : SlotTable → State → ℕ → Str → Option ℕ → Bool × SlotTable × State
set_empty_at t st i k obj =
    if is_empty_at (key_at t.tabl) i then (true, write_slot t i k obj, st) else (false, t, st)

unfoldable pub set_empty_loop :
    ℕ → SlotTable → State → Str → Option ℕ → Option (Bool × SlotTable × State)
set_empty_loop zero t st k obj = none
set_empty_loop (suc fuel) t st k obj = elim (find_slot t k) [
  | some i ↦ some (set_empty_at t st i k obj)
  | none ↦ elim (expand t st) [ none ↦ none | some (_, t', st') ↦ set_empty_loop fuel t' st' k obj ]
]

unfoldable pub set_empty_slot :
    SlotTable → State → Str → Option ℕ → Option (Bool × SlotTable × State)
set_empty_slot t st k obj =
    let (t₁, st₁) = wb_slot t st obj in
    if t₁.is_hash then set_empty_loop 2 t₁ st₁ k obj else elim (find_slot t₁ k) [
      | some i ↦ some (set_empty_at t₁ st₁ i k obj)
      | none ↦ elim (expand t₁ st₁) [
        | none ↦ none
        | some (changed, t', st') ↦
            if changed
            then set_empty_loop 2 t' st' k obj
            else some (true, write_slot t' (length t₁.tabl) k obj, st')
      ]
    ]

-- ivm_slot_table_setExistSlot
unfoldable pub set_exist_slot : SlotTable → State → Str → Option ℕ → Bool × SlotTable × State
set_exist_slot t st k obj = elim (get_slot t k) [
  | none ↦ (false, t, st)
  | some i ↦ let (t₁, st₁) = wb_slot t st obj in (true, write_slot t₁ i k obj, st₁)
]

-- What the loop of ivm_slot_table_merge does with a slot that is not empty.
unfoldable pub merge_slot : Bool → SlotTable → State → Str → Option ℕ → Option (SlotTable × State)
merge_slot true t st k v = elim (set_slot t st k v) [
  | none ↦ none
  | some o ↦ some (o.table, o.state)
]
merge_slot false t st k v = elim (set_empty_slot t st k v) [
  | none ↦ none
  | some (_, t', st') ↦ some (t', st')
]

unfoldable pub merge_cells :
    Bool → List (Cell Str (Option ℕ)) → SlotTable → State → Option (SlotTable × State)
merge_cells overw [] t st = some (t, st)
merge_cells overw (c ∷ cells) t st = elim c.k [
  | none ↦ merge_cells overw cells t st
  | some k ↦ elim (merge_slot overw t st k c.v) [
    | none ↦ none
    | some (t', st') ↦ merge_cells overw cells t' st'
  ]
]

-- ivm_slot_table_merge
unfoldable pub merge : SlotTable → State → SlotTable → Bool → Option (SlotTable × State)
merge ta st tb overw = elim (expand_to ta st (length ta.tabl + length tb.tabl)) [
  | none ↦ none
  | some (t, st') ↦ merge_cells overw tb.tabl t st'
]
