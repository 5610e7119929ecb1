-- ===== src/Context.antt =====
-- vm/inline/context.h: the contexts that hold the variables of a function, from the innermost to
-- the global one. A context points to its slot table, which other contexts and objects may share:
-- the memory of slot tables is a function of their addresses. A chain of contexts (`prev`) is a list.
pub mod Search
pub mod Declare
use ivm.Base.{ℕ, Bool, true, false, Option, none, some, List, [], ◌∷◌, ◌==◌, if◌then◌else◌}
use ivm.Slot.{Str, SlotTable, State, get_value, init}
use ivm.Slot.Setters.{Outcome, set_slot, set_exist_slot}

-- ivm_context_t: of it the pointer to its slot table, none for NULL, and the generation.
pub record Context : Type 0 where
  pub slots : Option ℕ
  pub gen : Bool

-- The memory after a setter has changed the table at `a` in place.
unfoldable pub put : (ℕ → SlotTable) → ℕ → SlotTable → ℕ → SlotTable
put store a t b = if b == a then t else store b

-- ivm_context_getSlot
unfoldable pub context_get_slot : (ℕ → SlotTable) → Context → Str → Option ℕ
context_get_slot store ctx k = elim ctx.slots [ none ↦ none | some a ↦ get_value (store a) k ]

-- ivm_context_initSlots, where a new table would be allocated at `self`.
unfoldable pub init_slots :
    ℕ → (ℕ → SlotTable) → State → Context → Context × (ℕ → SlotTable) × State
init_slots self store st ctx = elim ctx.slots [
  | none ↦
      let (t, st') = init self 0 ctx.gen st in
      (record ctx { slots = some self }, put store self t, st')
  | some a ↦ (ctx, store, st)
]

-- The setter on the table of a context that has one.
unfoldable pub set_own :
    (ℕ → SlotTable) → State → Context → Str → Option ℕ → Option (Context × (ℕ → SlotTable) × State)
set_own store st ctx k obj = elim ctx.slots [
  | none ↦ none
  | some a ↦ elim (set_slot (store a) st k obj) [
    | none ↦ none
    | some o ↦ some (ctx, put store a o.table, o.state)
  ]
]

-- ivm_context_setSlot
unfoldable pub context_set_slot :
    ℕ
    → (ℕ → SlotTable)
    → State
    → Context
    → Str
    → Option ℕ
    → Option (Context × (ℕ → SlotTable) × State)
context_set_slot self store st ctx k obj =
    let (ctx', store', st') = init_slots self store st ctx in set_own store' st' ctx' k obj

-- ivm_context_setExistSlot
unfoldable pub context_set_exist_slot :
    (ℕ → SlotTable) → State → Context → Str → Option ℕ → Bool × (ℕ → SlotTable) × State
context_set_exist_slot store st ctx k obj = elim ctx.slots [
  | none ↦ (false, store, st)
  | some a ↦ let (done, t, st') = set_exist_slot (store a) st k obj in (done, put store a t, st')
]

-- ivm_context_search; the empty chain is the NULL behind the global context.
unfoldable pub search : (ℕ → SlotTable) → List Context → Str → Option ℕ
search store [] k = none
search store (ctx ∷ prev) k = elim (context_get_slot store ctx k) [
  | none ↦ search store prev k
  | some v ↦ some v
]

-- ivm_context_searchAndSetExistSlot
unfoldable pub search_and_set :
    (ℕ → SlotTable) → State → List Context → Str → Option ℕ → Bool × (ℕ → SlotTable) × State
search_and_set store st [] k obj = (false, store, st)
search_and_set store st (ctx ∷ prev) k obj =
    let (done, store', st') = context_set_exist_slot store st ctx k obj in
    elim done [ true ↦ (true, store', st') | false ↦ search_and_set store' st' prev k obj ]
