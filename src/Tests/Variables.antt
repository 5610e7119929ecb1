-- ===== src/Tests/Variables.antt =====
-- A chain of three contexts, the innermost without a slot table.
use ivm.Base.{arith, ℕ, zero, suc, true, false, none, some, List, [], ◌∷◌, ◌≡◌, ◌⊎◌}
use ivm.Slot.{Str, SlotTable, State, init}
use ivm.Slot.Table.{IsValid, init-IsValid}
use ivm.Slot.Set.{set_slot-Sets}
use ivm.Context.{Context, context_set_slot, search, search_and_set}
use ivm.Context.Declare.{IsUnused, Declared, context_set_slot-Declared}
use ivm.Context.Search.{IsValidChain, Assigned, search_and_set-Assigned}

abbrev state : State
state = record { st_uid = 7; wb_slot = []; obj_gen = λ _. false }

-- "x"
abbrev x : Str
x = 120 ∷ []

abbrev blank : SlotTable
blank = (init 64 0 true state).0

abbrev bound : SlotTable
bound = (set_slot-Sets blank state x (some 40) (init-IsValid 64 0 true state).0).0.table

abbrev tables : ℕ → SlotTable
tables zero = blank
tables (suc zero) = blank
tables (suc (suc a)) = bound

abbrev chain : List Context
chain =
    record { slots = none; gen = false }
    ∷ record { slots = some 1; gen = false }
    ∷ record { slots = some 2; gen = true }
    ∷ []

tables-IsValid : (a : ℕ) → IsValid (tables a)
tables-IsValid zero = (init-IsValid 64 0 true state).0
tables-IsValid (suc zero) = (init-IsValid 64 0 true state).0
tables-IsValid (suc (suc a)) =
    (set_slot-Sets blank state x (some 40) (init-IsValid 64 0 true state).0).2.valid

chain-IsValid : IsValidChain tables chain
unfolding IsValidChain
chain-IsValid j ctx a e at = tables-IsValid a

search_and_set-Assigned_example :
    ((store' : ℕ → SlotTable) × (st' : State) × (o : ℕ) × (search tables chain x ≡ some o)
      × (search_and_set tables state chain x (some 41) ≡ (true, store', st'))
      × Assigned tables chain x 41 store')
    ⊎ ((search tables chain x ≡ none)
        × (search_and_set tables state chain x (some 41) ≡ (false, tables, state)))
search_and_set-Assigned_example = search_and_set-Assigned tables state chain x 41 chain-IsValid

chain-IsUnused :
    IsUnused 3 (record { slots = some 1; gen = false } ∷ record { slots = some 2; gen = true } ∷ [])
unfolding IsUnused
chain-IsUnused zero ctx a e here = ground (arith, e, here)
chain-IsUnused (suc zero) ctx a e here = ground (arith, e, here)
chain-IsUnused (suc (suc j)) ctx a e here = ground (arith, e, here)

context_set_slot-Declared_example :
    (ctx' : Context) × (store' : ℕ → SlotTable) × (st' : State) × (context_set_slot 3 tables state
        (record { slots = none; gen = false })
        x
        (some 41)
      ≡ some (ctx', store', st'))
    × Declared tables
        (record { slots = none; gen = false })
        (record { slots = some 1; gen = false } ∷ record { slots = some 2; gen = true } ∷ [])
        x
        41
        ctx'
        store'
context_set_slot-Declared_example =
    context_set_slot-Declared 3 tables state (record { slots = none; gen = false })
      (record { slots = some 1; gen = false } ∷ record { slots = some 2; gen = true } ∷ []) x 41
      chain-IsValid chain-IsUnused
