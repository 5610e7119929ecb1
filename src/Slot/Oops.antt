-- ===== src/Slot/Oops.antt =====
-- ivm_slot_table_setOop and ivm_slot_table_getOop (vm/slot.c): operators that a program overloads
-- are slots, under the symbol of the operator; a table also notes that it blocks the builtin one.
use ivm.Base.{
  ℕ, ◌≡◌, refl, Option, none, some, if◌then◌else◌, ◌==◌, has_bit, set_bit, has_bit-set_bit, ◌∙◌, ap,
  Bool-cases, Option-cases, inl, inr, arith,
}
use native.Mathlib.Decide.{ℕ_discrete}
use ivm.Slot.{
  Str, string_compare, string_compare_iff, SlotTable, State, find_slot, object_at, get_slot,
  get_value,
}
use ivm.Slot.Setters.{Outcome, set_slot}
use ivm.Slot.Table.{IsValid}
use ivm.Slot.Set.{Sets, set_slot-Sets}

-- The answer of ivm_slot_table_getOop: an object, IVM_OOP_BLOCK, or NULL.
pub data Oop : Type 0 where
  oop : ℕ → Oop
  oop_block : Oop
  no_oop : Oop

-- ivm_slot_table_setOop; `symbol` reads the pool of operator symbols (ivm_vmstate_getOopSymbol).
unfoldable pub set_oop : (ℕ → Str) → SlotTable → State → ℕ → Option ℕ → Option (SlotTable × State)
set_oop symbol t st op func = elim (set_slot t st (symbol op) func) [
  | none ↦ none
  | some o ↦ some (record o.table { block_oop = set_bit op o.table.block_oop }, o.state)
]

-- ivm_slot_table_getOop
unfoldable pub get_oop : (ℕ → Str) → SlotTable → ℕ → Oop
get_oop symbol t op = elim (get_value t (symbol op)) [
  | some func ↦ oop func
  | none ↦ if has_bit op t.block_oop then oop_block else no_oop
]

-- What is read of an operator whose slot was set to `func`.
abbrev pub blocking : Option ℕ → Oop
blocking none = oop_block
blocking (some func) = oop func

get_value_blocked :
    (t : SlotTable) (b : ℕ) (q : Str) → get_value (record t { block_oop = b }) q ≡ get_value t q
unfolding get_value get_slot find_slot object_at
get_value_blocked t b q = refl

-- If operators have different symbols, ivm_slot_table_setOop on a valid table ends, and the
-- operator then reads as the given function, or as blocked if that is NULL, by
-- ivm_slot_table_getOop; all other operators read as before.
pub set_oop-get_oop :
    (symbol : ℕ → Str) (t : SlotTable) (st : State) (op : ℕ) (func : Option ℕ)
    → ((a b : ℕ) → symbol a ≡ symbol b → a ≡ b)
    → IsValid t
    → (t' : SlotTable) × (st' : State) × (set_oop symbol t st op func ≡ some (t', st'))
      × IsValid t'
      × ((a : ℕ) → get_oop symbol t' a ≡ (if op == a then blocking func else get_oop symbol t a))
unfolding set_oop get_oop
set_oop-get_oop symbol t st op func differ v =
    let (o, run, s) = set_slot-Sets t st (symbol op) func v in
    (
      record o.table { block_oop = set_bit op o.table.block_oop },
      o.state,
      ground (arith, run),
      record { roomy = s.valid.roomy; linear = s.valid.linear; placed = s.valid.placed },
      λ a. oops_read a o s,
    )
  where
    oops_read :
        (a : ℕ) (o : Outcome)
        → Sets t (symbol op) func o.table
        → get_oop symbol (record o.table { block_oop = set_bit op o.table.block_oop }) a
          ≡ (if op == a then blocking func else get_oop symbol t a)
    oops_read a o s =
        let bits = has_bit-set_bit a op o.table.block_oop in
        let value =
          get_value_blocked o.table (set_bit op o.table.block_oop) (symbol a)
          ∙ s.reads (symbol a) in
        elim (ℕ_discrete op a) [
          | yes same ↦
              let equal = (string_compare_iff (symbol op) (symbol a)).1 (ap symbol same) in
              elim (Option-cases func) [
                | inl null ↦ ground (arith, bits, value, equal, null)
                | inr (f, given) ↦ ground (arith, value, equal, given)
              ]
          | no other ↦ elim (Bool-cases (string_compare (symbol op) (symbol a))) [
            | inl equal ↦
                absurd (other (differ op a ((string_compare_iff (symbol op) (symbol a)).0 equal)))
            | inr unlike ↦ ground (arith, bits, value, s.block)
          ]
        ]
