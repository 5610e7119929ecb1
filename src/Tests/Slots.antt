-- ===== src/Tests/Slots.antt =====
-- Slot tables at concrete names and objects.
use ivm.Base.{
  ℕ, ◌==◌, if◌then◌else◌, bit_or, set_bit, ◌≡◌, refl, Bool, true, false, none, some, [], ◌∷◌,
  or_else, arith,
}
use ivm.Slot.{Str, SlotTable, State, update_uid, init, get_value, get_slot}
use ivm.Slot.Setters.{Outcome, set_slot, set_empty_slot, merge}
use ivm.Slot.Caching.{InstrCache, get_slot_cc, set_slot_cc}
use ivm.Slot.Table.{IsValid, stored, init-IsValid}
use ivm.Slot.Set.{Sets, set_slot-Sets}
use ivm.Slot.Empty.{Completes, set_empty_slot-Completes}
use ivm.Slot.Merge.{merge-overwrites, merge-completes}
use ivm.Slot.Coherent.{IsCoherent, get_slot_cc-get_slot}
use ivm.Slot.Sharing.{copy_on_write, Writable, copy_on_write-Writable}
use ivm.Slot.Oops.{set_oop, get_oop, blocking, set_oop-get_oop}
use ivm.Slot.Cached.{Recached, set_slot_cc-Recached}

-- "x" and "y"
abbrev x : Str
x = 120 ∷ []

abbrev y : Str
y = 121 ∷ []

-- Every object is young.
abbrev state : State
state = record { st_uid = 7; wb_slot = []; obj_gen = λ _. false }

-- An old table, so that a setter writes through the barrier.
abbrev blank : SlotTable
blank = (init 64 0 true state).0

abbrev blank-IsValid : IsValid blank
blank-IsValid = (init-IsValid 64 0 true state).0

abbrev hashed : SlotTable
hashed = (init 128 9 false state).0

abbrev hashed-IsValid : IsValid hashed
hashed-IsValid = (init-IsValid 128 9 false state).0

abbrev filled : SlotTable
filled = (set_slot-Sets blank state x (some 40) blank-IsValid).0.table

abbrev filled-IsValid : IsValid filled
filled-IsValid = (set_slot-Sets blank state x (some 40) blank-IsValid).2.valid

abbrev stale : InstrCache
stale = record { cc_id = 0; cc_data = 0 }

set_slot-Sets_example :
    (o : Outcome) × (set_slot filled state y (some 41) ≡ some o) × Sets filled y (some 41) o.table
set_slot-Sets_example = set_slot-Sets filled state y (some 41) filled-IsValid

set_empty_slot-Completes_example :
    (r : Bool × SlotTable × State) × (set_empty_slot filled state x (some 42) ≡ some r)
    × Completes filled x (some 42) r
set_empty_slot-Completes_example = set_empty_slot-Completes filled state x (some 42) filled-IsValid

merge-overwrites_example :
    (u : SlotTable) × (st' : State) × (merge hashed state filled true ≡ some (u, st'))
    × IsValid u
    × ((q : Str)
        → get_value u q ≡ elim (stored filled q) [ none ↦ get_value hashed q | some v ↦ v ])
merge-overwrites_example = merge-overwrites hashed state filled hashed-IsValid filled-IsValid

merge-completes_example :
    (u : SlotTable) × (st' : State) × (merge hashed state filled false ≡ some (u, st'))
    × IsValid u
    × ((q : Str) → stored u q ≡ or_else (stored hashed q) (stored filled q))
merge-completes_example = merge-completes hashed state filled hashed-IsValid filled-IsValid

-- A cache that was never filled fits no table.
stale-IsCoherent : IsCoherent blank stale y
unfolding init update_uid
stale-IsCoherent e = absurd (omega arith)

set_slot_cc-Recached_example :
    (t' : SlotTable) × (st' : State) × (cc' : InstrCache) × (set_slot_cc blank state y
        (some 44)
        stale
      ≡ some (t', st', cc'))
    × Recached blank state y (some 44) t' cc'
set_slot_cc-Recached_example =
    set_slot_cc-Recached blank state y (some 44) stale blank-IsValid stale-IsCoherent (omega arith)

abbrev cached : SlotTable
cached =
    (set_slot_cc-Recached blank state y (some 44) stale blank-IsValid stale-IsCoherent
      (omega arith)).0

abbrev warm : InstrCache
warm =
    (set_slot_cc-Recached blank state y (some 44) stale blank-IsValid stale-IsCoherent
      (omega arith)).2

abbrev cached-Recached : Recached blank state y (some 44) cached warm
cached-Recached =
    (set_slot_cc-Recached blank state y (some 44) stale blank-IsValid stale-IsCoherent
      (omega arith)).4

get_slot_cc-get_slot_example :
    ((get_slot_cc cached y warm).0 ≡ get_slot cached y)
    × IsCoherent cached (get_slot_cc cached y warm).1 y
get_slot_cc-get_slot_example =
    get_slot_cc-get_slot cached y warm cached-Recached.sets.valid cached-Recached.own

abbrev shared : SlotTable
shared = record filled { is_shared = true }

copy_on_write-Writable_example : Writable 256 shared state (copy_on_write 256 shared state)
copy_on_write-Writable_example = copy_on_write-Writable 256 shared state (record {
  roomy = filled-IsValid.roomy;
  linear = filled-IsValid.linear;
  placed = filled-IsValid.placed;
})

-- Operators under symbols of one letter.
abbrev letter : ℕ → Str
letter op = op ∷ []

letter_differ : (a b : ℕ) → letter a ≡ letter b → a ≡ b
letter_differ a b e = ground (arith, e)

set_oop-get_oop_example :
    (t' : SlotTable) × (st' : State) × (set_oop letter filled state 43 (some 46) ≡ some (t', st'))
    × IsValid t'
    × ((a : ℕ)
        → get_oop letter t' a ≡ (if 43 == a then blocking (some 46) else get_oop letter filled a))
set_oop-get_oop_example =
    set_oop-get_oop letter filled state 43 (some 46) letter_differ filled-IsValid

-- `1 << 3` in a word
set_bit_or : set_bit 3 0b1010_0101 ≡ bit_or 0b1010_0101 8
unfolding set_bit
set_bit_or = refl
