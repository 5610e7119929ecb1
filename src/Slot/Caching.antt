-- ===== src/Slot/Caching.antt =====
-- vm/instr.h, vm/slot.h and vm/inline/slot.h: the inline cache of an instruction, and the getter
-- and the setter that use it.
use ivm.Base.{ℕ, Bool, true, false, Option, none, some, ◌==◌, if◌then◌else◌}
use ivm.Probe.{key_at}
use ivm.Slot.{Str, SlotTable, State, object_at, get_slot}
use ivm.Slot.Setters.{wb_slot, write_slot, set_body}

-- ivm_instr_t's inline cache: the id of a table and the index of a slot in that table.
pub record InstrCache : Type 0 where
  pub cc_id : ℕ
  pub cc_data : ℕ

-- ivm_slot_table_checkCacheValid
unfoldable pub check_cache_valid : SlotTable → InstrCache → Bool
check_cache_valid t cc = cc.cc_id == t.uid

-- GET_SLOT with its cache (ivm_slot_table_getSlot_cc).
unfoldable pub get_slot_cc : SlotTable → Str → InstrCache → Option ℕ × InstrCache
get_slot_cc t k cc =
    let looked : Option ℕ × InstrCache = elim (get_slot t k) [
      | none ↦ (none, cc)
      | some i ↦ (some i, record { cc_id = t.uid; cc_data = i })
    ] in
    if check_cache_valid t cc
    then (elim (object_at t cc.cc_data) [ none ↦ none | some _ ↦ some cc.cc_data ], cc)
    else looked

-- `((ivm_slot_t *)cc_data)->v = value`
unfoldable pub set_value_at : SlotTable → ℕ → Option ℕ → SlotTable
set_value_at t i obj = elim (key_at t.tabl i) [ none ↦ t | some k ↦ write_slot t i k obj ]

-- SET_SLOT with its cache, after the write barrier.
unfoldable pub set_body_cc :
    SlotTable → State → Str → Option ℕ → InstrCache → Option (SlotTable × State × InstrCache)
set_body_cc t st k obj cc =
    if check_cache_valid t cc
    then some (set_value_at t cc.cc_data obj, st, cc)
    else elim (set_body t st k obj) [
      | none ↦ none
      | some o ↦ some (
        o.table,
        o.state,
        elim o.slot [ none ↦ cc | some i ↦ record { cc_id = o.table.uid; cc_data = i } ],
      )
    ]

-- ivm_slot_table_setSlot_cc
unfoldable pub set_slot_cc :
    SlotTable → State → Str → Option ℕ → InstrCache → Option (SlotTable × State × InstrCache)
set_slot_cc t st k obj cc = let (t₁, st₁) = wb_slot t st obj in set_body_cc t₁ st₁ k obj cc

-- ivm_slot_table_setExistSlot_cc
unfoldable pub set_exist_slot_cc :
    SlotTable → State → Str → Option ℕ → InstrCache → (Bool × SlotTable × State) × InstrCache
set_exist_slot_cc t st k obj cc =
    let (slot, cc') = get_slot_cc t k cc in
    elim slot [
      | none ↦ ((false, t, st), cc')
      | some i ↦ let (t₁, st₁) = wb_slot t st obj in ((true, set_value_at t₁ i obj, st₁), cc')
    ]
