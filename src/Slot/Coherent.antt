-- ===== src/Slot/Coherent.antt =====
-- The inline caches of instructions: a cache that fits a table always points at the slot of its
-- name, so that the cached getter and setter do what the plain ones do.
use ivm.Base.{
  ℕ, ◌+◌, ◌≤◌, ◌≡◌, sym, ◌∙◌, none, some, arith, length, ◌==◌, ==_iff, Option-cases, Bool-cases,
  inl, inr, ◌⊎◌,
}
use ivm.Probe.{key_at, value_at}
use ivm.Probe.Layout.{stops_at-true, probe-present}
use ivm.Probe.Count.{key_at-some_lt}
use ivm.Slot.{Str, string_key, SlotTable, State, find_slot, object_at, get_slot}
use ivm.Slot.Caching.{InstrCache, check_cache_valid, get_slot_cc}
use ivm.Slot.Table.{IsValid, home, inside, find_slot-probe, find_slot-Finds}

-- If the cache fits the table, it points at the slot of the name.
abbrev pub IsCoherent : SlotTable → InstrCache → Str → Type 0
IsCoherent t cc k = cc.cc_id ≡ t.uid → key_at t.tabl cc.cc_data ≡ some k

-- The table keeps its id only if every slot stays where it is.
abbrev pub IsStable : SlotTable → State → SlotTable → Type 0
IsStable t st t' =
    ((t'.uid ≡ t.uid) × ((j : ℕ) (r : Str) → key_at t.tabl j ≡ some r → key_at t'.tabl j ≡ some r))
    ⊎ (t'.uid ≡ st.st_uid + 1)

-- A cache that was filled before stays coherent.
pub stable-IsCoherent :
    (t : SlotTable) (st : State) (t' : SlotTable) (cc : InstrCache) (r : Str)
    → IsStable t st t'
    → cc.cc_id ≤ st.st_uid
    → IsCoherent t cc r
    → IsCoherent t' cc r
stable-IsCoherent t st t' cc r (inl (same, keys)) old c e = keys cc.cc_data r (c (e ∙ same))
stable-IsCoherent t st t' cc r (inr fresh) old c e = absurd (omega arith)

pub find_slot-key :
    (t : SlotTable) (k : Str) (i : ℕ)
    → IsValid t
    → key_at t.tabl i ≡ some k
    → find_slot t k ≡ some i
find_slot-key t k i v e =
    find_slot-probe t k
    ∙ probe-present (length t.tabl) (home t) (key_at t.tabl) v.placed k i (inside v k)
        (key_at-some_lt t.tabl i e) e

get_slot-found :
    (t : SlotTable) (k : Str) (i : ℕ)
    → find_slot t k ≡ some i
    → get_slot t k ≡ elim (object_at t i) [ none ↦ none | some _ ↦ some i ]
unfolding get_slot
get_slot-found t k i e = rw (e, get_slot)

pub get_slot-key :
    (t : SlotTable) (k : Str) (i : ℕ) → IsValid t → get_slot t k ≡ some i → key_at t.tabl i ≡ some k
unfolding get_slot object_at value_at key_at
get_slot-key t k i v e = elim (Option-cases (find_slot t k)) [
  | inl missed ↦ ground (arith, e)
  | inr (j, found) ↦
      let s = find_slot-Finds t k j v found in
      let read = get_slot-found t k j found in
      elim (stops_at-true k (key_at t.tabl) j s.stops) [
        | inl empty ↦ ground (arith, e, empty)
        | inr taken ↦ ground (arith, e)
      ]
]

-- On a valid table, ivm_slot_table_getSlot_cc with a coherent cache finds the slot that the plain
-- getter finds, and leaves the cache coherent.
pub get_slot_cc-get_slot :
    (t : SlotTable) (k : Str) (cc : InstrCache)
    → IsValid t
    → IsCoherent t cc k
    → ((get_slot_cc t k cc).0 ≡ get_slot t k) × IsCoherent t (get_slot_cc t k cc).1 k
unfolding get_slot_cc check_cache_valid
get_slot_cc-get_slot t k cc v c = elim (Bool-cases (cc.cc_id == t.uid)) [
  | inl hit ↦
      let at = find_slot-key t k cc.cc_data v (c ((==_iff _ _).0 hit)) in
      (rw hit (sym (get_slot-found t k cc.cc_data at)), rw hit c)
  | inr miss ↦ elim (Option-cases (get_slot t k)) [
    | inl absent ↦ (ground arith, ground (arith, c))
    | inr (i, found) ↦ (ground arith, rw (miss, found) (λ _. get_slot-key t k i v found))
  ]
]
