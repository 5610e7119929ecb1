-- ===== src/Slot/Sharing.antt =====
-- vm/slot.h and vm/slot.c: copies of a slot table, and tables that objects share until one of them
-- writes.
use ivm.Base.{
  ℕ, ◌+◌, ◌≡◌, refl, sym, subst, true, false, Bool-cases, none, if◌then◌else◌, arith, inl, inr,
}
use ivm.Slot.{Str, SlotTable, State, update_uid, find_slot, object_at, get_slot, get_value}
use ivm.Slot.Table.{IsValid}

-- ivm_slot_table_copy, to the address `addr` of a heap.
unfoldable pub copy : ℕ → SlotTable → State → SlotTable × State
unfolding update_uid
copy addr t st = update_uid (record t { self = addr; wb = false; copy = none }) st

-- ivm_slot_table_copy_state, to the address `addr` of the young heap.
unfoldable pub copy_state : ℕ → SlotTable → State → SlotTable × State
unfolding update_uid
copy_state addr t st =
    update_uid
      (record t {
        self = addr;
        wb = false;
        gen = false;
        copy = none;
        is_shared = false;
        no_cow = false;
      })
      st

-- ivm_slot_table_copyOnWrite
unfoldable pub copy_on_write : ℕ → SlotTable → State → SlotTable × State
copy_on_write addr t st = if t.is_shared then copy_state addr t st else (t, st)

-- ivm_slot_table_copyShared of a table that is not NULL.
unfoldable pub copy_shared : ℕ → SlotTable → State → SlotTable × State
copy_shared addr t st =
    if t.no_cow then copy_state addr t st else (record t { is_shared = true }, st)

-- A table at the address `addr` that a copy of `t` is, under a fresh id.
pub record Copied (addr : ℕ) (t : SlotTable) (st : State) (r : SlotTable × State) : Type 0 where
  pub valid : IsValid r.0
  pub reads : (q : Str) → get_value r.0 q ≡ get_value t q
  pub own : r.0.is_shared ≡ false
  pub self : r.0.self ≡ addr
  pub uid : r.0.uid ≡ st.st_uid + 1
  pub next : r.1.st_uid ≡ r.0.uid

-- A table that may be written in place of `t`: it is valid, shared by nobody, and has the slots of
-- `t`; it is `t` itself just if `t` is not shared.
pub record Writable (addr : ℕ) (t : SlotTable) (st : State) (r : SlotTable × State) : Type 0 where
  pub valid : IsValid r.0
  pub reads : (q : Str) → get_value r.0 q ≡ get_value t q
  pub own : r.0.is_shared ≡ false
  pub kept : t.is_shared ≡ false → r ≡ (t, st)
  pub copied : t.is_shared ≡ true → Copied addr t st r

copy_state-Copied :
    (addr : ℕ) (t : SlotTable) (st : State) → IsValid t → Copied addr t st (copy_state addr t st)
unfolding copy_state get_value get_slot find_slot object_at
copy_state-Copied addr t st v = record {
  valid = record { roomy = v.roomy; linear = v.linear; placed = v.placed };
  reads = λ q. refl;
  own = refl;
  self = refl;
  uid = refl;
  next = refl;
}

-- From a valid table, ivm_slot_table_copyOnWrite gives a valid one that nobody shares, with the
-- same slots: that table and state themselves if it is not shared; if it is, a copy at the new
-- address, under a fresh id that the state then counts.
pub copy_on_write-Writable :
    (addr : ℕ) (t : SlotTable) (st : State)
    → IsValid t
    → Writable addr t st (copy_on_write addr t st)
unfolding copy_on_write
copy_on_write-Writable addr t st v = elim (Bool-cases t.is_shared) [
  | inl shared ↦
      let copied : copy_on_write addr t st ≡ copy_state addr t st = ground (arith, shared) in
      let c = copy_state-Copied addr t st v in
      subst (Writable addr t st) (sym copied) (record {
        valid = c.valid;
        reads = c.reads;
        own = c.own;
        kept = λ own. ground (arith, shared, own);
        copied = λ _. c;
      })
  | inr own ↦
      let kept : copy_on_write addr t st ≡ (t, st) = ground (arith, own) in
      subst (Writable addr t st) (sym kept) (record {
        valid = v;
        reads = λ q. refl;
        own = own;
        kept = λ _. refl;
        copied = λ shared. ground (arith, shared, own);
      })
]
