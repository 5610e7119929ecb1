-- ===== src/Slot/Set.antt =====
-- ivm_slot_table_setSlot: whatever state the table is in, the name maps to the object afterwards.
use ivm.Base.{
  ℕ, suc, ◌*◌, ◌<◌, ◌≡◌, refl, sym, ◌∙◌, ap, subst, Option, none, some, arith, length, set,
  length-set, if◌then◌else◌, Option-cases, Bool-cases, inl, inr,
}
use ivm.Probe.{Cell, key_at, value_at, stops_at, is_empty_at}
use ivm.Probe.Scan.{probe-Finds_any}
use ivm.Probe.Layout.{stops_at-empty}
use ivm.Probe.Table.{IsPlaced, write-IsPlaced, lookup-write}
use ivm.Probe.Count.{used, used-lt_room, used-le-length}
use ivm.Slot.{
  Str, string_compare, string_compare_iff, string_key, SlotTable, State, find_slot, get_value,
}
use ivm.Slot.Setters.{wb_slot, write_slot, Outcome, store_at, set_loop, set_body, set_slot}
use ivm.Slot.Table.{
  IsValid, home, home_of, stored, flat, inside, find_slot-probe, find_slot-Finds, stored-find_slot,
  get_value-stored,
}
use ivm.Slot.Grow.{Grown, expand-Grown}
use ivm.Slot.Barrier.{wb_slot-IsValid, wb_slot-get_value, wb_slot-block}

-- Writing a slot at the cell that its scan finds.
pub record Written (t : SlotTable) (k : Str) (obj : Option ℕ) (t' : SlotTable) : Type 0 where
  pub valid : IsValid t'
  pub reads : (q : Str) → stored t' q ≡ (if string_compare k q then some obj else stored t q)
  pub uid : t'.uid ≡ t.uid
  pub block : t'.block_oop ≡ t.block_oop

pub write_slot-Written :
    (t : SlotTable) (k : Str) (obj : Option ℕ) (i : ℕ)
    → IsValid t
    → find_slot t k ≡ some i
    → Written t k obj (write_slot t i k obj)
unfolding write_slot string_key
write_slot-Written t k obj i v e =
    let s = find_slot-Finds t k i v e in
    let c : Cell Str (Option ℕ) = record { k = some k; v = obj } in
    let width = length-set t.tabl i c in
    record {
      valid = record {
        roomy = rw width v.roomy;
        linear = λ linear. rw width (v.linear linear);
        placed =
            subst (λ n. IsPlaced (home_of t.is_hash n) (set t.tabl i c)) (sym width)
              (write-IsPlaced (home t) t.tabl v.placed k obj i s);
      };
      reads = λ q. rw width (lookup-write (home t) t.tabl v.placed k obj i s q (inside v q));
      uid = refl;
      block = refl;
    }

-- What a setter promises: the table stays valid, and the name maps to the object, or to nothing
-- if the object is NULL; all other names map to what they did.
pub record Sets (t : SlotTable) (k : Str) (obj : Option ℕ) (t' : SlotTable) : Type 0 where
  pub valid : IsValid t'
  pub reads : (q : Str) → get_value t' q ≡ (if string_compare k q then obj else get_value t q)
  pub block : t'.block_oop ≡ t.block_oop

pub Written-Sets :
    (t : SlotTable) (k : Str) (obj : Option ℕ) (t' : SlotTable)
    → Written t k obj t'
    → Sets t k obj t'
Written-Sets t k obj t' w = record {
  valid = w.valid;
  block = w.block;
  reads = λ q. ground (arith, w.reads q, get_value-stored t q, get_value-stored t' q);
}

-- Where the name has no slot, leaving the table alone stores NULL.
pub absent-Sets : (t : SlotTable) (k : Str) → IsValid t → stored t k ≡ none → Sets t k none t
absent-Sets t k v e = record {
  valid = v;
  block = refl;
  reads = λ q. elim (Bool-cases (string_compare k q)) [
    | inl same ↦
        let kq = (string_compare_iff k q).0 same in
        rw (same, ← kq) (get_value-stored t k ∙ ap flat e)
    | inr other ↦ rw other
  ];
}

pub stored_empty :
    (t : SlotTable) (k : Str) (i : ℕ)
    → find_slot t k ≡ some i
    → key_at t.tabl i ≡ none
    → stored t k ≡ none
unfolding value_at key_at
stored_empty t k i e empty = ground (arith, stored-find_slot t k)

store_at-Sets :
    (t : SlotTable) (st : State) (k : Str) (obj : Option ℕ) (i : ℕ)
    → IsValid t
    → find_slot t k ≡ some i
    → Sets t k obj (store_at t st i k obj).table
unfolding store_at is_empty_at
store_at-Sets t st k (some o) i v e = elim (Option-cases (key_at t.tabl i)) [
  | inl empty ↦
      rw (empty, store_at, is_empty_at)
        (Written-Sets t k (some o) _ (write_slot-Written t k (some o) i v e))
  | inr (r, taken) ↦
      rw (taken, store_at, is_empty_at)
        (Written-Sets t k (some o) _ (write_slot-Written t k (some o) i v e))
]
store_at-Sets t st k none i v e = elim (Option-cases (key_at t.tabl i)) [
  | inl empty ↦ rw (empty, store_at, is_empty_at) (absent-Sets t k v (stored_empty t k i e empty))
  | inr (r, taken) ↦
      rw (taken, store_at, is_empty_at)
        (Written-Sets t k none _ (write_slot-Written t k none i v e))
]

-- A table that is not full has a cell for every name.
pub find_slot_room :
    (t : SlotTable) (k : Str)
    → IsValid t
    → used t.tabl < length t.tabl
    → (i : ℕ) × (find_slot t k ≡ some i)
find_slot_room t k v room =
    let (j, h, empty) = used-lt_room t.tabl room in
    let (i, found, s) =
      probe-Finds_any (stops_at k (key_at t.tabl)) (length t.tabl) (home t k) j (inside v k) h
        (stops_at-empty k (key_at t.tabl) j empty) in
    (i, find_slot-probe t k ∙ found)

-- So has a table that has just grown.
pub find_slot-Grown :
    (t : SlotTable) (st : State) (t' : SlotTable) (st' : State) (k : Str)
    → IsValid t
    → Grown t st t' st'
    → length t'.tabl ≡ length t.tabl * 2
    → (i : ℕ) × (find_slot t' k ≡ some i)
find_slot-Grown t st t' st' k v g width =
    find_slot_room t' k g.valid (omega (arith, used-le-length t.tabl, g.count, v.roomy))

-- Setting in the grown table is setting in the table.
Sets-Grown :
    (t : SlotTable) (st : State) (g : SlotTable) (st' : State) (k : Str) (obj : Option ℕ)
    (t' : SlotTable)
    → Grown t st g st'
    → Sets g k obj t'
    → Sets t k obj t'
Sets-Grown t st g st' k obj t' w s = record {
  valid = s.valid;
  block = s.block ∙ w.block;
  reads = λ q. ground (arith, s.reads q, w.reads q, get_value-stored t q, get_value-stored g q);
}

abbrev Done : SlotTable → Str → Option ℕ → Option Outcome → Type 0
Done t k obj r = (o : Outcome) × (r ≡ some o) × Sets t k obj o.table

set_loop-found :
    (fuel : ℕ) (t : SlotTable) (st : State) (k : Str) (obj : Option ℕ) (i : ℕ)
    → IsValid t
    → find_slot t k ≡ some i
    → Done t k obj (set_loop (suc fuel) t st k obj)
unfolding set_loop
set_loop-found fuel t st k obj i v e =
    (store_at t st i k obj, rw (e, set_loop), store_at-Sets t st k obj i v e)

set_loop-Sets :
    (fuel : ℕ) (t : SlotTable) (st : State) (k : Str) (obj : Option ℕ)
    → IsValid t
    → Done t k obj (set_loop (suc (suc fuel)) t st k obj)
unfolding set_loop
set_loop-Sets fuel t st k obj v = elim (Option-cases (find_slot t k)) [
  | inr (i, e) ↦ set_loop-found (suc fuel) t st k obj i v e
  | inl missed ↦ full missed obj
]
  where
    full :
        find_slot t k ≡ none
        → (obj : Option ℕ) → Done t k obj (set_loop (suc (suc fuel)) t st k obj)
    full missed none = (
      record { table = t; state = st; slot = none },
      rw (missed, set_loop),
      absent-Sets t k v (ground (arith, stored-find_slot t k)),
    )
    full missed (some x) =
        let (g, st', run, width, w) = expand-Grown t st v in
        let (i, e) = find_slot-Grown t st g st' k v w width in
        let (o, again, s) = set_loop-found fuel g st' k (some x) i w.valid e in
        (o, rw (missed, set_loop, run) again, Sets-Grown t st g st' k (some x) o.table w s)

pub set_body-Sets :
    (t : SlotTable) (st : State) (k : Str) (obj : Option ℕ)
    → IsValid t
    → Done t k obj (set_body t st k obj)
unfolding set_body
set_body-Sets t st k obj v = elim (Bool-cases t.is_hash) [
  | inl hashed ↦
      let (o, run, s) = set_loop-Sets 0 t st k obj v in (o, ground (arith, hashed, run), s)
  | inr linear ↦ elim (Option-cases (find_slot t k)) [
    | inr (i, e) ↦
        (store_at t st i k obj, ground (arith, linear, e), store_at-Sets t st k obj i v e)
    | inl missed ↦
        let (g, st', run, width, w) = expand-Grown t st v in
        let (i, e) = find_slot-Grown t st g st' k v w width in
        let (o, again, s) = set_loop-found 1 g st' k obj i w.valid e in
        (o, ground (arith, linear, missed, run, again), Sets-Grown t st g st' k obj o.table w s)
  ]
]

-- ivm_slot_table_setSlot ends on every valid table, list or hash table, full or not, within one
-- expansion; the name then maps to the object (to nothing for NULL), all other names are
-- unchanged, and the table is valid.
pub set_slot-Sets :
    (t : SlotTable) (st : State) (k : Str) (obj : Option ℕ)
    → IsValid t
    → (o : Outcome) × (set_slot t st k obj ≡ some o) × Sets t k obj o.table
unfolding set_slot
set_slot-Sets t st k obj v =
    let (o, run, s) =
      set_body-Sets (wb_slot t st obj).0 (wb_slot t st obj).1 k obj (wb_slot-IsValid t st obj v) in
    (
      o,
      run,
      record {
        block = s.block ∙ wb_slot-block t st obj;
        valid = s.valid;
        reads = λ q. rw (← wb_slot-get_value t st obj q) (s.reads q);
      },
    )
