-- ===== src/Slot/Traced.antt =====
-- What a setter does to the caches of its table: a slot stays where it is as long as the id does.
use ivm.Base.{
  ℕ, ◌≡◌, refl, ◌∙◌, true, Option, none, some, arith, Option-cases, Bool-cases, inl, inr,
}
use native.Mathlib.Decide.{ℕ_discrete}
use ivm.Probe.{key_at, is_empty_at}
use ivm.Probe.Layout.{stops_at-true}
use ivm.Probe.Table.{key_at-set}
use ivm.Slot.{Str, string_key, SlotTable, State, find_slot}
use ivm.Slot.Setters.{write_slot, Outcome, store_at, set_loop, set_body}
use ivm.Slot.Table.{IsValid, find_slot-Finds}
use ivm.Slot.Grow.{Grown, expand-Grown}
use ivm.Slot.Set.{find_slot-Grown}
use ivm.Slot.Coherent.{IsStable}

pub write_keys :
    (t : SlotTable) (k : Str) (obj : Option ℕ) (i : ℕ)
    → IsValid t
    → find_slot t k ≡ some i
    → (key_at (write_slot t i k obj).tabl i ≡ some k)
      × ((j : ℕ) (r : Str)
          → key_at t.tabl j ≡ some r
          → key_at (write_slot t i k obj).tabl j ≡ some r)
unfolding write_slot
write_keys t k obj i v e =
    let s = find_slot-Finds t k i v e in
    let at = λ (j : ℕ). key_at-set t.tabl i j (record { k = some k; v = obj }) s.inside in
    (
      ground (arith, at i),
      λ j r held. elim (ℕ_discrete i j) [
        | no past ↦ ground (arith, at j)
        | yes met ↦ elim (stops_at-true k (key_at t.tabl) i s.stops) [
          | inl empty ↦ ground arith
          | inr taken ↦ ground (arith, at j)
        ]
      ],
    )

-- What a setter does to the caches of its table.
pub record Traced (t : SlotTable) (st : State) (k : Str) (o : Outcome) : Type 0 where
  pub stable : IsStable t st o.table
  pub slotted : (i : ℕ) → o.slot ≡ some i → key_at o.table.tabl i ≡ some k

pub stored-Traced :
    (t : SlotTable) (st : State) (k : Str) (obj : Option ℕ) (i : ℕ)
    → IsValid t
    → find_slot t k ≡ some i
    → Traced t st k (record { table = write_slot t i k obj; state = st; slot = some i })
unfolding write_slot
stored-Traced t st k obj i v e =
    let (here, keys) = write_keys t k obj i v e in
    record { stable = inl (refl, keys); slotted = λ j at. ground arith }

untouched-Traced :
    (t : SlotTable) (st : State) (k : Str)
    → Traced t st k (record { table = t; state = st; slot = none })
untouched-Traced t st k = record { stable = inl (refl, λ j r e. e); slotted = λ i e. ground arith }

store_at-Traced :
    (t : SlotTable) (st : State) (k : Str) (obj : Option ℕ) (i : ℕ)
    → IsValid t
    → find_slot t k ≡ some i
    → Traced t st k (store_at t st i k obj)
unfolding store_at
store_at-Traced t st k (some o) i v e = elim (Bool-cases (is_empty_at (key_at t.tabl) i)) [
  | inl empty ↦ rw (empty, store_at) (stored-Traced t st k (some o) i v e)
  | inr taken ↦ rw (taken, store_at) (stored-Traced t st k (some o) i v e)
]
store_at-Traced t st k none i v e = elim (Bool-cases (is_empty_at (key_at t.tabl) i)) [
  | inl empty ↦ rw (empty, store_at) (untouched-Traced t st k)
  | inr taken ↦ rw (taken, store_at) (stored-Traced t st k none i v e)
]

store_at-uid :
    (t : SlotTable) (st : State) (k : Str) (obj : Option ℕ) (i : ℕ)
    → (store_at t st i k obj).table.uid ≡ t.uid
unfolding store_at write_slot
store_at-uid t st k (some o) i = ground arith
store_at-uid t st k none i = ground arith

-- A setter that went on in the grown table left it under a fresh id.
Grown-Traced :
    (t : SlotTable) (st : State) (g : SlotTable) (st' : State) (k : Str) (obj : Option ℕ) (i : ℕ)
    → Grown t st g st'
    → find_slot g k ≡ some i
    → Traced t st k (store_at g st' i k obj)
Grown-Traced t st g st' k obj i w e =
    let traced = store_at-Traced g st' k obj i w.valid e in
    record { stable = inr (store_at-uid g st' k obj i ∙ w.fresh); slotted = traced.slotted }

abbrev pub Traces : SlotTable → State → Str → Option Outcome → Type 0
Traces t st k r = (o : Outcome) × (r ≡ some o) × Traced t st k o

pub set_body-Traced :
    (t : SlotTable) (st : State) (k : Str) (obj : Option ℕ)
    → IsValid t
    → Traces t st k (set_body t st k obj)
unfolding set_body set_loop
set_body-Traced t st k obj v = elim (Option-cases (find_slot t k)) [
  | inr (i, found) ↦
      (store_at t st i k obj, ground (arith, found), store_at-Traced t st k obj i v found)
  | inl missed ↦
      let (g, st', run, width, w) = expand-Grown t st v in
      let (i, found) = find_slot-Grown t st g st' k v w width in
      let there = Grown-Traced t st g st' k obj i w found in
      elim (Bool-cases t.is_hash) [
        | inl hashed ↦ full missed hashed obj
        | inr linear ↦ (store_at g st' i k obj, ground (arith, missed, run, found, linear), there)
      ]
]
  where
    full :
        find_slot t k ≡ none
        → t.is_hash ≡ true
        → (obj : Option ℕ) → Traces t st k (set_body t st k obj)
    full missed hashed none = (
      record { table = t; state = st; slot = none },
      ground (arith, missed, hashed),
      untouched-Traced t st k,
    )
    full missed hashed (some x) =
        let (g, st', run, width, w) = expand-Grown t st v in
        let (i, found) = find_slot-Grown t st g st' k v w width in
        (
          store_at g st' i k (some x),
          ground (arith, missed, hashed, run, found),
          Grown-Traced t st g st' k (some x) i w found,
        )
