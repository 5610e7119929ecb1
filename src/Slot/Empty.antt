-- ===== src/Slot/Empty.antt =====
-- ivm_slot_table_setEmptySlot, which never overwrites, and ivm_slot_table_setExistSlot, which
-- never adds a slot.
use ivm.Base.{
  ℕ, suc, ◌≡◌, refl, ◌∙◌, Bool, true, false, Option, none, some, arith, or_else, if◌then◌else◌,
  Option-cases, Bool-cases, inl, inr, ◌⊎◌,
}
use ivm.Probe.{key_at, is_empty_at}
use ivm.Probe.Layout.{stops_at-true}
use ivm.Probe.Table.{value_at_held}
use ivm.Slot.{
  Str, string_compare, string_compare_iff, string_key, SlotTable, State, find_slot, object_at,
  get_slot, get_value,
}
use ivm.Slot.Setters.{
  wb_slot, write_slot, set_empty_at, set_empty_loop, set_empty_slot, set_exist_slot,
}
use ivm.Slot.Table.{IsValid, stored, find_slot-Finds, stored-find_slot}
use ivm.Slot.Grow.{Grown, expand-Grown}
use ivm.Slot.Set.{Written-Sets, write_slot-Written, stored_empty, find_slot-Grown, Sets}
use ivm.Slot.Barrier.{wb_slot_keeps, wb_slot-IsValid, wb_slot-get_value, wb_slot-block}

abbrev pub is_none {ℓ} : {A : Type ℓ} → Option A → Bool
is_none none = true
is_none (some _) = false

-- What setting an empty slot promises: the answer is whether the name was new, and the slots are
-- those of before, with the object under the name if it was new.
pub record Completes (t : SlotTable) (k : Str) (obj : Option ℕ) (r : Bool × SlotTable × State)
    : Type 0 where
  pub valid : IsValid r.1
  pub answer : r.0 ≡ is_none (stored t k)
  pub reads :
      (q : Str)
      → stored r.1 q ≡ (if string_compare k q then or_else (stored t k) (some obj) else stored t q)

set_empty_at-Completes :
    (t : SlotTable) (st : State) (k : Str) (obj : Option ℕ) (i : ℕ)
    → IsValid t
    → find_slot t k ≡ some i
    → Completes t k obj (set_empty_at t st i k obj)
unfolding set_empty_at is_empty_at
set_empty_at-Completes t st k obj i v e =
    elim (stops_at-true k (key_at t.tabl) i (find_slot-Finds t k i v e).stops) [
      | inl empty ↦
          let w = write_slot-Written t k obj i v e in
          let absent = stored_empty t k i e empty in
          rw (empty, set_empty_at, is_empty_at)
            (record { valid = w.valid; answer = rw absent; reads = λ q. rw absent (w.reads q) })
      | inr taken ↦
          let (x, held) = value_at_held t.tabl i taken in
          let present : stored t k ≡ some x = ground (arith, stored-find_slot t k) in
          rw (taken, set_empty_at, is_empty_at)
            (record {
              valid = v;
              answer = rw present;
              reads = λ q. elim (Bool-cases (string_compare k q)) [
                | inl same ↦ rw (same, present, ← (string_compare_iff k q).0 same) present
                | inr other ↦ rw other
              ];
            })
    ]

Completes-Grown :
    (t : SlotTable) (st : State) (g : SlotTable) (st' : State) (k : Str) (obj : Option ℕ)
    (r : Bool × SlotTable × State)
    → Grown t st g st'
    → Completes g k obj r
    → Completes t k obj r
Completes-Grown t st g st' k obj r w s = record {
  valid = s.valid;
  answer = rw (← w.reads k) s.answer;
  reads = λ q. rw (← w.reads k, ← w.reads q) (s.reads q);
}

abbrev Ends : SlotTable → Str → Option ℕ → Option (Bool × SlotTable × State) → Type 0
Ends t k obj e = (r : Bool × SlotTable × State) × (e ≡ some r) × Completes t k obj r

set_empty_loop-found :
    (fuel : ℕ) (t : SlotTable) (st : State) (k : Str) (obj : Option ℕ) (i : ℕ)
    → IsValid t
    → find_slot t k ≡ some i
    → Ends t k obj (set_empty_loop (suc fuel) t st k obj)
unfolding set_empty_loop
set_empty_loop-found fuel t st k obj i v e =
    (set_empty_at t st i k obj, rw (e, set_empty_loop), set_empty_at-Completes t st k obj i v e)

set_empty_loop-Completes :
    (fuel : ℕ) (t : SlotTable) (st : State) (k : Str) (obj : Option ℕ)
    → IsValid t
    → Ends t k obj (set_empty_loop (suc (suc fuel)) t st k obj)
unfolding set_empty_loop
set_empty_loop-Completes fuel t st k obj v = elim (Option-cases (find_slot t k)) [
  | inr (i, e) ↦ set_empty_loop-found (suc fuel) t st k obj i v e
  | inl missed ↦
      let (g, st', run, width, w) = expand-Grown t st v in
      let (i, e) = find_slot-Grown t st g st' k v w width in
      let (r, again, s) = set_empty_loop-found fuel g st' k obj i w.valid e in
      (r, rw (missed, set_empty_loop, run) again, Completes-Grown t st g st' k obj r w s)
]

-- The body of SET_EMPTY_SLOT behind its write barrier, at a valid table.
body_Completes :
    (t : SlotTable) (st : State) (k : Str) (obj : Option ℕ) (start : SlotTable) (st₀ : State)
    → (wb_slot start st₀ obj) ≡ (t, st)
    → IsValid t
    → Ends t k obj (set_empty_slot start st₀ k obj)
unfolding set_empty_slot
body_Completes t st k obj start st₀ barrier v = elim (Bool-cases t.is_hash) [
  | inl hashed ↦
      let (r, run, s) = set_empty_loop-Completes 0 t st k obj v in
      (r, ground (arith, barrier, hashed, run), s)
  | inr linear ↦ elim (Option-cases (find_slot t k)) [
    | inr (i, e) ↦ (
      set_empty_at t st i k obj,
      ground (arith, barrier, linear, e),
      set_empty_at-Completes t st k obj i v e,
    )
    | inl missed ↦
        let (g, st', run, width, w) = expand-Grown t st v in
        let (i, e) = find_slot-Grown t st g st' k v w width in
        let (r, again, s) = set_empty_loop-found 1 g st' k obj i w.valid e in
        (
          r,
          ground (arith, barrier, linear, missed, run, again),
          Completes-Grown t st g st' k obj r w s,
        )
  ]
]

-- ivm_slot_table_setEmptySlot ends on every valid table; it answers true exactly if the table has
-- no slot of the name, a deleted one included, and then adds it; no slot that was there changes.
pub set_empty_slot-Completes :
    (t : SlotTable) (st : State) (k : Str) (obj : Option ℕ)
    → IsValid t
    → (r : Bool × SlotTable × State) × (set_empty_slot t st k obj ≡ some r) × Completes t k obj r
set_empty_slot-Completes t st k obj v =
    let (r, run, s) =
      body_Completes (wb_slot t st obj).0 (wb_slot t st obj).1 k obj t st refl
        (wb_slot-IsValid t st obj v) in
    let same : (q : Str) → stored (wb_slot t st obj).0 q ≡ stored t q =
      λ q. wb_slot_keeps (λ u. stored u q ≡ stored t q) t st obj (λ e. refl) refl in
    (
      r,
      run,
      record {
        valid = s.valid;
        answer = rw (← same k) s.answer;
        reads = λ q. rw (← same k, ← same q) (s.reads q);
      },
    )

wb_slot-find_slot :
    (t : SlotTable) (st : State) (obj : Option ℕ) (k : Str)
    → find_slot (wb_slot t st obj).0 k ≡ find_slot t k
unfolding find_slot
wb_slot-find_slot t st obj k =
    wb_slot_keeps (λ u. find_slot u k ≡ find_slot t k) t st obj (λ e. refl) refl

-- ivm_slot_table_setExistSlot on a valid table sets a name that maps to an object and answers
-- true; otherwise it answers false and changes nothing.
pub set_exist_slot-Sets :
    (t : SlotTable) (st : State) (k : Str) (obj : Option ℕ)
    → IsValid t
    → ((x : ℕ) × (t' : SlotTable) × (st' : State) × (get_value t k ≡ some x)
        × (set_exist_slot t st k obj ≡ (true, t', st'))
        × Sets t k obj t')
      ⊎ ((get_value t k ≡ none) × (set_exist_slot t st k obj ≡ (false, t, st)))
unfolding set_exist_slot get_value get_slot
set_exist_slot-Sets t st k obj v = elim (Option-cases (find_slot t k)) [
  | inl e ↦ inr (ground (arith, e), ground (arith, e))
  | inr (i, e) ↦ elim (Option-cases (object_at t i)) [
    | inl deleted ↦ inr (ground (arith, e, deleted), ground (arith, e, deleted))
    | inr (x, held) ↦
        let u = (wb_slot t st obj).0 in
        let w =
          write_slot-Written u k obj i (wb_slot-IsValid t st obj v)
            (wb_slot-find_slot t st obj k ∙ e) in
        let s = Written-Sets u k obj (write_slot u i k obj) w in
        inl (
          x,
          write_slot u i k obj,
          (wb_slot t st obj).1,
          ground (arith, e, held),
          ground (arith, e, held),
          record {
            block = s.block ∙ wb_slot-block t st obj;
            valid = s.valid;
            reads = λ q. rw (← wb_slot-get_value t st obj q) (s.reads q);
          },
        )
  ]
]
