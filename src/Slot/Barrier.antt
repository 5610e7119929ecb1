-- ===== src/Slot/Barrier.antt =====
-- IVM_WBSLOT: the write barrier marks a table and changes nothing else of it.
use ivm.Base.{
  ℕ, ◌≡◌, refl, sym, subst, true, not, ◌&&◌, Option, none, some, Bool-cases, inl, inr, ◌⊎◌,
}
use ivm.Slot.{Str, string_key, SlotTable, State, find_slot, object_at, get_slot, get_value}
use ivm.Slot.Setters.{wb_slot}
use ivm.Slot.Table.{IsValid}

-- The write barrier marks the table at most, and hands out no id.
pub wb_slot_cases :
    (t : SlotTable) (st : State) (obj : Option ℕ)
    → ((wb_slot t st obj).1.st_uid ≡ st.st_uid)
      × (((wb_slot t st obj).0 ≡ t) ⊎ ((wb_slot t st obj).0 ≡ record t { wb = true }))
unfolding wb_slot
wb_slot_cases t st none = (refl, inl refl)
wb_slot_cases t st (some o) = elim (Bool-cases (t.gen && not (st.obj_gen o))) [
  | inr young ↦ rw young (refl, inl refl)
  | inl old ↦ rw old (elim (Bool-cases t.wb) [
    | inl marked ↦ rw marked (refl, inl refl)
    | inr fresh ↦ rw fresh (refl, inr refl)
  ])
]

-- What does not depend on the mark holds of the table behind the barrier.
pub wb_slot_keeps {ℓ} :
    (P : SlotTable → Type ℓ) (t : SlotTable) (st : State) (obj : Option ℕ)
    → (P t → P (record t { wb = true }))
    → P t
    → P (wb_slot t st obj).0
wb_slot_keeps P t st obj mark p = elim (wb_slot_cases t st obj).1 [
  | inl same ↦ subst P (sym same) p
  | inr marked ↦ subst P (sym marked) (mark p)
]

pub wb_slot-IsValid :
    (t : SlotTable) (st : State) (obj : Option ℕ) → IsValid t → IsValid (wb_slot t st obj).0
wb_slot-IsValid t st obj =
    wb_slot_keeps IsValid t st obj
      (λ v. record { roomy = v.roomy; linear = v.linear; placed = v.placed })

pub wb_slot-get_value :
    (t : SlotTable) (st : State) (obj : Option ℕ) (q : Str)
    → get_value (wb_slot t st obj).0 q ≡ get_value t q
unfolding get_value get_slot object_at find_slot
wb_slot-get_value t st obj q =
    wb_slot_keeps (λ u. get_value u q ≡ get_value t q) t st obj (λ e. refl) refl

pub wb_slot-block :
    (t : SlotTable) (st : State) (obj : Option ℕ) → (wb_slot t st obj).0.block_oop ≡ t.block_oop
wb_slot-block t st obj = wb_slot_keeps (λ u. u.block_oop ≡ t.block_oop) t st obj (λ e. e) refl
