-- ===== src/Slot/Cached.antt =====
-- ivm_slot_table_setSlot_cc: the setter with an inline cache.
use ivm.Base.{
  ◌∙◌, ap, sym, true, false, ℕ, ◌≤◌, ◌≡◌, refl, subst, Option, none, some, arith, ◌==◌, ==_iff,
  Option-cases, Bool-cases, inl, inr,
}
use ivm.Slot.{get_slot, Str, string_key, SlotTable, State}
use ivm.Probe.{key_at}
use ivm.Slot.Setters.{wb_slot, write_slot, Outcome}
use ivm.Slot.Caching.{
  InstrCache, get_slot_cc, check_cache_valid, set_value_at, set_body_cc, set_slot_cc,
  set_exist_slot_cc,
}
use ivm.Slot.Table.{IsValid}
use ivm.Slot.Set.{Written-Sets, write_slot-Written, Sets, set_body-Sets}
use ivm.Slot.Barrier.{
  wb_slot_cases, wb_slot_keeps, wb_slot-IsValid, wb_slot-get_value, wb_slot-block,
}
use ivm.Slot.Setters.{set_exist_slot}
use ivm.Slot.Coherent.{
  get_slot_cc-get_slot, get_slot-key, IsCoherent, stable-IsCoherent, find_slot-key,
}
use ivm.Slot.Traced.{write_keys, Traced, stored-Traced, set_body-Traced}

-- How a setter with a cache ends: as the plain one, its own cache and every cache of the table
-- that was filled before coherent.
pub record Recached (t : SlotTable) (st : State) (k : Str) (obj : Option ℕ) (t' : SlotTable)
    (cc' : InstrCache) : Type 0 where
  pub sets : Sets t k obj t'
  pub own : IsCoherent t' cc' k
  pub others :
      (old : InstrCache) (r : Str)
      → old.cc_id ≤ st.st_uid
      → IsCoherent t old r
      → IsCoherent t' old r

Traced-own :
    (t : SlotTable) (st : State) (k : Str) (o : Outcome) (cc : InstrCache)
    → Traced t st k o
    → cc.cc_id ≤ st.st_uid
    → IsCoherent t cc k
    → IsCoherent o.table
        (elim o.slot [ none ↦ cc | some i ↦ record { cc_id = o.table.uid; cc_data = i } ])
        k
Traced-own t st k o cc w old c = elim (Option-cases o.slot) [
  | inl e ↦ rw e (stable-IsCoherent t st o.table cc k w.stable old c)
  | inr (i, e) ↦ rw e (λ _. w.slotted i e)
]

set_body_cc-Recached :
    (t : SlotTable) (st : State) (k : Str) (obj : Option ℕ) (cc : InstrCache)
    → IsValid t
    → IsCoherent t cc k
    → cc.cc_id ≤ st.st_uid
    → (t' : SlotTable) × (st' : State) × (cc' : InstrCache) × (set_body_cc t st k obj cc
        ≡ some (t', st', cc'))
      × Recached t st k obj t' cc'
unfolding set_body_cc check_cache_valid set_value_at
set_body_cc-Recached t st k obj cc v c old = elim (Bool-cases (cc.cc_id == t.uid)) [
  | inl hit ↦
      let held = c ((==_iff _ _).0 hit) in
      let at = find_slot-key t k cc.cc_data v held in
      let w = stored-Traced t st k obj cc.cc_data v at in
      (
        write_slot t cc.cc_data k obj,
        st,
        cc,
        ground (arith, hit, held),
        record {
          sets = Written-Sets t k obj _ (write_slot-Written t k obj cc.cc_data v at);
          own = λ _. w.slotted cc.cc_data refl;
          others = λ q r. stable-IsCoherent t st (write_slot t cc.cc_data k obj) q r w.stable;
        },
      )
  | inr miss ↦
      let (o, run, w) = set_body-Traced t st k obj v in
      let (o', run', s) = set_body-Sets t st k obj v in
      let same : o' ≡ o = ground (arith, run, run') in
      (
        o.table,
        o.state,
        elim o.slot [ none ↦ cc | some i ↦ record { cc_id = o.table.uid; cc_data = i } ],
        ground (arith, miss, run),
        record {
          sets = subst (λ o. Sets t k obj o.table) same s;
          own = Traced-own t st k o cc w old c;
          others = λ q r. stable-IsCoherent t st o.table q r w.stable;
        },
      )
]

-- On a valid table, ivm_slot_table_setSlot_cc with a coherent cache from an id handed out before
-- ends and sets the slot as the plain setter does; afterwards its own cache and every coherent
-- cache from an older id are coherent: one that fits the table points at the slot of its name.
pub set_slot_cc-Recached :
    (t : SlotTable) (st : State) (k : Str) (obj : Option ℕ) (cc : InstrCache)
    → IsValid t
    → IsCoherent t cc k
    → cc.cc_id ≤ st.st_uid
    → (t' : SlotTable) × (st' : State) × (cc' : InstrCache) × (set_slot_cc t st k obj cc
        ≡ some (t', st', cc'))
      × Recached t st k obj t' cc'
unfolding set_slot_cc
set_slot_cc-Recached t st k obj cc v c old =
    let u = (wb_slot t st obj).0 in
    let seen : (q : InstrCache) (r : Str) → IsCoherent t q r → IsCoherent u q r =
      λ q r. wb_slot_keeps (λ u. IsCoherent u q r) t st obj (λ c. c) in
    let (uid, cases) = wb_slot_cases t st obj in
    let (t', st', cc', run, w) =
      set_body_cc-Recached u (wb_slot t st obj).1 k obj cc (wb_slot-IsValid t st obj v)
        (seen cc k c) (omega (arith, uid)) in
    (
      t',
      st',
      cc',
      run,
      record {
        sets = record {
          valid = w.sets.valid;
          block = w.sets.block ∙ wb_slot-block t st obj;
          reads = λ q. rw (← wb_slot-get_value t st obj q) (w.sets.reads q);
        };
        own = w.own;
        others = λ q r low c. w.others q r (omega (arith, uid)) (seen q r c);
      },
    )

-- On a valid table, ivm_slot_table_setExistSlot_cc with a coherent cache does what the setter
-- without a cache does, and leaves the cache coherent.
set_exist_slot_cc-set_exist_slot :
    (t : SlotTable) (st : State) (k : Str) (obj : Option ℕ) (cc : InstrCache)
    → IsValid t
    → IsCoherent t cc k
    → ((set_exist_slot_cc t st k obj cc).0 ≡ set_exist_slot t st k obj)
      × IsCoherent (set_exist_slot_cc t st k obj cc).0.1 (set_exist_slot_cc t st k obj cc).1 k
unfolding set_exist_slot_cc set_exist_slot set_value_at write_slot
set_exist_slot_cc-set_exist_slot t st k obj cc v c =
    let (same, own) = get_slot_cc-get_slot t k cc v c in
    let after = (get_slot_cc t k cc).1 in
    elim (Option-cases (get_slot t k)) [
      | inl e ↦
          let ends : set_exist_slot_cc t st k obj cc ≡ ((false, t, st), after) =
            ground (arith, same, e) in
          (
            ap (λ r. r.0) ends ∙ ground (arith, e),
            subst (λ r. IsCoherent r.0.1 r.1 k) (sym ends) own,
          )
      | inr (i, e) ↦
          let (u, st₁) = wb_slot t st obj in
          let held : key_at u.tabl i ≡ some k =
            wb_slot_keeps (λ u. key_at u.tabl i ≡ some k) t st obj (λ e. e)
              (get_slot-key t k i v e) in
          let valid = wb_slot-IsValid t st obj v in
          let seen = wb_slot_keeps (λ u. IsCoherent u after k) t st obj (λ c. c) own in
          let (here, keys) = write_keys u k obj i valid (find_slot-key u k i valid held) in
          let ends : set_exist_slot_cc t st k obj cc ≡ ((true, write_slot u i k obj, st₁), after) =
            ground (arith, same, e, held) in
          (
            ap (λ r. r.0) ends ∙ ground (arith, e),
            subst (λ r. IsCoherent r.0.1 r.1 k) (sym ends)
                (λ fits. keys after.cc_data k (seen fits)),
          )
    ]
