-- ===== src/Slot/Grow.antt =====
-- Expansion: a grown table has the same slots, a new id, and is a hash table from then on.
use ivm.Base.{
  ℕ, ◌+◌, ◌*◌, ◌≤◌, ◌≡◌, refl, sym, subst, true, not, none, some, arith, length, leb, Bool-cases,
  inl, inr, ◌⊎◌,
}
use ivm.Probe.{is_empty_at, lookup_from}
use ivm.Probe.Table.{IsPlaced}
use ivm.Probe.Count.{used}
use ivm.Probe.Refill.{is_empty_at-Agrees}
use ivm.Probe.Expand.{refill-Expanded}
use ivm.Slot.{
  Str, string_key, SlotTable, State, update_uid, expand_cells, resize, expand, expand_to,
}
use ivm.Slot.Table.{IsValid, home, home_of, home_of-lt, stored, inside}

-- What an expansion of `t` makes of it.
pub record Grown (t : SlotTable) (st : State) (t' : SlotTable) (st' : State) : Type 0 where
  pub valid : IsValid t'
  pub reads : (q : Str) → stored t' q ≡ stored t q
  pub count : used t'.tabl ≡ used t.tabl
  pub block : t'.block_oop ≡ t.block_oop
  pub hashed : t'.is_hash ≡ true
  pub fresh : t'.uid ≡ st.st_uid + 1
  pub counter : st'.st_uid ≡ t'.uid

resize-Grown :
    (t : SlotTable) (st : State) (size : ℕ)
    → IsValid t
    → length t.tabl ≤ size
    → 6 ≤ size
    → (t' : SlotTable) × (st' : State) × (resize t st size ≡ some (not t.is_hash, t', st'))
      × (length t'.tabl ≡ size)
      × Grown t st t' st'
unfolding resize expand_cells update_uid home_of
resize-Grown t st size v room hashes =
    let (u, run, e) =
      refill-Expanded (λ _. is_empty_at) is_empty_at-Agrees (home t) (home_of true size) t.tabl size
        none v.placed (inside v) (λ q. home_of-lt true size q (omega (arith, v.roomy))) room in
    (
      record t { tabl = u; is_hash = true; uid = st.st_uid + 1 },
      record st { st_uid = st.st_uid + 1 },
      elim (Bool-cases t.is_hash) [
        | inl h ↦ ground (arith, h, run)
        | inr h ↦ ground (arith, h, run)
      ],
      e.width,
      record {
        valid = record {
          roomy = omega (arith, e.width, v.roomy);
          linear = λ linear. ground arith;
          placed = subst (λ n. IsPlaced (home_of true n) u) (sym e.width) e.placed;
        };
        reads = λ q.
            subst (λ n. lookup_from (home_of true n q) q u ≡ stored t q) (sym e.width) (e.reads q);
        count = e.count;
        block = refl;
        hashed = refl;
        fresh = refl;
        counter = refl;
      },
    )

-- _ivm_slot_table_expand succeeds on every valid table: the new one has twice the cells, the same
-- slots and as many used cells, is a hash table, valid, and has a fresh id.
pub expand-Grown :
    (t : SlotTable) (st : State)
    → IsValid t
    → (t' : SlotTable) × (st' : State) × (expand t st ≡ some (not t.is_hash, t', st'))
      × (length t'.tabl ≡ length t.tabl * 2)
      × Grown t st t' st'
unfolding expand
expand-Grown t st v = resize-Grown t st (length t.tabl * 2) v (omega arith) (omega (arith, v.roomy))

-- ivm_slot_table_expandTo leaves a valid table with enough cells alone; otherwise the new one has
-- twice the wanted cells, the same slots, and is a valid hash table under a fresh id.
pub expand_to-Grown :
    (t : SlotTable) (st : State) (to : ℕ)
    → IsValid t
    → ((to ≤ length t.tabl) × (expand_to t st to ≡ some (t, st)))
      ⊎ ((t' : SlotTable) × (st' : State) × (expand_to t st to ≡ some (t', st'))
          × (length t'.tabl ≡ to * 2)
          × Grown t st t' st')
unfolding expand_to
expand_to-Grown t st to v = elim (Bool-cases (leb to (length t.tabl))) [
  | inl small ↦ inl (ground arith, ground arith)
  | inr large ↦
      let (t', st', run, width, g) =
        resize-Grown t st (to * 2) v (ground arith) (ground (arith, v.roomy)) in
      inr (t', st', ground arith, width, g)
]
