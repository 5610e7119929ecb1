-- ===== src/Slot/Merge.antt =====
-- ivm_slot_table_merge: the slots of one table are added to another, over its own or beside them.
use ivm.Base.{
  ℕ, zero, suc, ◌+◌, ◌≡◌, ◌≢◌, refl, ◌∙◌, ap, true, false, Option, none, some, List, [], ◌∷◌, arith,
  length, or_else, Option-cases, inl, inr,
}
use ivm.Probe.{Cell, key_at, value_at}
use ivm.Probe.Table.{lookup-present, lookup-absent, lookup_cases, value_at_held}
use ivm.Probe.Count.{key_at-some_lt}
use ivm.Probe.Refill.{IsDistinct, Absent}
use ivm.Probe.Expand.{IsPlaced-IsDistinct}
use ivm.Slot.{Str, string_compare_iff, string_key, SlotTable, State, get_value, expand_to}
use ivm.Slot.Setters.{merge_slot, merge_cells, merge}
use ivm.Slot.Table.{IsValid, home, stored, flat, inside, get_value-stored}
use ivm.Slot.Grow.{expand_to-Grown}
use ivm.Slot.Set.{set_slot-Sets}
use ivm.Slot.Empty.{set_empty_slot-Completes}

-- What the loop over distinct cells makes of the table, if it overwrites.
record Overwritten (cells : List (Cell Str (Option ℕ))) (t u : SlotTable) : Type 0 where
  valid : IsValid u
  moved : (q : Str) (j : ℕ) → key_at cells j ≡ some q → get_value u q ≡ flat (value_at cells j)
  kept : (q : Str) → Absent q cells → get_value u q ≡ get_value t q

overwrite :
    (cells : List (Cell Str (Option ℕ))) (t : SlotTable) (st : State)
    → IsDistinct cells
    → IsValid t
    → (u : SlotTable) × (st' : State) × (merge_cells true cells t st ≡ some (u, st'))
      × Overwritten cells t u
unfolding merge_cells merge_slot key_at value_at
overwrite [] t st distinct v =
    (t, st, refl, record { valid = v; moved = λ q j e. ground arith; kept = λ q absent. refl })
overwrite (c ∷ cells) t st distinct v = elim (Option-cases c.k) [
  | inl e ↦
      let (u, st', run, w) = overwrite cells t st later v in
      (
        u,
        st',
        ground (arith, e, run),
        record {
          valid = w.valid;
          moved = λ q. elim [ zero ↦ λ at. ground arith | suc j ↦ λ at. w.moved q j at ];
          kept = λ q absent. w.kept q (λ j. absent (suc j));
        },
      )
  | inr (k, e) ↦
      let (o, first, s) = set_slot-Sets t st k c.v v in
      let (u, st', run, w) = overwrite cells o.table o.state later s.valid in
      (
        u,
        st',
        ground (arith, e, first, run),
        record {
          valid = w.valid;
          moved = λ q. elim [
            | zero ↦ λ at.
                w.kept q (λ j there. absurd (omega (arith, distinct 0 (suc j) q at there)))
                ∙ s.reads q
                ∙ ground (arith, (string_compare_iff k q).1)
            | suc j ↦ λ at. w.moved q j at
          ];
          kept = λ q absent.
              w.kept q (λ j. absent (suc j))
              ∙ s.reads q
              ∙ ground (arith, absent 0, (string_compare_iff k q).0);
        },
      )
]
  where
    later : IsDistinct cells
    later i j q a b = omega (arith, distinct (suc i) (suc j) q a b)

-- What the loop makes of the table, if it does not overwrite.
record Completed (cells : List (Cell Str (Option ℕ))) (t u : SlotTable) : Type 0 where
  valid : IsValid u
  moved :
      (q : Str) (j : ℕ)
      → key_at cells j ≡ some q
      → stored u q ≡ or_else (stored t q) (value_at cells j)
  kept : (q : Str) → Absent q cells → stored u q ≡ stored t q

complete :
    (cells : List (Cell Str (Option ℕ))) (t : SlotTable) (st : State)
    → IsDistinct cells
    → IsValid t
    → (u : SlotTable) × (st' : State) × (merge_cells false cells t st ≡ some (u, st'))
      × Completed cells t u
unfolding merge_cells merge_slot key_at value_at
complete [] t st distinct v =
    (t, st, refl, record { valid = v; moved = λ q j e. ground arith; kept = λ q absent. refl })
complete (c ∷ cells) t st distinct v = elim (Option-cases c.k) [
  | inl e ↦
      let (u, st', run, w) = complete cells t st later v in
      (
        u,
        st',
        ground (arith, e, run),
        record {
          valid = w.valid;
          moved = λ q. elim [ zero ↦ λ at. ground arith | suc j ↦ λ at. w.moved q j at ];
          kept = λ q absent. w.kept q (λ j. absent (suc j));
        },
      )
  | inr (k, e) ↦
      let (r, first, s) = set_empty_slot-Completes t st k c.v v in
      let (u, st', run, w) = complete cells r.1 r.2 later s.valid in
      (
        u,
        st',
        ground (arith, e, first, run),
        record {
          valid = w.valid;
          moved = λ q. elim [
            | zero ↦ λ at.
                w.kept q (λ j there. absurd (omega (arith, distinct 0 (suc j) q at there)))
                ∙ s.reads q
                ∙ ground (arith, (string_compare_iff k q).1)
            | suc j ↦ λ at.
                let other : k ≢ q =
                  λ same. absurd (omega (arith, distinct 0 (suc j) q (e ∙ ap some same) at)) in
                w.moved q j at ∙ ground (arith, s.reads q, (string_compare_iff k q).0)
          ];
          kept = λ q absent.
              w.kept q (λ j. absent (suc j))
              ∙ s.reads q
              ∙ ground (arith, absent 0, (string_compare_iff k q).0);
        },
      )
]
  where
    later : IsDistinct cells
    later i j q a b = omega (arith, distinct (suc i) (suc j) q a b)

-- The table that the loop starts from: large enough, with the slots of the first table.
start :
    (ta : SlotTable) (st : State) (size : ℕ)
    → IsValid ta
    → (t : SlotTable) × (st' : State) × (expand_to ta st size ≡ some (t, st'))
      × IsValid t
      × ((q : Str) → stored t q ≡ stored ta q)
start ta st size v = elim (expand_to-Grown ta st size v) [
  | inl (large, run) ↦ (ta, st, run, v, λ q. refl)
  | inr (t, st', run, width, g) ↦ (t, st', run, g.valid, g.reads)
]

-- ivm_slot_table_merge of two valid tables with overwriting ends in a valid table; each name maps
-- to what the second table stores under it, and to what the first maps it to where the second has
-- no slot.
pub merge-overwrites :
    (ta : SlotTable) (st : State) (tb : SlotTable)
    → IsValid ta
    → IsValid tb
    → (u : SlotTable) × (st' : State) × (merge ta st tb true ≡ some (u, st'))
      × IsValid u
      × ((q : Str) → get_value u q ≡ elim (stored tb q) [ none ↦ get_value ta q | some v ↦ v ])
unfolding merge
merge-overwrites ta st tb va vb =
    let (t, st₀, first, v, same) = start ta st (length ta.tabl + length tb.tabl) va in
    let (u, st', run, w) =
      overwrite tb.tabl t st₀ (IsPlaced-IsDistinct (home tb) tb.tabl vb.placed (inside vb)) v in
    (
      u,
      st',
      ground (arith, first, run),
      w.valid,
      λ q. elim (lookup_cases (home tb) tb.tabl vb.placed q (inside vb q)) [
        | inl (j, h, at) ↦ ground (
          arith,
          w.moved q j at,
          lookup-present (home tb) tb.tabl vb.placed q (inside vb q) j h at,
          value_at_held tb.tabl j at,
        )
        | inr absent ↦ ground (
          arith,
          w.kept q (λ j there. absent j (key_at-some_lt tb.tabl j there) there),
          lookup-absent (home tb) tb.tabl vb.placed q (inside vb q) absent,
          same q,
          get_value-stored t q,
          get_value-stored ta q,
        )
      ],
    )

-- ivm_slot_table_merge of two valid tables without overwriting ends in a valid table; the first
-- table keeps all its slots, deleted ones too, and takes over those that it has not.
pub merge-completes :
    (ta : SlotTable) (st : State) (tb : SlotTable)
    → IsValid ta
    → IsValid tb
    → (u : SlotTable) × (st' : State) × (merge ta st tb false ≡ some (u, st'))
      × IsValid u
      × ((q : Str) → stored u q ≡ or_else (stored ta q) (stored tb q))
unfolding merge
merge-completes ta st tb va vb =
    let (t, st₀, first, v, same) = start ta st (length ta.tabl + length tb.tabl) va in
    let (u, st', run, w) =
      complete tb.tabl t st₀ (IsPlaced-IsDistinct (home tb) tb.tabl vb.placed (inside vb)) v in
    (
      u,
      st',
      ground (arith, first, run),
      w.valid,
      λ q. elim (lookup_cases (home tb) tb.tabl vb.placed q (inside vb q)) [
        | inl (j, h, at) ↦ ground (
          arith,
          w.moved q j at,
          lookup-present (home tb) tb.tabl vb.placed q (inside vb q) j h at,
          same q,
        )
        | inr absent ↦ ground (
          arith,
          w.kept q (λ j there. absent j (key_at-some_lt tb.tabl j there) there),
          lookup-absent (home tb) tb.tabl vb.placed q (inside vb q) absent,
          same q,
        )
      ],
    )
