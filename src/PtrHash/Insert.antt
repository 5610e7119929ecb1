-- ===== src/PtrHash/Insert.antt =====
-- ivm_pthash_insert, ivm_pthash_insertEmpty and the expansion that both fall back on.
use ivm.Base.{
  ℕ, ◌+◌, ◌*◌, ◌<◌, ◌≡◌, ◌≢◌, refl, sym, ◌∙◌, subst, true, false, none, some, arith, length, set,
  length-set, ◌==◌, if◌then◌else◌, Option-cases, ◌⊎◌, inl, inr,
}
use native.Mathlib.Decide.{ℕ_discrete}
use ivm.Probe.{Cell, key_at, stops_at, is_empty_at, lookup_from}
use ivm.Probe.Scan.{probe-Finds_any}
use ivm.Probe.Layout.{stops_at-true, stops_at-empty}
use ivm.Probe.Table.{
  IsPlaced, held, value_at_held, used-write, write-IsPlaced, lookup-write, lookup-none,
  lookup-absent, key_at-set,
}
use ivm.Probe.Count.{used, used-lt_room, used-le-length, key_at-some_lt}
use ivm.Probe.Refill.{stops_at-Agrees}
use ivm.Probe.Expand.{refill-Expanded}
use ivm.PtrHash.{
  PtrHash, pointer_key, home, find_cell, expand, insert_loop, insert, insert_empty_loop,
  insert_empty,
}
use ivm.PtrHash.Home.{
  IsValid, view, inside, home-lt, find_cell-probe, find_cell-Finds, find_cell-view, value_at_empty,
}

-- Doubling succeeds, keeps every entry, and leaves room.
record Grown (m m' : PtrHash) : Type 0 where
  valid : IsValid m'
  reads : (q : ℕ) → view m' q ≡ view m q
  same : m'.ecount ≡ m.ecount
  count : used m'.table ≡ used m.table
  room : used m'.table < length m'.table

expand-Grown : (m : PtrHash) → IsValid m → (m' : PtrHash) × (expand m ≡ some m') × Grown m m'
unfolding expand
expand-Grown m v =
    let size = length m.table * 2 in
    let (u, run, e) =
      refill-Expanded stops_at stops_at-Agrees (home (length m.table)) (home size) m.table size 0
        v.placed (inside v) (λ q. home-lt size q (omega (arith, v.roomy))) (omega arith) in
    let reads : (q : ℕ) → lookup_from (home (length u) q) q u ≡ view m q =
      λ q. subst (λ n. lookup_from (home n q) q u ≡ view m q) (sym e.width) (e.reads q) in
    let placed = subst (λ n. IsPlaced (home n) u) (sym e.width) e.placed in
    let roomy : 0 < length u = omega (arith, e.width, v.roomy) in
    (
      record m { table = u },
      rw (run, expand),
      record {
        valid = record {
          roomy = roomy;
          placed = placed;
          named = λ j at.
              lookup-none (home (length u)) u placed 0 (home-lt _ 0 roomy)
                (reads 0
                  ∙ lookup-absent (home (length m.table)) m.table v.placed 0 (inside v 0)
                      (λ i _. v.named i))
                j (key_at-some_lt u j at) at;
          counted = omega (arith, e.count, v.counted);
        };
        reads = reads;
        same = refl;
        count = e.count;
        room = omega (arith, e.count, e.width, v.roomy, used-le-length m.table);
      },
    )

-- What storing `v` under `k` does to the table: the map is updated at the key, and the entry
-- counter grows by one, whether or not the key is new.
pub record Stored (m : PtrHash) (k v : ℕ) (m' : PtrHash) : Type 0 where
  pub valid : IsValid m'
  pub reads : (q : ℕ) → view m' q ≡ (if k == q then some v else view m q)
  pub entries : used m'.table + held (view m k) ≡ used m.table + 1
  pub counter : m'.ecount ≡ m.ecount + 1

abbrev write : PtrHash → ℕ → ℕ → ℕ → PtrHash
write m k v i = record {
  table = set m.table i (record { k = some k; v = v });
  ecount = m.ecount + 1;
}

write-Stored :
    (m : PtrHash) (k v i : ℕ)
    → IsValid m
    → k ≢ 0
    → find_cell m k ≡ some i
    → Stored m k v (write m k v i)
unfolding pointer_key
write-Stored m k v i valid named e =
    let s = find_cell-Finds m k i valid named e in
    let c : Cell ℕ ℕ = record { k = some k; v = v } in
    let count = used-write (home (length m.table)) m.table valid.placed k v i s (inside valid k) in
    let width = length-set m.table i c in
    record {
      valid = record {
        roomy = rw width valid.roomy;
        placed =
            subst (λ n. IsPlaced (home n) (set m.table i c)) (sym width)
              (write-IsPlaced (home (length m.table)) m.table valid.placed k v i s);
        named = λ j at. elim (ℕ_discrete i j) [
          | yes met ↦ named (ground (arith, key_at-set m.table i j c s.inside))
          | no past ↦ valid.named j (ground (arith, key_at-set m.table i j c s.inside))
        ];
        counted = omega (arith, count, valid.counted);
      };
      reads = λ q.
          rw width
            (lookup-write (home (length m.table)) m.table valid.placed k v i s q (inside valid q));
      entries = count;
      counter = refl;
    }

-- A table with an empty cell has a cell for every key.
find_cell_room :
    (m : PtrHash) (k : ℕ)
    → IsValid m
    → k ≢ 0
    → used m.table < length m.table
    → (i : ℕ) × (find_cell m k ≡ some i)
find_cell_room m k v named room =
    let (j, h, empty) = used-lt_room m.table room in
    let (i, found, s) =
      probe-Finds_any (stops_at k (key_at m.table)) (length m.table) (home (length m.table) k) j
        (inside v k) h (stops_at-empty k (key_at m.table) j empty) in
    (i, find_cell-probe m k named ∙ found)

-- Storing in the grown table is storing in the table.
store-Grown :
    {k v : ℕ} (m g : PtrHash)
    → Grown m g
    → (i : ℕ) → find_cell g k ≡ some i
    → k ≢ 0
    → Stored m k v (write g k v i)
store-Grown {k} {v} m g w i e named =
    let s = write-Stored g k v i w.valid named e in
    record {
      valid = s.valid;
      reads = λ q. rw (← w.reads q) (s.reads q);
      entries = rw (← w.reads k, ← w.count) s.entries;
      counter = rw (← w.same) s.counter;
    }

-- ivm_pthash_insert of a key other than NULL ends on every valid table; the key then maps to the
-- value, all other keys are unchanged, and the entry counter grows by one whether the key was
-- there or not.
pub insert-Stored :
    (m : PtrHash) (k v : ℕ)
    → IsValid m
    → k ≢ 0
    → (m' : PtrHash) × (insert m k v ≡ some m') × Stored m k v m'
unfolding insert insert_loop
insert-Stored m k v valid named = elim (Option-cases (find_cell m k)) [
  | inr (i, e) ↦ (write m k v i, ground (arith, e), write-Stored m k v i valid named e)
  | inl missed ↦
      let (g, grew, w) = expand-Grown m valid in
      let (i, e) = find_cell_room g k w.valid named w.room in
      (write g k v i, ground (arith, missed, grew, e), store-Grown m g w i e named)
]

-- ivm_pthash_insertEmpty of a key other than NULL ends on every valid table: a key that is there
-- makes it answer false and change nothing, any other is stored and counted.
insert_empty-Stored :
    (m : PtrHash) (k v : ℕ)
    → IsValid m
    → k ≢ 0
    → ((w : ℕ) × (view m k ≡ some w) × (insert_empty m k v ≡ some (false, m)))
      ⊎ ((m' : PtrHash) × (view m k ≡ none)
          × (insert_empty m k v ≡ some (true, m'))
          × Stored m k v m')
unfolding insert_empty insert_empty_loop is_empty_at
insert_empty-Stored m k v valid named = elim (Option-cases (find_cell m k)) [
  | inr (i, e) ↦
      let s = find_cell-Finds m k i valid named e in
      let look = find_cell-view m k named in
      elim (stops_at-true k (key_at m.table) i s.stops) [
        | inr taken ↦
            let (w, there) = value_at_held m.table i taken in inl (w, ground arith, ground arith)
        | inl empty ↦ inr (
          write m k v i,
          ground (arith, value_at_empty m.table i empty),
          ground arith,
          write-Stored m k v i valid named e,
        )
      ]
  | inl missed ↦
      let (g, grew, w) = expand-Grown m valid in
      let (i, e) = find_cell_room g k w.valid named w.room in
      let s = find_cell-Finds g k i w.valid named e in
      let absent : view m k ≡ none = ground (arith, find_cell-view m k named) in
      let stored = store-Grown m g w i e named in
      elim (stops_at-true k (key_at g.table) i s.stops) [
        | inl empty ↦ inr (write g k v i, absent, ground arith, stored)
        | inr taken ↦
            let (x, there) = value_at_held g.table i taken in
            ground (arith, find_cell-view g k named, w.reads k)
      ]
]
