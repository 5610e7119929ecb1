-- ===== src/PtrHash/Home.antt =====
-- The home cell lies in the table; the invariant of the pointer table and the map that it stands for.
use ivm.Base.{
  ℕ, ◌-◌, ◌≤◌, ◌<◌, ◌≡◌, ◌≢◌, sym, ◌∙◌, Option, none, some, List, arith, length, replicate,
  bit_and-le, ◌==◌, if◌then◌else◌,
}
use ivm.Hash.{hash_from_pointer}
use ivm.Probe.{Cell, home_cell, key_at, value_at, probe, stops_at, lookup_from}
use ivm.Probe.Scan.{Finds, probe-Finds}
use ivm.Probe.Table.{IsPlaced}
use ivm.Probe.Count.{used, used-replicate, key_at-replicate}
use ivm.Probe.Expand.{replicate-IsPlaced, lookup-replicate}
use ivm.PtrHash.{PtrHash, pointer_key, home, init, find_cell, find}

pub home-lt : (size k : ℕ) → 0 < size → home size k < size
unfolding home home_cell
home-lt size k h = omega (arith, bit_and-le (hash_from_pointer k) (size - 1))

-- The value under a key.
abbrev pub view : PtrHash → ℕ → Option ℕ
view m q = lookup_from (home (length m.table) q) q m.table

pub record IsValid (m : PtrHash) : Type 0 where
  pub roomy : 0 < length m.table
  pub placed : IsPlaced (home (length m.table)) m.table
  pub named : (j : ℕ) → key_at m.table j ≢ some 0
  pub counted : used m.table ≤ m.ecount

pub inside : {m : PtrHash} → IsValid m → (q : ℕ) → home (length m.table) q < length m.table
inside v q = home-lt _ q v.roomy

-- A new pointer table is valid and maps no key.
pub init-empty : IsValid init × ((q : ℕ) → view init q ≡ none)
unfolding init replicate
init-empty = (
  record {
    roomy = omega arith;
    placed = replicate-IsPlaced {V = ℕ} (home 8) 8 0;
    named = λ j e. ground (arith, key_at-replicate ℕ {V = ℕ} 8 j 0);
    counted = omega (arith, used-replicate ℕ {V = ℕ} 8 0);
  },
  λ q. lookup-replicate {V = ℕ} (home 8) 8 0 q (home-lt 8 q (omega arith)),
)

pub find_cell-probe :
    (m : PtrHash) (k : ℕ)
    → k ≢ 0
    → find_cell m k ≡ probe (stops_at k (key_at m.table)) (length m.table) (home (length m.table) k)
unfolding find_cell
find_cell-probe m k named = ground arith

pub find_cell-Finds :
    (m : PtrHash) (k i : ℕ)
    → IsValid m
    → k ≢ 0
    → find_cell m k ≡ some i
    → Finds (stops_at k (key_at m.table)) (length m.table) (home (length m.table) k) i
find_cell-Finds m k i v named e =
    probe-Finds _ (length m.table) (home (length m.table) k) i (inside v k)
      (sym (find_cell-probe m k named) ∙ e)

-- A lookup returns the value under the key, and NULL where there is none or the key is NULL.
pub find-view :
    (m : PtrHash) (k : ℕ)
    → find m k ≡ (if k == 0 then 0 else elim (view m k) [ none ↦ 0 | some v ↦ v ])
unfolding find find_cell lookup_from
find-view m k = ground arith

-- The value under a key is what stands in the cell that the probe for it finds.
pub find_cell-view :
    (m : PtrHash) (k : ℕ)
    → k ≢ 0
    → view m k ≡ elim (find_cell m k) [ none ↦ none | some i ↦ value_at m.table i ]
unfolding find_cell lookup_from
find_cell-view m k named = ground arith

pub find_cell-null : (m : PtrHash) (k : ℕ) → k ≡ 0 → find_cell m k ≡ none
unfolding find_cell
find_cell-null m k e = ground arith

pub value_at_empty : (t : List (Cell ℕ ℕ)) (i : ℕ) → key_at t i ≡ none → value_at t i ≡ none
unfolding key_at value_at
value_at_empty t i e = ground arith
