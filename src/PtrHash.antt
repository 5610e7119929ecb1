-- ===== src/PtrHash.antt =====
-- std/hash.h and std/hash.c: the hash table from pointers to pointers (ivm_pthash_t).
-- `table->size` is the length of the list of cells. A pointer is a number, NULL is 0.
pub mod Home
pub mod Insert
pub mod Gap
pub mod Shift
pub mod Measure
pub mod Clear
pub mod Remove
use ivm.Base.{
  ℕ, zero, suc, ◌+◌, ◌-◌, ◌*◌, Bool, true, false, ◌&&◌, ◌||◌, Option, none, some, List, length,
  get_elem?, set, replicate, or_else, ltb, leb, ◌==◌, ==_iff, if◌then◌else◌,
}
use ivm.Hash.{hash_from_pointer}
use ivm.Probe.{
  Key, Cell, zeroed, home_cell, scan, probe, key_at, value_at, stops_at, is_empty_at, lookup_from,
  rehash, refill,
}

pub record PtrHash : Type 0 where
  pub table : List (Cell ℕ ℕ)
  pub ecount : ℕ

nat_eq : ℕ → ℕ → Bool
nat_eq a b = a == b

instance abbrev pub pointer_key : Key ℕ
unfolding nat_eq
pointer_key = record { equal = nat_eq; hash = hash_from_pointer; equal_iff = ==_iff }

-- The cell `hash & (table->size - 1)` at which the probe for a key starts.
unfoldable pub home : ℕ → ℕ → ℕ
unfolding home_cell hash_from_pointer
home size k = home_cell size (hash_from_pointer k)

unfoldable pub init : PtrHash
init = record { table = replicate 8 (zeroed 0); ecount = 0 }

-- _ivm_pthash_find_c: the index of the cell, none for NULL.
unfoldable pub find_cell : PtrHash → ℕ → Option ℕ
find_cell m k =
    if k == 0
    then none
    else probe (stops_at k (key_at m.table)) (length m.table) (home (length m.table) k)

-- ivm_pthash_find
unfoldable pub find : PtrHash → ℕ → ℕ
find m k = elim (find_cell m k) [
  | none ↦ 0
  | some i ↦ elim (value_at m.table i) [ none ↦ 0 | some v ↦ v ]
]

-- _ivm_pthash_expand, with _ivm_pthash_rehash in its loop.
unfoldable pub expand : PtrHash → Option PtrHash
expand m =
    let size = length m.table * 2 in
    elim (refill stops_at (home size) m.table (replicate size (zeroed 0))) [
      | none ↦ none
      | some t ↦ some (record m { table = t })
    ]

-- `while (1)` of ivm_pthash_insert; none stands for a fatal error or for fuel that ran out.
unfoldable pub insert_loop : ℕ → ℕ → ℕ → PtrHash → Option PtrHash
insert_loop zero k v m = none
insert_loop (suc fuel) k v m = elim (find_cell m k) [
  | some i ↦
      some (record { table = set m.table i (record { k = some k; v = v }); ecount = m.ecount + 1 })
  | none ↦ elim (expand m) [ none ↦ none | some m' ↦ insert_loop fuel k v m' ]
]

unfoldable pub insert : PtrHash → ℕ → ℕ → Option PtrHash
insert m k v = if k == 0 then some m else insert_loop 2 k v m

-- `while (1)` of ivm_pthash_insertEmpty
unfoldable pub insert_empty_loop : ℕ → ℕ → ℕ → PtrHash → Option (Bool × PtrHash)
insert_empty_loop zero k v m = none
insert_empty_loop (suc fuel) k v m = elim (find_cell m k) [
  | some i ↦ some (
      if is_empty_at (key_at m.table) i
      then (
        true,
        record { table = set m.table i (record { k = some k; v = v }); ecount = m.ecount + 1 },
      )
      else (false, m))
  | none ↦ elim (expand m) [ none ↦ none | some m' ↦ insert_empty_loop fuel k v m' ]
]

unfoldable pub insert_empty : PtrHash → ℕ → ℕ → Option (Bool × PtrHash)
insert_empty m k v = if k == 0 then some (false, m) else insert_empty_loop 2 k v m

-- The tests that the two loops of ivm_pthash_remove make at cell `i` for the gap `g`: the first
-- loop runs over the cells above the gap, the second over those below it. Both stop at an empty
-- cell (goto SUC) and at one whose key may fill the gap (goto FILL).
unfoldable pub fills_above : List (Cell ℕ ℕ) → ℕ → ℕ → Bool
fills_above t g i = elim (key_at t i) [
  | none ↦ true
  | some q ↦ let h = home (length t) q in leb h g || ltb i h
]

unfoldable pub fills_below : List (Cell ℕ ℕ) → ℕ → ℕ → Bool
fills_below t g i = elim (key_at t i) [
  | none ↦ true
  | some q ↦ let h = home (length t) q in ltb i h && leb h g
]

unfoldable pub next_filler : List (Cell ℕ ℕ) → ℕ → Option ℕ
next_filler t g =
    or_else (scan (fills_above t g) (suc g) (length t - suc g)) (scan (fills_below t g) 0 g)

-- `*gap = *i; gap = i; gap->k = NULL;`
unfoldable pub move_cell : List (Cell ℕ ℕ) → ℕ → ℕ → List (Cell ℕ ℕ)
move_cell t g i = elim (get_elem? t i) [
  | none ↦ t
  | some c ↦ set (set t g c) i (record c { k = none })
]

-- `while (1)` of ivm_pthash_remove, from the gap on; none for fuel that ran out.
unfoldable pub shift : ℕ → List (Cell ℕ ℕ) → ℕ → Option (List (Cell ℕ ℕ))
shift zero t g = none
shift (suc fuel) t g = elim (next_filler t g) [
  | none ↦ some t
  | some i ↦
      let next = shift fuel (move_cell t g i) i in if is_empty_at (key_at t) i then some t else next
]

-- `gap->k = NULL`
unfoldable pub clear_key : List (Cell ℕ ℕ) → ℕ → List (Cell ℕ ℕ)
clear_key t g = elim (get_elem? t g) [ none ↦ t | some c ↦ set t g (record c { k = none }) ]

-- ivm_pthash_remove: found or not, and the table.
unfoldable pub remove : PtrHash → ℕ → Option (Bool × PtrHash)
remove m k = elim (find_cell m k) [
  | none ↦ some (false, m)
  | some g ↦
      if is_empty_at (key_at m.table) g
      then some (false, m)
      else elim (shift (length m.table * length m.table + 1) (clear_key m.table g) g) [
        | none ↦ none
        | some t ↦ some (true, record { table = t; ecount = m.ecount - 1 })
      ]
]
