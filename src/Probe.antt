-- ===== src/Probe.antt =====
-- The loop that every table of the code probes with: from the home cell to the end, then from
-- the start to the home cell (std/hash.h, std/string.c, vm/inline/slot.h). A cell whose key is
-- NULL is empty. The test that a loop makes at a cell is a function of the cell's index.
pub mod Scan
pub mod Layout
pub mod Table
pub mod Count
pub mod Refill
pub mod Expand
use ivm.Base.{
  ℕ, zero, suc, ◌+◌, ◌-◌, bit_and, Bool, true, false, Option, none, some, List, [], ◌∷◌, get_elem?,
  set, length, replicate, or_else, if◌then◌else◌, ◌≡◌, ◌↔◌,
}

-- What the tables ask of their keys: a comparison that decides equality, and a hash.
pub record Key {ℓ} (K : Type ℓ) : Type ℓ where
  pub equal : K → K → Bool
  pub hash : K → ℕ
  pub equal_iff : (a b : K) → (equal a b ≡ true) ↔ (a ≡ b)

-- `for (i = from; n cells; i++) if (test(i)) return i;`
unfoldable pub scan : (ℕ → Bool) → ℕ → ℕ → Option ℕ
scan test from zero = none
scan test from (suc n) = let rest = scan test (suc from) n in if test from then some from else rest

-- The two loops, over a table of `size` cells.
unfoldable pub probe : (ℕ → Bool) → ℕ → ℕ → Option ℕ
unfolding scan
probe test size home = or_else (scan test home (size - home)) (scan test 0 home)

pub record Cell {ℓ} (K V : Type ℓ) : Type ℓ where
  pub k : Option K
  pub v : V

-- A cell of freshly zeroed memory, `zero` being what zero bytes are as a value.
abbrev pub zeroed {ℓ} : {K V : Type ℓ} → V → Cell K V
zeroed zero_value = record { k = none; v = zero_value }

-- `hash & (table->size - 1)`
unfoldable pub home_cell : ℕ → ℕ → ℕ
home_cell size hash = bit_and hash (size - 1)

module _ {ℓ} {K V : Type ℓ} where
  -- The key in the `i`-th cell, none where it is NULL.
  unfoldable pub key_at : List (Cell K V) → ℕ → Option K
  key_at t i = elim (get_elem? t i) [ none ↦ none | some c ↦ c.k ]

  -- `i->v` of an occupied cell.
  unfoldable pub value_at : List (Cell K V) → ℕ → Option V
  value_at t i = elim (get_elem? t i) [
    | none ↦ none
    | some c ↦ elim c.k [ none ↦ none | some _ ↦ some c.v ]
  ]

-- `!i->k`, over the keys of the cells.
unfoldable pub is_empty_at {ℓ} : {K : Type ℓ} → (ℕ → Option K) → ℕ → Bool
is_empty_at f i = elim (f i) [ none ↦ true | some _ ↦ false ]

-- `!i->k || compare(i->k, key)`
unfoldable pub stops_at {ℓ} : {K : Type ℓ} ⦃key : Key K⦄ → K → (ℕ → Option K) → ℕ → Bool
stops_at ⦃key⦄ q f i = elim (f i) [ none ↦ true | some r ↦ key.equal r q ]

module _ {ℓ} {K V : Type ℓ} ⦃key : Key K⦄ where
  -- The value that a lookup of `q` from the cell `home` finds.
  unfoldable pub lookup_from : ℕ → K → List (Cell K V) → Option V
  unfolding stops_at key_at probe value_at
  lookup_from home q t = elim (probe (stops_at q (key_at t)) (length t) home) [
    | none ↦ none
    | some i ↦ value_at t i
  ]

  -- `_rehash(table, i->k, i->v)`: the pair goes to the cell at which the loop's test holds, and
  -- none is the `IVM_FATAL("impossible")` behind the loops.
  unfoldable pub rehash :
      (K → (ℕ → Option K) → ℕ → Bool) → ℕ → K → V → List (Cell K V) → Option (List (Cell K V))
  rehash test home k v t = elim (probe (test k (key_at t)) (length t) home) [
    | none ↦ none
    | some i ↦ some (set t i (record { k = some k; v = v }))
  ]

  -- The loop of an expansion over the cells of the old table: `if (i->k) _rehash(...)`.
  unfoldable pub refill :
      (K → (ℕ → Option K) → ℕ → Bool)
      → (K → ℕ)
      → List (Cell K V)
      → List (Cell K V)
      → Option (List (Cell K V))
  refill test home [] t = some t
  refill test home (c ∷ cs) t = elim c.k [
    | none ↦ refill test home cs t
    | some k ↦ elim (rehash test (home k) k c.v t) [ none ↦ none | some u ↦ refill test home cs u ]
  ]
