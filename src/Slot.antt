-- ===== src/Slot.antt =====
-- vm/slot.h, vm/slot.c and vm/inline/slot.h: the table of an object's slots, from names to objects.
-- A table starts as a list that is scanned from its first cell; from six cells on it is a hash
-- table. An object is a number, NULL is none; a cell with a key and no object is a deleted slot.
-- A name is its bytes: constants and other strings compare by contents (ivm_string_compare).
-- Memory allocation succeeds; the table's size is the length of the list of cells.
pub mod Setters
pub mod Caching
pub mod Table
pub mod Grow
pub mod Barrier
pub mod Set
pub mod Empty
pub mod Merge
pub mod Coherent
pub mod Traced
pub mod Cached
pub mod Sharing
pub mod Oops
use ivm.Base.{
  ℕ, zero, suc, ◌+◌, ◌-◌, ◌*◌, Bool, true, false, not, ◌&&◌, Option, none, some, List, [], ◌∷◌,
  ◌++◌, length, set, replicate, ltb, leb, ◌==◌, if◌then◌else◌, ◌≡◌, ◌↔◌, refl, arith,
}
use ivm.Hash.{hash_from_string}
unfoldable pub use ivm.Strings.{Str, string_compare, string_key}
pub use ivm.Strings.{string_compare_iff}
use ivm.Probe.{
  Key, Cell, zeroed, home_cell, scan, probe, key_at, value_at, stops_at, is_empty_at, refill,
}

-- ivm_slot_table_t: `self` is the table's address, `copy` what the collector moved it to.
pub record SlotTable : Type 0 where
  pub self : ℕ
  pub tabl : List (Cell Str (Option ℕ))
  pub block_oop : ℕ
  pub is_hash : Bool
  pub is_shared : Bool
  pub no_cow : Bool
  pub wb : Bool
  pub gen : Bool
  pub copy : Option ℕ
  pub uid : ℕ

-- What of the VM's state slot tables use: the counter of table ids, the collector's list of
-- tables behind the write barrier, and the generation of each object.
pub record State : Type 0 where
  pub st_uid : ℕ
  pub wb_slot : List ℕ
  pub obj_gen : ℕ → Bool

-- ivm_slot_table_updateUID
unfoldable pub update_uid : SlotTable → State → SlotTable × State
update_uid t st = (record t { uid = st.st_uid + 1 }, record st { st_uid = st.st_uid + 1 })

-- The first cell that is empty or holds the key: the loops of GET_SLOT and SET_SLOT.
unfoldable pub find_slot : SlotTable → Str → Option ℕ
find_slot t k =
    if t.is_hash
    then probe (stops_at k (key_at t.tabl)) (length t.tabl)
        (home_cell (length t.tabl) (hash_from_string k))
    else scan (stops_at k (key_at t.tabl)) 0 (length t.tabl)

-- What is stored in a cell: none for an empty cell, and for a deleted slot.
unfoldable pub object_at : SlotTable → ℕ → Option ℕ
object_at t i = elim (value_at t.tabl i) [ none ↦ none | some v ↦ v ]

-- GET_SLOT without a cache (ivm_slot_table_getSlot): the index of the slot.
unfoldable pub get_slot : SlotTable → Str → Option ℕ
get_slot t k = elim (find_slot t k) [
  | none ↦ none
  | some i ↦ elim (object_at t i) [ none ↦ none | some _ ↦ some i ]
]

-- ivm_slot_getValue of the slot found.
unfoldable pub get_value : SlotTable → Str → Option ℕ
get_value t k = elim (get_slot t k) [ none ↦ none | some i ↦ object_at t i ]

-- _ivm_slot_table_init over fresh memory at the address `self`.
unfoldable pub init : ℕ → ℕ → Bool → State → SlotTable × State
unfolding update_uid
init self size gen st =
    let size₁ = if ltb size 4 then 4 else size in
    let hashed = leb 6 size₁ in
    update_uid
      (record {
        self = self;
        tabl = replicate (if hashed then size₁ * 2 else size₁) (zeroed none);
        block_oop = 0;
        is_hash = hashed;
        is_shared = false;
        no_cow = false;
        wb = false;
        gen = gen;
        copy = none;
        uid = 0;
      })
      st

-- The new cells of an expansion, to `size` cells: none for the fatal error of a rehash.
unfoldable pub expand_cells :
    Bool → ℕ → List (Cell Str (Option ℕ)) → Option (List (Cell Str (Option ℕ)))
expand_cells true size cells =
    refill (λ _. is_empty_at) (λ k. home_cell size (hash_from_string k)) cells
      (replicate size (zeroed none))
expand_cells false size cells = some (cells ++ replicate (size - length cells) (zeroed none))

-- The common part of _ivm_slot_table_expand and ivm_slot_table_expandTo: a new table of `size` cells.
unfoldable pub resize : SlotTable → State → ℕ → Option (Bool × SlotTable × State)
resize t st size =
    let (t₁, st₁) = update_uid t st in
    let hashes = not t.is_hash && leb 6 size in
    let hashed = if hashes then true else t.is_hash in
    elim (expand_cells hashed size t.tabl) [
      | none ↦ none
      | some cells ↦ some (hashes, record t₁ { tabl = cells; is_hash = hashed }, st₁)
    ]

-- _ivm_slot_table_expand: did the table turn into a hash table, and the table.
unfoldable pub expand : SlotTable → State → Option (Bool × SlotTable × State)
expand t st = resize t st (length t.tabl * 2)

-- ivm_slot_table_expandTo
unfoldable pub expand_to : SlotTable → State → ℕ → Option (SlotTable × State)
expand_to t st to =
    if leb to (length t.tabl)
    then some (t, st)
    else elim (resize t st (to * 2)) [ none ↦ none | some (_, t', st') ↦ some (t', st') ]
