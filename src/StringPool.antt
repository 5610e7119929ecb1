-- ===== src/StringPool.antt =====
-- std/string.c and std/string.h: the pool of constant strings (ivm_string_pool_t), which gives
-- equal strings one copy and an id. `lst` is the list of the registered strings by id
-- (ivm_string_list_push is ivm_ptlist_push), the table maps a string to its id, and its size is
-- the length of the list of cells. A copy on the heap is the string itself.
pub mod Rebuild
pub mod Claim
pub mod Register
use ivm.Base.{
  ℕ, zero, suc, ◌+◌, ◌*◌, Bool, true, false, Option, none, some, List, [], ◌∷◌, ◌++◌, length, set,
  replicate, ◌==◌, if◌then◌else◌,
}
use ivm.Hash.{hash_from_string}
use ivm.Probe.{Cell, zeroed, home_cell, probe, key_at, value_at, stops_at, is_empty_at, refill}
use ivm.Strings.{Str, string_compare, string_key}

-- What `strlen` and `strcmp` see of a string: the bytes before the first NUL.
unfoldable pub c_string : Str → Str
c_string [] = []
c_string (c ∷ s) = let rest = c_string s in if c == 0 then [] else c ∷ rest

-- ivm_hash_fromString of the bytes of a string (RAW_HASH).
unfoldable pub raw_hash : Str → ℕ
raw_hash s = hash_from_string (c_string s)

-- The cell at which the loops of HASH start.
unfoldable pub home : ℕ → Str → ℕ
unfolding raw_hash
home size s = home_cell size (raw_hash s)

pub record StringPool : Type 0 where
  pub table : List (Cell Str ℕ)
  pub lst : List Str

-- ivm_string_pool_init
unfoldable pub init : StringPool
init = record { table = replicate 32 (zeroed 0); lst = [] }

-- The strings with their ids, as the loops over the list hand them to _ivm_string_pool_rehash.
unfoldable pub numbered : ℕ → List Str → List (Cell Str ℕ)
numbered id [] = []
numbered id (s ∷ lst) = record { k = some s; v = id } ∷ numbered (suc id) lst

-- A table of `size` cells for the strings; none where a rehash finds no cell.
unfoldable pub rebuild : ℕ → List Str → Option (List (Cell Str ℕ))
rebuild size lst =
    refill (λ _. is_empty_at) (home size) (numbered 0 lst) (replicate size (zeroed 0))

-- ivm_string_pool_new_t
unfoldable pub new_t : List Str → Option StringPool
new_t lst = elim (rebuild (length lst * 4) lst) [
  | none ↦ none
  | some t ↦ some (record { table = t; lst = lst })
]

-- _ivm_string_pool_expand
unfoldable pub expand : StringPool → Option StringPool
expand p = elim (rebuild (length p.table * 2) p.lst) [
  | none ↦ none
  | some t ↦ some (record p { table = t })
]

-- The loop of HASH with CHECK or CHECK_I, where `test` is the test for a cell and `hash` the hash
-- of `s`: the cell that the string has in the end, and the pool. None is fuel that ran out.
unfoldable pub claim_loop :
    (Str → (ℕ → Option Str) → ℕ → Bool) → ℕ → ℕ → Str → StringPool → Option (ℕ × StringPool)
claim_loop test zero hash s p = none
claim_loop test (suc fuel) hash s p =
    elim (probe (test s (key_at p.table)) (length p.table) (home_cell (length p.table) hash)) [
      | some i ↦ some (
        i,
        if is_empty_at (key_at p.table) i
            then record {
              table = set p.table i (record { k = some s; v = length p.lst });
              lst = p.lst ++ s ∷ [];
            }
            else p,
      )
      | none ↦ elim (expand p) [ none ↦ none | some p' ↦ claim_loop test fuel hash s p' ]
    ]

-- CHECK returns the key of the cell, CHECK_I its value.
abbrev pub claimed_key : Option (ℕ × StringPool) → Option (Str × StringPool)
claimed_key none = none
claimed_key (some (i, p)) = elim (key_at p.table i) [ none ↦ none | some s ↦ some (s, p) ]

abbrev pub claimed_id : Option (ℕ × StringPool) → Option (ℕ × StringPool)
claimed_id none = none
claimed_id (some (i, p)) = elim (value_at p.table i) [ none ↦ none | some id ↦ some (id, p) ]

-- ivm_string_pool_register and ivm_string_pool_register_i
unfoldable pub register : StringPool → Str → Option (Str × StringPool)
register p s = claimed_key (claim_loop stops_at 2 (raw_hash s) s p)

unfoldable pub register_i : StringPool → Str → Option (ℕ × StringPool)
register_i p s = claimed_id (claim_loop stops_at 2 (raw_hash s) s p)

-- `!i->k || !ivm_string_compareToRaw(i->k, str)`, where `str` ends before its first NUL.
unfoldable pub stops_raw : Str → (ℕ → Option Str) → ℕ → Bool
stops_raw s f i = elim (f i) [ none ↦ true | some r ↦ string_compare (c_string r) s ]

-- ivm_string_pool_registerRaw and ivm_string_pool_registerRaw_i
unfoldable pub register_raw : StringPool → Str → Option (Str × StringPool)
register_raw p s = claimed_key (claim_loop stops_raw 2 (raw_hash s) s p)

unfoldable pub register_raw_i : StringPool → Str → Option (ℕ × StringPool)
register_raw_i p s = claimed_id (claim_loop stops_raw 2 (raw_hash s) s p)

-- ivm_string_pool_registerRaw_n and ivm_string_pool_registerRaw_ni, which hash all `len` bytes.
unfoldable pub register_raw_n : StringPool → Str → Option (Str × StringPool)
register_raw_n p s = claimed_key (claim_loop stops_at 2 (hash_from_string s) s p)

unfoldable pub register_raw_ni : StringPool → Str → Option (ℕ × StringPool)
register_raw_ni p s = claimed_id (claim_loop stops_at 2 (hash_from_string s) s p)

-- ivm_string_pool_find, whose loop expands a full pool too: the id, none being -1, and the pool.
unfoldable pub find_loop : ℕ → Str → StringPool → Option (Option ℕ × StringPool)
find_loop zero s p = none
find_loop (suc fuel) s p =
    elim (probe (stops_at s (key_at p.table)) (length p.table) (home (length p.table) s)) [
      | some i ↦ some (value_at p.table i, p)
      | none ↦ elim (expand p) [ none ↦ none | some p' ↦ find_loop fuel s p' ]
    ]

unfoldable pub find : StringPool → Str → Option (Option ℕ × StringPool)
find p s = find_loop 2 s p
