-- ===== src/Serial/Program.antt =====
-- util/serial.c: executables in the form of the cache file, where a name is its id in the pool.
use ivm.Base.{
  ℕ, suc, not, Option, none, some, List, [], ◌∷◌, ◌++◌, map, length, get_elem?, ◌==◌, if◌then◌else◌,
}
use ivm.Strings.{Str}
use ivm.StringPool.{StringPool, register_i}
use ivm.Exec.{Instr, Param, ParamList, Exec, set_param, exec_new, add_instrs}
use ivm.Serial.Data.{SerialInstr, SerialParam, SerialExec, flag}

-- The line of an instruction that has none: -1 as an unsigned int.
abbrev pub no_line : ℕ
no_line = 4294967295

-- The loop of _ivm_serial_serializeParam; a parameter without a name is a read of NULL.
unfoldable pub serialize_params : List Param → StringPool → Option (List SerialParam × StringPool)
serialize_params [] pool = some ([], pool)
serialize_params (p ∷ ps) pool = elim p.name [
  | none ↦ none
  | some s ↦ elim (register_i pool s) [
    | none ↦ none
    | some (id, pool') ↦ elim (serialize_params ps pool') [
      | none ↦ none
      | some (sps, pool'') ↦ some (record { name = id; is_varg = flag p.is_varg } ∷ sps, pool'')
    ]
  ]
]

abbrev pub serialize_instr : Instr → SerialInstr
serialize_instr i = record { opc = i.opc; arg = i.arg }

-- ivm_instr_build
abbrev pub unserialize_instr : SerialInstr → Instr
unserialize_instr i = record { opc = i.opc; arg = i.arg; lineno = no_line }

-- _ivm_serial_serializeExec: none is the failure of its assertion that nothing is cached.
unfoldable pub serialize_exec : Exec → StringPool → ℕ → Option (SerialExec × StringPool)
serialize_exec e pool pool_id =
    if e.cached then none else elim (serialize_params e.params.param pool) [
      | none ↦ none
      | some (sps, pool') ↦
          some
            (record { pool = pool_id; param = sps; instrs = map serialize_instr e.instrs }, pool')
    ]

-- The loop over the parameters in _ivm_serial_unserializeExec, from the parameter `cur` on.
unfoldable pub set_params : List Str → ℕ → List SerialParam → ParamList → Option ParamList
set_params strings cur [] l = some l
set_params strings cur (sp ∷ sps) l = elim (get_elem? strings sp.name) [
  | none ↦ none
  | some s ↦ elim (set_param l cur s (not (sp.is_varg == 0))) [
    | none ↦ none
    | some l' ↦ set_params strings (suc cur) sps l'
  ]
]

-- _ivm_serial_unserializeExec, over the strings of the pools.
unfoldable pub unserialize_exec : SerialExec → List (List Str) → Option Exec
unserialize_exec se pools = elim (get_elem? pools se.pool) [
  | none ↦ none
  | some strings ↦
      let e = exec_new se.pool (length se.param) in
      elim (set_params strings 0 se.param e.params) [
        | none ↦ none
        | some l ↦ add_instrs (record e { params = l }) (map unserialize_instr se.instrs)
      ]
]

-- ivm_string_pool_list_find: the index of a pool by its address.
unfoldable pub find_pool : ℕ → List ℕ → Option ℕ
find_pool pool [] = none
find_pool pool (p ∷ ps) =
    let rest = find_pool pool ps in
    if p == pool then some 0 else elim rest [ none ↦ none | some i ↦ some (suc i) ]

-- The pools by their addresses, after one has changed.
abbrev pub put_pool : (ℕ → StringPool) → ℕ → StringPool → ℕ → StringPool
put_pool store at pool a = if at == a then pool else store a

-- The id of a pool, which is entered when it is new.
unfoldable pub enter_pool : ℕ → List ℕ → ℕ × List ℕ
enter_pool pool pools = elim (find_pool pool pools) [
  | some id ↦ (id, pools)
  | none ↦ (length pools, pools ++ pool ∷ [])
]

-- The loop of _ivm_serial_serializeExecList, with the list of pools that are met so far; the pools
-- are shared, so that they stand in a store.
unfoldable pub serialize_execs :
    List Exec → List ℕ → (ℕ → StringPool) → Option (List SerialExec × List ℕ × (ℕ → StringPool))
serialize_execs [] pools store = some ([], pools, store)
serialize_execs (e ∷ es) pools store =
    let (id, pools') = enter_pool e.pool pools in
    elim (serialize_exec e (store e.pool) id) [
      | none ↦ none
      | some (se, pool) ↦ elim (serialize_execs es pools' (put_pool store e.pool pool)) [
        | none ↦ none
        | some (ses, pools'', store') ↦ some (se ∷ ses, pools'', store')
      ]
    ]

-- _ivm_serial_unserializeExecList
unfoldable pub unserialize_execs : List SerialExec → List (List Str) → Option (List Exec)
unserialize_execs [] pools = some []
unserialize_execs (se ∷ ses) pools = elim (unserialize_exec se pools) [
  | none ↦ none
  | some e ↦ elim (unserialize_execs ses pools) [ none ↦ none | some es ↦ some (e ∷ es) ]
]
