-- ===== src/Serial/Format.antt =====
-- The format of a cache file: what is written is read back, and what is read is in range.
use ivm.Base.{
  ℕ, ◌+◌, ◌<◌, ◌≡◌, refl, Bool, true, false, not, some, List, [], ◌∷◌, ◌++◌, length, take_append,
  length-append, lt→ltb, ◌==◌, append_assoc, arith,
}
use ivm.Serial.{
  ◌>>=◌, read_int, capacity, read_bytes, write_many, Recovers, All, All-map, read_int-write_int,
  read_bytes-append, read_many-write_many, PoolString, SerialInstr, SerialParam, SerialExec,
  SerialUnit, flag, write_string, read_string, write_string_pool, read_string_pool, write_pool_list,
  read_pool_list, write_param, read_param, write_instr, read_instr, write_exec, read_param_list,
  read_exec, read_exec_in, write_unit, read_exec_list, read_unit, encode_unit, decode_unit,
  read_behind,
}

-- Numbers and counts fit into the fields of the format.
abbrev pub StringFits : PoolString → Type 0
StringFits s = length s.cont < capacity 8

abbrev pub PoolFits : List PoolString → Type 0
PoolFits pool = (length pool < capacity 8) × All StringFits pool

abbrev pub ParamFits : SerialParam → Type 0
ParamFits p = (p.name < capacity 8) × (p.is_varg < capacity 1)

abbrev pub InstrFits : SerialInstr → Type 0
InstrFits i = (i.opc < capacity 1) × (i.arg < capacity 8)

-- An executable whose pool is one of `pools` pools.
pub record ExecFits (pools : ℕ) (e : SerialExec) : Type 0 where
  pub pool : e.pool < capacity 8
  pub inside : e.pool < pools
  pub params : length e.param < capacity 8
  pub size : length e.instrs < capacity 8
  pub param : All ParamFits e.param
  pub instrs : All InstrFits e.instrs

pub record UnitFits (u : SerialUnit) : Type 0 where
  pub root : u.root < capacity 8
  pub pools : length u.pool_list < capacity 8
  pub size : length u.execs < capacity 8
  pub pool_list : All PoolFits u.pool_list
  pub execs : All (ExecFits (length u.pool_list)) u.execs

read_byte : (b : ℕ) (rest : List ℕ) → read_int 1 (b ∷ rest) ≡ some (b, rest)
unfolding read_int
read_byte b rest = ground arith

flag_back : (b : Bool) → not (flag b == 0) ≡ b
flag_back true = refl
flag_back false = refl

string-Recovers : (s : PoolString) → StringFits s → Recovers read_string write_string s
unfolding read_string write_string
string-Recovers s h rest =
    let behind = (s.cont ++ 0 ∷ []) ++ rest in
    let bytes : read_bytes (length s.cont + 1) behind ≡ some (s.cont ++ 0 ∷ [], rest) =
      rw (← length-append s.cont (0 ∷ [])) (read_bytes-append (s.cont ++ 0 ∷ []) rest) in
    rw
      (
        append_assoc,
        ◌>>=◌,
        read_int-write_int 8 (length s.cont) h,
        ◌>>=◌,
        read_byte (flag s.is_const) behind,
        bytes,
        take_append,
        flag_back,
      )
      refl

param-Recovers : (p : SerialParam) → ParamFits p → Recovers read_param write_param p
unfolding read_param write_param
param-Recovers p (h, k) rest =
    rw (append_assoc, ◌>>=◌, read_int-write_int 8 p.name h, read_int-write_int 1 p.is_varg k) refl

instr-Recovers : (i : SerialInstr) → InstrFits i → Recovers read_instr write_instr i
unfolding read_instr write_instr
instr-Recovers i (h, k) rest =
    rw (append_assoc, ◌>>=◌, read_int-write_int 1 i.opc h, read_int-write_int 8 i.arg k) refl

pool-Recovers : (p : List PoolString) → PoolFits p → Recovers read_string_pool write_string_pool p
unfolding read_string_pool write_string_pool
pool-Recovers p (h, k) rest =
    rw (append_assoc, ◌>>=◌, read_int-write_int 8 (length p) h)
      (read_many-write_many read_string write_string p (All-map string-Recovers p k) rest)

pool_list-Recovers :
    (ps : List (List PoolString))
    → length ps < capacity 8
    → All PoolFits ps
    → Recovers read_pool_list write_pool_list ps
unfolding read_pool_list write_pool_list
pool_list-Recovers ps h k rest =
    rw (append_assoc, ◌>>=◌, read_int-write_int 8 (length ps) h)
      (read_many-write_many read_string_pool write_string_pool ps (All-map pool-Recovers ps k) rest)

exec-Recovers :
    (pools : ℕ) (e : SerialExec) → ExecFits pools e → Recovers (read_exec_in pools) write_exec e
unfolding read_exec_in read_exec write_exec read_param_list
exec-Recovers pools e f rest =
    let behind = write_many write_instr e.instrs ++ rest in
    let params =
      read_many-write_many read_param write_param e.param (All-map param-Recovers e.param f.param)
        behind in
    let instrs =
      read_many-write_many read_instr write_instr e.instrs
        (All-map instr-Recovers e.instrs f.instrs) rest in
    rw
      (
        append_assoc,
        ◌>>=◌,
        read_int-write_int 8 e.pool f.pool,
        append_assoc,
        ◌>>=◌,
        read_int-write_int 8 (length e.instrs) f.size,
        append_assoc,
        ◌>>=◌,
        read_int-write_int 8 (length e.param) f.params,
        append_assoc,
        ◌>>=◌,
        params,
        ◌>>=◌,
        instrs,
        lt→ltb e.pool pools f.inside,
      )
      refl

unit-Recovers : (u : SerialUnit) → UnitFits u → Recovers read_unit write_unit u
unfolding read_unit write_unit read_exec_list
unit-Recovers u f rest =
    let n = length u.pool_list in
    let execs =
      read_many-write_many (read_exec_in n) write_exec u.execs
        (All-map (exec-Recovers n) u.execs f.execs) rest in
    rw
      (
        append_assoc,
        ◌>>=◌,
        read_int-write_int 8 u.root f.root,
        append_assoc,
        ◌>>=◌,
        pool_list-Recovers u.pool_list f.pools f.pool_list,
        append_assoc,
        ◌>>=◌,
        read_int-write_int 8 (length u.execs) f.size,
        execs,
      )
      refl

-- What the writers of a cache file write of a unit whose numbers fit into their fields, and whose
-- executables name pools of it, the readers read back as the same unit, and leave what stands
-- behind it in the stream.
pub decode_unit-encode_unit :
    (u : SerialUnit) (rest : List ℕ)
    → UnitFits u
    → decode_unit (encode_unit u ++ rest) ≡ some (u, rest)
unfolding decode_unit encode_unit read_behind
decode_unit-encode_unit u rest f = unfold read_bytes in unit-Recovers u f rest
