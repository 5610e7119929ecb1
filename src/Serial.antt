-- ===== src/Serial.antt =====
-- util/serial.c: the cache file of a compiled program. A file is an executable unit with the pools
-- of its constant strings; the writers (..ToFile) give bytes, the readers (..FromFile) take a stream
-- of them. The counts of written elements are left out. An array is a list, its count the length.
mod Stream
mod Data
pub mod Program
pub mod Restored
pub mod Entered
pub mod Units
pub mod Format
pub mod Truncated
pub mod Inside
unfoldable pub use Stream.*
pub use Data.*
use ivm.Base.{
  ℕ, ◌+◌, ◌<◌, ◌≡◌, Bool, true, false, ◌&&◌, not, Option, none, some, List, [], ◌∷◌, ◌++◌, length,
  take, ltb, ◌==◌, if◌then◌else◌,
}

-- One string: the header (the length, is_const) and the bytes with the NUL behind them.
unfoldable pub write_string : PoolString → List ℕ
write_string s = write_int 8 (length s.cont) ++ (flag s.is_const ∷ (s.cont ++ 0 ∷ []))

unfoldable pub read_string : Reader PoolString
read_string = do
  len ← read_int 8
  is_const ← read_int 1
  bytes ← read_bytes (len + 1)
  pure (record { is_const = not (is_const == 0); cont = take len bytes })

-- _ivm_serial_stringPoolToFile
unfoldable pub write_string_pool : List PoolString → List ℕ
write_string_pool pool = write_int 8 (length pool) ++ write_many write_string pool

-- _ivm_serial_stringPoolFromFile
unfoldable pub read_string_pool : Reader (List PoolString)
read_string_pool = do size ← read_int 8; read_many read_string size

-- _ivm_serial_stringPoolListToFile
unfoldable pub write_pool_list : List (List PoolString) → List ℕ
write_pool_list pools = write_int 8 (length pools) ++ write_many write_string_pool pools

-- _ivm_serial_stringPoolListFromFile
unfoldable pub read_pool_list : Reader (List (List PoolString))
read_pool_list = do size ← read_int 8; read_many read_string_pool size

unfoldable pub write_param : SerialParam → List ℕ
write_param p = write_int 8 p.name ++ write_int 1 p.is_varg

unfoldable pub read_param : Reader SerialParam
read_param = do
  name ← read_int 8
  is_varg ← read_int 1
  pure (record { name = name; is_varg = is_varg })

unfoldable pub write_instr : SerialInstr → List ℕ
write_instr i = write_int 1 i.opc ++ write_int 8 i.arg

unfoldable pub read_instr : Reader SerialInstr
read_instr = do opc ← read_int 1; arg ← read_int 8; pure (record { opc = opc; arg = arg })

-- _ivm_serial_execToFile
unfoldable pub write_exec : SerialExec → List ℕ
write_exec e =
    write_int 8 e.pool
    ++ (write_int 8 (length e.instrs)
        ++ (write_int 8 (length e.param)
            ++ (write_many write_param e.param ++ write_many write_instr e.instrs)))

-- _ivm_serial_paramFromFile
unfoldable pub read_param_list : Reader (List SerialParam)
read_param_list = do count ← read_int 8; read_many read_param count

-- _ivm_serial_execFromFile
unfoldable pub read_exec : Reader SerialExec
read_exec = do
  pool ← read_int 8
  size ← read_int 8
  param ← read_param_list
  instrs ← read_many read_instr size
  pure (record { pool = pool; param = param; instrs = instrs })

-- What the loop of _ivm_serial_execListFromFile does: an executable must name a pool of the list.
unfoldable pub read_exec_in : ℕ → Reader SerialExec
read_exec_in pools = do e ← read_exec; if ltb e.pool pools then pure e else fail

-- _ivm_serial_execUnitToFile with _ivm_serial_execListToFile
unfoldable pub write_unit : SerialUnit → List ℕ
write_unit u =
    write_int 8 u.root
    ++ (write_pool_list u.pool_list
        ++ (write_int 8 (length u.execs) ++ write_many write_exec u.execs))

-- _ivm_serial_execListFromFile
unfoldable pub read_exec_list : Reader (List (List PoolString) × List SerialExec)
read_exec_list = do
  pools ← read_pool_list
  size ← read_int 8
  execs ← read_many (read_exec_in (length pools)) size
  pure (pools, execs)

-- _ivm_serial_execUnitFromFile
unfoldable pub read_unit : Reader SerialUnit
read_unit = do
  root ← read_int 8
  (pools, execs) ← read_exec_list
  pure (record { root = root; pool_list = pools; execs = execs })

-- The header token of a cache file, and the unit behind it: of ivm_serial_encodeCache.
unfoldable pub encode_unit : SerialUnit → List ℕ
encode_unit u = 0x31 ∷ 0x31 ∷ write_unit u

-- What stands behind the header token, if that is right.
unfoldable pub read_behind : List ℕ → Reader SerialUnit
read_behind (a ∷ b ∷ []) = if a == 0x31 && b == 0x31 then read_unit else fail
read_behind _ = fail

-- The test of the token and the read of ivm_serial_decodeCache.
unfoldable pub decode_unit : Reader SerialUnit
decode_unit = do token ← read_bytes 2; read_behind token
