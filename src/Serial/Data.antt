-- ===== src/Serial/Data.antt =====
-- util/serial.c: what a cache file holds.
use ivm.Base.{ℕ, Bool, true, false, List}

-- ivm_string_t: a byte string with its header.
pub record PoolString : Type 0 where
  pub is_const : Bool
  pub cont : List ℕ

-- ivm_serial_instr_t; the argument is the eight bytes of the union.
pub record SerialInstr : Type 0 where
  pub opc : ℕ
  pub arg : ℕ

-- ivm_serial_param_t
pub record SerialParam : Type 0 where
  pub name : ℕ
  pub is_varg : ℕ

-- ivm_serial_exec_t, with its ivm_serial_param_list_t
pub record SerialExec : Type 0 where
  pub pool : ℕ
  pub param : List SerialParam
  pub instrs : List SerialInstr

-- ivm_serial_exec_unit_t, with its ivm_serial_exec_list_t
pub record SerialUnit : Type 0 where
  pub root : ℕ
  pub pool_list : List (List PoolString)
  pub execs : List SerialExec

abbrev pub flag : Bool → ℕ
flag true = 1
flag false = 0
