-- ===== src/Exec.antt =====
-- vm/exec.h and vm/exec.c: an executable (ivm_exec_t), the instructions of a function with its
-- parameters. A string is its bytes, the pool is the address or id of the pool. The argument of an
-- instruction is the eight bytes of its union. `alloc` is the number of allocated instructions, whose
-- initial value is IVM_DEFAULT_EXEC_BUFFER_SIZE; positions in the text and the offset are left out.
pub mod Grow
use ivm.Base.{
  ℕ, ◌+◌, ◌*◌, ◌%◌, ◌==◌, Bool, true, false, ◌||◌, Option, none, some, List, [], ◌∷◌, ◌++◌, length,
  set, replicate, ltb, leb, if◌then◌else◌,
}
use ivm.Strings.{Str}

-- ivm_instr_t, without its cache.
pub record Instr : Type 0 where
  pub opc : ℕ
  pub arg : ℕ
  pub lineno : ℕ

-- ivm_param_t; a new parameter has no name yet.
pub record Param : Type 0 where
  pub name : Option Str
  pub is_varg : Bool

-- ivm_param_list_t
pub record ParamList : Type 0 where
  pub param : List Param
  pub has_varg : Bool
  pub legacy : Bool

-- ivm_exec_t
pub record Exec : Type 0 where
  pub pool : ℕ
  pub instrs : List Instr
  pub alloc : ℕ
  pub params : ParamList
  pub cached : Bool

-- ivm_param_list_init
unfoldable pub param_list_init : ℕ → ParamList
param_list_init count = record {
  param = replicate count (record { name = none; is_varg = false });
  has_varg = false;
  legacy = false;
}

-- ivm_param_list_initLegacy, of a list whose `has_varg` was so before.
unfoldable pub param_list_init_legacy : Bool → ParamList
param_list_init_legacy before = record { param = []; has_varg = before; legacy = true }

-- ivm_param_list_setParam; none is the failure of its assertion.
unfoldable pub set_param : ParamList → ℕ → Str → Bool → Option ParamList
set_param l idx name is_varg =
    if ltb idx (length l.param)
    then some (record l {
      param = set l.param idx (record { name = some name; is_varg = is_varg });
      has_varg = l.has_varg || is_varg;
    })
    else none

-- _ivm_exec_init; -1 parameters are a legacy list, whose `has_varg` is left as it is.
unfoldable pub exec_new : ℕ → ℕ → Exec
unfolding param_list_init param_list_init_legacy
exec_new pool argc = record {
  pool = pool;
  instrs = [];
  alloc = 16;
  params =
      if argc == 18446744073709551615 then param_list_init_legacy false else param_list_init argc;
  cached = false;
}

-- ivm_exec_addInstr_c with _ivm_exec_expand: the address of the instruction, and the executable.
-- `alloc` has 32 bits; when it wraps around to 0 no memory is granted, which is fatal, and a smaller
-- memory would be written outside of it: both are none.
unfoldable pub add_instr : Exec → Instr → Option (ℕ × Exec)
add_instr e i =
    let next = length e.instrs in
    let alloc = if leb e.alloc next then e.alloc * 2 % 4294967296 else e.alloc in
    if ltb next alloc
    then some (next, record e { instrs = e.instrs ++ i ∷ []; alloc = alloc })
    else none

-- ivm_exec_empty
unfoldable pub exec_empty : Exec → Exec
exec_empty e = record e { instrs = []; cached = false }

-- The loop that adds the instructions of an array.
unfoldable pub add_instrs : Exec → List Instr → Option Exec
add_instrs e [] = some e
add_instrs e (i ∷ is) = elim (add_instr e i) [ none ↦ none | some (_, e') ↦ add_instrs e' is ]
