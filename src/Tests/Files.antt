-- ===== src/Tests/Files.antt =====
-- A cache file at a concrete unit, and a concrete list of executables.
use ivm.Base.{ℕ, List, ◌<◌, ◌≡◌, ◌≢◌, refl, true, false, some, none, [], ◌∷◌, ◌++◌, arith}
use ivm.StringPool.{StringPool, init}
use ivm.StringPool.Rebuild.{IsValid, init-IsValid}
use ivm.Exec.{Exec}
use ivm.Serial.{SerialUnit, encode_unit, write_unit, decode_unit, write_int, SerialExec, All}
use ivm.Serial.Program.{serialize_execs, unserialize_execs}
use ivm.Serial.Format.{UnitFits, decode_unit-encode_unit}
use ivm.Serial.Truncated.{decode_unit_truncated}
use ivm.Serial.Inside.{decode_unit-inside}
use ivm.Serial.Restored.{KeepsIds}
use ivm.Serial.Units.{IsReady, AllRestored, strings_of, unserialize_execs-serialize_execs}

-- One pool with the string "a", and a function of the parameter `a` that returns.
abbrev unit : SerialUnit
unit = record {
  root = 0;
  pool_list = (record { is_const = true; cont = 97 ∷ [] } ∷ []) ∷ [];
  execs =
      record {
        pool = 0;
        param = record { name = 0; is_varg = 0 } ∷ [];
        instrs = record { opc = 110; arg = 0 } ∷ [];
      }
      ∷ [];
}

unit-UnitFits : UnitFits unit
unit-UnitFits = record {
  root = omega arith;
  pools = omega arith;
  size = omega arith;
  pool_list = ((omega arith, (omega arith, tt)), tt);
  execs = (
    record {
      pool = omega arith;
      inside = omega arith;
      params = omega arith;
      size = omega arith;
      param = ((omega arith, omega arith), tt);
      instrs = ((omega arith, omega arith), tt);
    },
    tt,
  );
}

decode_unit-encode_unit_example : decode_unit (encode_unit unit ++ 10 ∷ []) ≡ some (unit, 10 ∷ [])
decode_unit-encode_unit_example = decode_unit-encode_unit unit (10 ∷ []) unit-UnitFits

cut_behind_token : 0x31 ∷ 0x31 ∷ write_unit unit ≡ encode_unit unit
unfolding encode_unit
cut_behind_token = refl

more_behind_token : write_unit unit ≢ []
unfolding write_unit write_int
more_behind_token e = ground (arith, e)

decode_unit_truncated_example : decode_unit (0x31 ∷ 0x31 ∷ []) ≡ none
decode_unit_truncated_example =
    decode_unit_truncated unit (0x31 ∷ 0x31 ∷ []) (write_unit unit) unit-UnitFits cut_behind_token
      more_behind_token

decode_unit-inside_example : All (λ e. e.pool < 1) unit.execs
decode_unit-inside_example =
    decode_unit-inside (encode_unit unit ++ []) unit []
      (decode_unit-encode_unit unit [] unit-UnitFits)

-- `fn(a, b*): return` before it has run.
abbrev function : Exec
function = record {
  pool = 7;
  instrs = record { opc = 110; arg = 0; lineno = 3 } ∷ [];
  alloc = 16;
  params = record {
    param =
        record { name = some (97 ∷ []); is_varg = false }
        ∷ record { name = some (98 ∷ []); is_varg = true }
        ∷ [];
    has_varg = true;
    legacy = false;
  };
  cached = false;
}

-- A file that returns, with a pool of its own.
abbrev main_file : Exec
main_file = record {
  pool = 3;
  instrs = record { opc = 110; arg = 0; lineno = 9 } ∷ [];
  alloc = 16;
  params = record { param = []; has_varg = false; legacy = true };
  cached = false;
}

abbrev both : List Exec
both = function ∷ main_file ∷ function ∷ []

abbrev new_pools : ℕ → StringPool
new_pools a = init

function-IsReady : IsReady function
function-IsReady = record {
  named = ((97 ∷ [], refl), ((98 ∷ [], refl), tt));
  few = omega arith;
  short = omega arith;
  plain = refl;
}

main_file-IsReady : IsReady main_file
main_file-IsReady = record { named = tt; few = omega arith; short = omega arith; plain = refl }

unserialize_execs-serialize_execs_example :
    (ses : List SerialExec) × (pools : List ℕ) × (store : ℕ → StringPool) × (es : List Exec)
    × (serialize_execs both [] new_pools ≡ some (ses, pools, store))
    × ((a : ℕ) → IsValid (store a) × KeepsIds init.lst (store a).lst)
    × (unserialize_execs ses (strings_of store pools) ≡ some es)
    × AllRestored pools both es
unserialize_execs-serialize_execs_example =
    unserialize_execs-serialize_execs both new_pools (λ a. init-IsValid.0)
      (function-IsReady, (main_file-IsReady, (function-IsReady, tt)))
