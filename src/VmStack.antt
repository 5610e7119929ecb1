-- ===== src/VmStack.antt =====
-- vm/vmstack.c: the operand stack of a coroutine (ivm_vmstack_t), and how it grows while frames and
-- the runtime point into it. A pointer is an address counted in cells; `nst` is the address that
-- STD_REALLOC returns for the grown memory. The
-- number of cells is an int of 32 bits, which wraps around; none is a fatal error.
pub mod Relocate
use ivm.Base.{
  ℕ, ◌+◌, ◌-◌, ◌*◌, ◌%◌, Bool, ◌&&◌, Option, none, some, List, [], ◌∷◌, ltb, if◌then◌else◌,
}

pub record VmStack : Type 0 where
  pub edge : ℕ
  pub bottom : ℕ
  pub size : ℕ

-- Of a frame: its base pointers.
pub record Frame : Type 0 where
  pub bp : ℕ
  pub rbp : ℕ

-- Of the runtime of a coroutine: its base pointers and its stack pointer.
pub record Runtime : Type 0 where
  pub bp : ℕ
  pub rbp : ℕ
  pub sp : ℕ

-- Of a coroutine: its frames, and its runtime, which the code tests for NULL.
pub record Coro : Type 0 where
  pub frame_stack : List Frame
  pub runtime : Option Runtime

-- ivm_vmstack_init, over memory at `bottom`, of IVM_DEFAULT_VMSTACK_BUFFER_SIZE cells.
unfoldable pub init : ℕ → VmStack
init bottom = record { edge = bottom + 16; bottom = bottom; size = 16 }

-- ivm_vmstack_offset
unfoldable pub offset : VmStack → ℕ → ℕ
offset st ptr = ptr - st.bottom

-- The loop over the frames.
unfoldable pub move_frames : VmStack → ℕ → List Frame → List Frame
unfolding offset
move_frames st nst [] = []
move_frames st nst (f ∷ frames) =
    record { bp = nst + offset st f.bp; rbp = nst + offset st f.rbp } ∷ move_frames st nst frames

-- `if (runtime)` behind the loop.
unfoldable pub move_runtime : VmStack → ℕ → Option Runtime → Option Runtime
unfolding offset
move_runtime st nst none = none
move_runtime st nst (some r) =
    some
      (record { bp = nst + offset st r.bp; rbp = nst + offset st r.rbp; sp = nst + offset st r.sp })

-- The stack in memory of `size` cells at `nst`.
abbrev pub placed : ℕ → ℕ → VmStack
placed nst size = record { edge = nst + size; bottom = nst; size = size }

-- What is stored in `size`, an int of 32 bits.
abbrev pub as_int : ℕ → ℕ
as_int n = n % 4294967296

-- Is memory granted for so many cells? 0 cells give NULL, and a negative number is more than there
-- is; both are fatal.
abbrev pub is_granted : ℕ → Bool
is_granted n = ltb 0 n && ltb n 2147483648

-- ivm_vmstack_inc, for the frames alone.
unfoldable pub inc : ℕ → VmStack → List Frame → Option (VmStack × List Frame)
inc nst st frames =
    let size = as_int (st.size * 2) in
    if is_granted size then some (placed nst size, move_frames st nst frames) else none

-- The coroutine in memory of `size` cells at `nst`: its pointers are moved along.
unfoldable pub relocate : ℕ → VmStack → Coro → ℕ → Option (VmStack × Coro)
relocate nst st coro size =
    if is_granted size
    then some (
      placed nst size,
      record {
        frame_stack = move_frames st nst coro.frame_stack;
        runtime = move_runtime st nst coro.runtime;
      },
    )
    else none

-- ivm_vmstack_inc_c
unfoldable pub inc_c : ℕ → VmStack → Coro → Option (VmStack × Coro)
unfolding relocate
inc_c nst st coro = relocate nst st coro (as_int (st.size * 2))

-- The new number of cells in ivm_vmstack_ensure; the request has 64 bits.
unfoldable pub grown_size : VmStack → ℕ → ℕ
grown_size st size =
    if ltb st.size size then as_int (as_int (st.size * 2) + size) else as_int (st.size * 2)

-- ivm_vmstack_ensure
unfoldable pub ensure : ℕ → VmStack → Coro → ℕ → Option (VmStack × Coro)
unfolding relocate grown_size
ensure nst st coro size = relocate nst st coro (grown_size st size)
