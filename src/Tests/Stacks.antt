-- ===== src/Tests/Stacks.antt =====
-- A full operand stack of two frames that moves.
use ivm.Base.{Option, none, ℕ, zero, suc, ◌≡◌, refl, some, [], ◌∷◌, get_elem?, arith}
use ivm.VmStack.{
  move_runtime, offset, VmStack, Frame, Runtime, Coro, init, relocate, grown_size, ensure,
}
use ivm.VmStack.Relocate.{IsInside, IsValid, Grown, ensure-Grown}

-- Sixteen cells from 100.
abbrev small : VmStack
small = record { edge = 116; bottom = 100; size = 16 }

abbrev running : Coro
running = record {
  frame_stack = record { bp = 100; rbp = 101 } ∷ record { bp = 108; rbp = 104 } ∷ [];
  runtime = some (record { bp = 110; rbp = 109; sp = 116 });
}

small-init : init 100 ≡ small
unfolding init
small-init = refl

running_frames :
    (j : ℕ) (f : Frame)
    → get_elem? running.frame_stack j ≡ some f
    → IsInside small f.bp × IsInside small f.rbp
running_frames zero f e = ground (arith, e)
running_frames (suc zero) f e = ground (arith, e)
running_frames (suc (suc j)) f e = ground (arith, e)

running_registers :
    (r : Runtime)
    → running.runtime ≡ some r
    → IsInside small r.bp × IsInside small r.rbp × IsInside small r.sp
running_registers r e = ground (arith, e)

running-IsValid : IsValid small running
running-IsValid = record { edge = refl; frames = running_frames; registers = running_registers }

-- The memory moves to 500: the top of the stack moves to 516.
running_moved :
    move_runtime small 500 running.runtime ≡ some (record { bp = 510; rbp = 509; sp = 516 })
unfolding move_runtime offset
running_moved = refl

ensure-Grown_example :
    (r : VmStack × Coro) × (ensure 500 small running 40 ≡ some r) × Grown small running 40 r
ensure-Grown_example = ensure-Grown small running 500 40 running-IsValid (omega arith) (omega arith)

-- A request of 2^32 cells gets no more than the double of the stack.
cells_after : Option (VmStack × Coro) → ℕ
cells_after none = 0
cells_after (some r) = r.0.size

huge_request-truncated : cells_after (ensure 500 small running 4294967296) ≡ 32
unfolding ensure grown_size relocate cells_after
huge_request-truncated = refl
