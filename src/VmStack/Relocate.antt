-- ===== src/VmStack/Relocate.antt =====
-- Growing a stack moves every pointer into it along, wherever the new memory lies.
use mathlib.Core.Option.{some-injective}
use ivm.Base.{
  subst, ℕ, zero, suc, ◌+◌, ◌*◌, ◌<◌, ◌≤◌, ◌≡◌, refl, ap, ◌∙◌, true, Option, none, some, List, [],
  ◌∷◌, get_elem?, ltb, if◌then◌else◌, arith,
}
use ivm.VmStack.{
  VmStack, Frame, Runtime, Coro, offset, move_frames, move_runtime, placed, as_int, is_granted,
  relocate, grown_size, inc_c, ensure,
}

-- One more than the largest int.
abbrev pub max_size : ℕ
max_size = 2147483648

-- A pointer into the stack, or to its end.
abbrev pub IsInside : VmStack → ℕ → Type 0
IsInside st p = (st.bottom ≤ p) × (p ≤ st.edge)

pub record IsValid (st : VmStack) (coro : Coro) : Type 0 where
  pub edge : st.edge ≡ st.bottom + st.size
  pub frames :
      (j : ℕ) (f : Frame)
      → get_elem? coro.frame_stack j ≡ some f
      → IsInside st f.bp × IsInside st f.rbp
  pub registers :
      (r : Runtime)
      → coro.runtime ≡ some r
      → IsInside st r.bp × IsInside st r.rbp × IsInside st r.sp

-- The frames as offsets from the bottom, which is what they mean.
pub frame_offsets : VmStack → List Frame → List (ℕ × ℕ)
unfolding offset
frame_offsets st [] = []
frame_offsets st (f ∷ frames) = (offset st f.bp, offset st f.rbp) ∷ frame_offsets st frames

pub runtime_offsets : VmStack → Option Runtime → Option (ℕ × ℕ × ℕ)
unfolding offset
runtime_offsets st none = none
runtime_offsets st (some r) = some (offset st r.bp, offset st r.rbp, offset st r.sp)

-- What a growth to at least `size` cells promises.
pub record Grown (st : VmStack) (coro : Coro) (size : ℕ) (r : VmStack × Coro) : Type 0 where
  pub valid : IsValid r.0 r.1
  pub room : size ≤ r.0.size
  pub frames : frame_offsets r.0 r.1.frame_stack ≡ frame_offsets st coro.frame_stack
  pub registers : runtime_offsets r.0 r.1.runtime ≡ runtime_offsets st coro.runtime

offset-moved :
    (st : VmStack) (nst size p : ℕ) → offset (placed nst size) (nst + offset st p) ≡ offset st p
unfolding offset
offset-moved st nst size p = omega arith

moved-IsInside :
    (st : VmStack) (nst size p : ℕ)
    → st.edge ≡ st.bottom + st.size
    → st.size ≤ size
    → IsInside st p
    → IsInside (placed nst size) (nst + offset st p)
unfolding offset
moved-IsInside st nst size p edge room (low, high) = (omega arith, omega (arith, edge, high))

frame_offsets-move_frames :
    (st : VmStack) (nst size : ℕ) (frames : List Frame)
    → frame_offsets (placed nst size) (move_frames st nst frames) ≡ frame_offsets st frames
unfolding frame_offsets move_frames
frame_offsets-move_frames st nst size [] = refl
frame_offsets-move_frames st nst size (f ∷ frames) =
    rw
      (
        offset-moved st nst size f.bp,
        offset-moved st nst size f.rbp,
        frame_offsets-move_frames st nst size frames,
      )
      refl

runtime_offsets-move_runtime :
    (st : VmStack) (nst size : ℕ) (runtime : Option Runtime)
    → runtime_offsets (placed nst size) (move_runtime st nst runtime) ≡ runtime_offsets st runtime
unfolding runtime_offsets move_runtime
runtime_offsets-move_runtime st nst size none = refl
runtime_offsets-move_runtime st nst size (some r) =
    rw
      (offset-moved st nst size r.bp, offset-moved st nst size r.rbp, offset-moved st nst size r.sp)
      refl

move_frames-IsInside :
    (st : VmStack) (nst size : ℕ) (frames : List Frame)
    → st.edge ≡ st.bottom + st.size
    → st.size ≤ size
    → ((j : ℕ) (f : Frame) → get_elem? frames j ≡ some f → IsInside st f.bp × IsInside st f.rbp)
    → (j : ℕ) (f : Frame) → get_elem? (move_frames st nst frames) j ≡ some f
    → IsInside (placed nst size) f.bp × IsInside (placed nst size) f.rbp
unfolding move_frames
move_frames-IsInside st nst size [] edge room all j f e = ground (arith, e)
move_frames-IsInside st nst size (g ∷ frames) edge room all zero f e =
    let (base, return_base) = all 0 g refl in
    subst (λ h. IsInside (placed nst size) h.bp × IsInside (placed nst size) h.rbp)
      (some-injective _ _ e)
      (
        moved-IsInside st nst size g.bp edge room base,
        moved-IsInside st nst size g.rbp edge room return_base,
      )
move_frames-IsInside st nst size (g ∷ frames) edge room all (suc j) f e =
    move_frames-IsInside st nst size frames edge room (λ i. all (suc i)) j f e

move_runtime-IsInside :
    (st : VmStack) (nst size : ℕ) (runtime : Option Runtime)
    → st.edge ≡ st.bottom + st.size
    → st.size ≤ size
    → ((r : Runtime) → runtime ≡ some r → IsInside st r.bp × IsInside st r.rbp × IsInside st r.sp)
    → (r : Runtime) → move_runtime st nst runtime ≡ some r
    → IsInside (placed nst size) r.bp
      × IsInside (placed nst size) r.rbp
      × IsInside (placed nst size) r.sp
unfolding move_runtime
move_runtime-IsInside st nst size none edge room all r e = ground (arith, e)
move_runtime-IsInside st nst size (some q) edge room all r e =
    let (base, return_base, top) = all q refl in
    subst
      (λ h.
        IsInside (placed nst size) h.bp
        × IsInside (placed nst size) h.rbp
        × IsInside (placed nst size) h.sp)
      (some-injective _ _ e)
      (
        moved-IsInside st nst size q.bp edge room base,
        moved-IsInside st nst size q.rbp edge room return_base,
        moved-IsInside st nst size q.sp edge room top,
      )

-- Of a coroutine whose pointers are moved to `size` cells.
Grown-moved :
    (st : VmStack) (coro : Coro) (nst size wanted : ℕ)
    → IsValid st coro
    → st.size ≤ size
    → wanted ≤ size
    → Grown st coro wanted (
      placed nst size,
      record {
        frame_stack = move_frames st nst coro.frame_stack;
        runtime = move_runtime st nst coro.runtime;
      },
    )
Grown-moved st coro nst size wanted valid room enough = record {
  valid = record {
    edge = refl;
    frames = move_frames-IsInside st nst size coro.frame_stack valid.edge room valid.frames;
    registers = move_runtime-IsInside st nst size coro.runtime valid.edge room valid.registers;
  };
  room = enough;
  frames = frame_offsets-move_frames st nst size coro.frame_stack;
  registers = runtime_offsets-move_runtime st nst size coro.runtime;
}

relocate-Grown :
    (st : VmStack) (coro : Coro) (nst size wanted : ℕ)
    → IsValid st coro
    → 0 < size
    → size < max_size
    → st.size ≤ size
    → wanted ≤ size
    → (r : VmStack × Coro) × (relocate nst st coro size ≡ some r) × Grown st coro wanted r
unfolding relocate
relocate-Grown st coro nst size wanted valid more less room enough =
    let granted : is_granted size ≡ true = ground (arith, more, less) in
    (_, rw granted refl, Grown-moved st coro nst size wanted valid room enough)

-- ivm_vmstack_inc_c on a stack whose pointers lie inside it doubles the room, keeps all pointers
-- of the frames and of the runtime inside the memory and keeps their offsets from the bottom.
inc_c-Grown :
    (st : VmStack) (coro : Coro) (nst : ℕ)
    → IsValid st coro
    → 0 < st.size
    → st.size * 2 < max_size
    → (r : VmStack × Coro) × (inc_c nst st coro ≡ some r) × Grown st coro (st.size * 2) r
unfolding inc_c
inc_c-Grown st coro nst valid more less =
    let whole : as_int (st.size * 2) ≡ st.size * 2 = omega (arith, less) in
    let (r, run, g) =
      relocate-Grown st coro nst (st.size * 2) (st.size * 2) valid (omega (arith, more)) less
        (omega arith) (omega arith) in
    (r, ap (relocate nst st coro) whole ∙ run, g)

grown_size_whole :
    (st : VmStack) (size : ℕ)
    → st.size * 2 + size < max_size
    → grown_size st size ≡ (if ltb st.size size then st.size * 2 + size else st.size * 2)
unfolding grown_size
grown_size_whole st size less =
    let doubled : as_int (st.size * 2) ≡ st.size * 2 = omega (arith, less) in
    let summed : as_int (st.size * 2 + size) ≡ st.size * 2 + size = omega (arith, less) in
    rw (doubled, summed) refl

-- ivm_vmstack_ensure on a stack of at least one cell whose pointers lie inside it, for a request
-- that is less than 2^31 together with the double of the stack, ends with no fatal error: the
-- stack has room for the requested size, all base pointers and stack pointers of the frames and of
-- the runtime lie inside the new memory, and each has the offset from the bottom that it had
-- before, wherever the new memory lies.
pub ensure-Grown :
    (st : VmStack) (coro : Coro) (nst size : ℕ)
    → IsValid st coro
    → 0 < st.size
    → st.size * 2 + size < max_size
    → (r : VmStack × Coro) × (ensure nst st coro size ≡ some r) × Grown st coro size r
unfolding ensure
ensure-Grown st coro nst size valid more less =
    let whole = grown_size_whole st size less in
    relocate-Grown st coro nst (grown_size st size) size valid (ground (arith, whole, more))
      (ground (arith, whole, less)) (ground (arith, whole)) (ground (arith, whole))
