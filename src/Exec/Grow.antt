-- ===== src/Exec/Grow.antt =====
-- What adding instructions to an executable changes.
use ivm.Base.{
  ℕ, suc, ◌+◌, ◌*◌, ◌%◌, ◌<◌, ◌≤◌, ◌≡◌, refl, true, some, List, [], ◌∷◌, ◌++◌, append-nil,
  append_assoc, sym, length, length-append, leb, ltb, if◌then◌else◌, Bool-cases, inl, inr, arith,
}
use ivm.Exec.{Instr, Exec, add_instr, add_instrs}

-- The instructions that a memory whose size has 32 bits and is doubled can be given.
abbrev pub max_instrs : ℕ
max_instrs = 2147483648

-- The instructions lie in the memory, whose size is a number of 32 bits.
pub record HasMemory (e : Exec) : Type 0 where
  pub inside : length e.instrs ≤ e.alloc
  pub some_room : 0 < e.alloc
  pub size : e.alloc < 4294967296

-- The executable with one more instruction.
abbrev pub appended : Exec → Instr → Exec
appended e i = record e {
  instrs = e.instrs ++ i ∷ [];
  alloc = if leb e.alloc (length e.instrs) then e.alloc * 2 else e.alloc;
}

pub appended-HasMemory :
    (e : Exec) (i : Instr) → HasMemory e → length e.instrs < max_instrs → HasMemory (appended e i)
appended-HasMemory e i m few =
    let len : length (e.instrs ++ i ∷ []) ≡ suc (length e.instrs) =
      omega (arith, length-append e.instrs (i ∷ [])) in
    record {
      inside = ground (arith, len, m.inside, m.some_room);
      some_room = ground (arith, m.some_room);
      size = ground (arith, m.size, few);
    }

pub add_instr-appended :
    (e : Exec) (i : Instr)
    → HasMemory e
    → length e.instrs < max_instrs
    → add_instr e i ≡ some (length e.instrs, appended e i)
unfolding add_instr
add_instr-appended e i m few = elim (Bool-cases (leb e.alloc (length e.instrs))) [
  | inl full ↦
      let whole : e.alloc * 2 % 4294967296 ≡ e.alloc * 2 = ground (arith, full, few) in
      let room : ltb (length e.instrs) (e.alloc * 2) ≡ true =
        ground (arith, m.inside, m.some_room) in
      rw (full, whole, room) refl
  | inr free ↦
      let room : ltb (length e.instrs) e.alloc ≡ true = ground (arith, free) in rw (free, room) refl
]

unfoldable pub all_appended : Exec → List Instr → Exec
all_appended e [] = e
all_appended e (i ∷ is) = all_appended (appended e i) is

pub add_instrs-appended :
    (e : Exec) (is : List Instr)
    → HasMemory e
    → length e.instrs + length is ≤ max_instrs
    → add_instrs e is ≡ some (all_appended e is)
unfolding add_instrs all_appended
add_instrs-appended e [] m few = refl
add_instrs-appended e (i ∷ is) m few =
    let one = add_instr-appended e i m (omega (arith, few)) in
    rw (add_instrs, one)
      (add_instrs-appended (appended e i) is (appended-HasMemory e i m (omega (arith, few)))
        (omega (arith, few, length-append e.instrs (i ∷ []))))

pub all_appended-instrs : (e : Exec) (is : List Instr) → (all_appended e is).instrs ≡ e.instrs ++ is
unfolding all_appended
all_appended-instrs e [] = sym (append-nil e.instrs)
all_appended-instrs e (i ∷ is) = rw (all_appended-instrs (appended e i) is, append_assoc) refl

-- Nothing but the instructions and their memory changes.
pub all_appended_keeps :
    (e : Exec) (is : List Instr)
    → ((all_appended e is).pool ≡ e.pool)
      × ((all_appended e is).params ≡ e.params)
      × ((all_appended e is).cached ≡ e.cached)
unfolding all_appended
all_appended_keeps e [] = (refl, refl, refl)
all_appended_keeps e (i ∷ is) = all_appended_keeps (appended e i) is
