-- ===== src/Optimizer/Place.antt =====
-- Where the instructions of a list are generated: behind the ones before them that are kept.
use ivm.Base.{
  ℕ, zero, suc, ◌+◌, ◌≤◌, ◌≡◌, refl, subst, ap, sym, ◌∙◌, true, false, some, List, [], ◌∷◌, ◌++◌,
  append_assoc, append-nil, length, length-append, get_elem?, ◌==◌, if◌then◌else◌, Bool-cases, inl,
  inr, arith,
}
use mathlib.Core.Option.{some-injective}
use ivm.Exec.{Instr, Exec}
use ivm.Exec.Grow.{max_instrs, HasMemory, appended, appended-HasMemory, add_instr-appended}
use ivm.Optimizer.{OptInstr, modify, is_kept, emit}

pub length-modify {ℓ} :
    {A : Type ℓ} (l : List A) (i : ℕ) (f : A → A) → length (modify l i f) ≡ length l
unfolding modify
length-modify [] i f = refl
length-modify (x ∷ l) zero f = refl
length-modify (x ∷ l) (suc i) f = ap suc (length-modify l i f)

pub get_elem?-modify_self {ℓ} :
    {A : Type ℓ} (l : List A) (i : ℕ) (f : A → A) (x : A)
    → get_elem? l i ≡ some x
    → get_elem? (modify l i f) i ≡ some (f x)
unfolding modify
get_elem?-modify_self [] i f x e = ground (arith, e)
get_elem?-modify_self (y ∷ l) zero f x e = ground (arith, e)
get_elem?-modify_self (y ∷ l) (suc i) f x e = get_elem?-modify_self l i f x e

pub get_elem?-modify_other {ℓ} :
    {A : Type ℓ} (l : List A) (i j : ℕ) (f : A → A)
    → (i == j) ≡ false
    → get_elem? (modify l i f) j ≡ get_elem? l j
unfolding modify
get_elem?-modify_other [] i j f e = refl
get_elem?-modify_other (y ∷ l) zero zero f e = ground (arith, e)
get_elem?-modify_other (y ∷ l) zero (suc j) f e = refl
get_elem?-modify_other (y ∷ l) (suc i) zero f e = refl
get_elem?-modify_other (y ∷ l) (suc i) (suc j) f e =
    get_elem?-modify_other l i j f (ground (arith, e))

unfoldable pub place : List OptInstr → ℕ → ℕ
place l zero = 0
place [] (suc i) = 0
place (x ∷ l) (suc i) = if is_kept x then suc (place l i) else place l i

pub place-le : (l : List OptInstr) (i : ℕ) → place l i ≤ length l
unfolding place
place-le l zero = omega arith
place-le [] (suc i) = omega arith
place-le (x ∷ l) (suc i) = ground (arith, place-le l i)

pub place-suc :
    (l : List OptInstr) (i : ℕ) (x : OptInstr)
    → get_elem? l i ≡ some x
    → place l (suc i) ≡ (if is_kept x then suc (place l i) else place l i)
unfolding place
place-suc [] i x e = ground (arith, e)
place-suc (y ∷ l) zero x e = ground (arith, e)
place-suc (y ∷ l) (suc i) x e = ground (arith, place-suc l i x e)

pub place_mono : (l : List OptInstr) (i k : ℕ) → place l i ≤ place l (i + k)
unfolding place
place_mono l zero k = omega arith
place_mono [] (suc i) k = omega arith
place_mono (x ∷ l) (suc i) k =
    let shift : suc i + k ≡ suc (i + k) = omega arith in rw shift (ground (arith, place_mono l i k))

pub place-le-suc : (l : List OptInstr) (k : ℕ) → place l k ≤ place l (suc k)
place-le-suc l k =
    let next : k + 1 ≡ suc k = omega arith in
    subst (λ m. place l k ≤ place l m) next (place_mono l k 1)

-- The instructions that are generated, before their jumps are rewritten.
pub code : List OptInstr → List Instr
code [] = []
code (x ∷ l) =
    let rest = code l in
    if is_kept x then record { opc = x.opc; arg = x.arg; lineno = x.lineno } ∷ rest else rest

pub code-place :
    (l : List OptInstr) (i : ℕ) (x : OptInstr)
    → get_elem? l i ≡ some x
    → is_kept x ≡ true
    → get_elem? (code l) (place l i) ≡ some (record { opc = x.opc; arg = x.arg; lineno = x.lineno })
unfolding code place
code-place [] i x e k = ground (arith, e)
code-place (y ∷ l) zero x e k = ground (arith, e, k)
code-place (y ∷ l) (suc i) x e k = elim (Bool-cases (is_kept y)) [
  | inl kept ↦ rw kept (code-place l i x e k)
  | inr dropped ↦ rw dropped (code-place l i x e k)
]

pub code-length : (l : List OptInstr) → length (code l) ≡ place l (length l)
unfolding code place
code-length [] = refl
code-length (x ∷ l) = elim (Bool-cases (is_kept x)) [
  | inl kept ↦ rw kept (ap suc (code-length l))
  | inr dropped ↦ rw dropped (code-length l)
]

-- What the first loop makes of a list when there is room.
unfoldable pub emitted : List OptInstr → Exec → List OptInstr × Exec
emitted [] dest = ([], dest)
emitted (x ∷ xs) dest =
    let i : Instr = record { opc = x.opc; arg = x.arg; lineno = x.lineno } in
    let (xs', dest') = emitted xs (if is_kept x then appended dest i else dest) in
    (record x { addr = if is_kept x then some (length dest.instrs) else x.addr } ∷ xs', dest')

pub emit-emitted :
    (l : List OptInstr) (dest : Exec)
    → HasMemory dest
    → length dest.instrs + length l ≤ max_instrs
    → emit l dest ≡ some (emitted l dest)
unfolding emit emitted
emit-emitted [] dest m few = refl
emit-emitted (x ∷ l) dest m few = elim (Bool-cases (is_kept x)) [
  | inl kept ↦
      let i : Instr = record { opc = x.opc; arg = x.arg; lineno = x.lineno } in
      let one = add_instr-appended dest i m (omega (arith, few)) in
      let rest =
        emit-emitted l (appended dest i) (appended-HasMemory dest i m (omega (arith, few)))
          (omega (arith, few, length-append dest.instrs (i ∷ []))) in
      rw (emit, kept, one, rest) refl
  | inr dropped ↦
      let rest = emit-emitted l dest m (omega (arith, few)) in rw (emit, dropped, rest) refl
]

pub emitted-code :
    (l : List OptInstr) (dest : Exec) → (emitted l dest).1.instrs ≡ dest.instrs ++ code l
unfolding emitted code
emitted-code [] dest = sym (append-nil dest.instrs)
emitted-code (x ∷ l) dest = elim (Bool-cases (is_kept x)) [
  | inl kept ↦
      let i : Instr = record { opc = x.opc; arg = x.arg; lineno = x.lineno } in
      rw kept (emitted-code l (appended dest i) ∙ append_assoc dest.instrs (i ∷ []) (code l))
  | inr dropped ↦ rw dropped (emitted-code l dest)
]

-- What the first loop leaves of an instruction.
abbrev pub placed : ℕ → OptInstr → OptInstr
placed a x = record x { addr = if is_kept x then some a else x.addr }

pub emitted-addr :
    (l : List OptInstr) (dest : Exec) (i : ℕ) (x : OptInstr)
    → get_elem? l i ≡ some x
    → get_elem? (emitted l dest).0 i ≡ some (placed (length dest.instrs + place l i) x)
unfolding emitted place
emitted-addr [] dest i x e = ground (arith, e)
emitted-addr (y ∷ l) dest zero x e =
    let here : length dest.instrs + 0 ≡ length dest.instrs = omega arith in
    rw (here, ← some-injective _ _ e) refl
emitted-addr (y ∷ l) dest (suc i) x e = elim (Bool-cases (is_kept y)) [
  | inl kept ↦
      let j : Instr = record { opc = y.opc; arg = y.arg; lineno = y.lineno } in
      let next : length (dest.instrs ++ j ∷ []) + place l i ≡ length dest.instrs + suc (place l i) =
        omega (arith, length-append dest.instrs (j ∷ [])) in
      rw (kept, ← next) (emitted-addr l (appended dest j) i x e)
  | inr dropped ↦ rw dropped (emitted-addr l dest i x e)
]
