-- ===== src/Optimizer/Rewrite.antt =====
-- The second loop of the generation, which rewrites the arguments of the jumps.
use mathlib.Core.Option.{some-injective}
use ivm.Base.{
  ℕ, zero, suc, ◌+◌, ◌-◌, ◌%◌, ◌<◌, ◌≡◌, refl, ap, sym, ◌∙◌, subst, true, false, none, some, List,
  [], ◌∷◌, length, get_elem?, ◌==◌, if◌then◌else◌, Bool-cases, inl, inr, arith,
}
use ivm.Opcode.{is_jump}
use ivm.Exec.{Instr, Exec}
use ivm.Optimizer.{OptInstr, word, is_kept, set_arg_at, rewrite_jumps}
use ivm.Optimizer.Place.{
  place, place-suc, place_mono, place-le-suc, code, placed, length-modify, get_elem?-modify_self,
  get_elem?-modify_other,
}

-- Every jump has a target in the list, and that is kept.
unfoldable pub TargetsKept : List OptInstr → Type 0
TargetsKept l =
    (i : ℕ) (x : OptInstr)
    → get_elem? l i ≡ some x
    → is_jump x.opc ≡ true
    → (t : ℕ) × (y : OptInstr) × (x.jmpto ≡ some t) × (get_elem? l t ≡ some y) × (is_kept y ≡ true)

pub jump-kept : (x : OptInstr) → is_jump x.opc ≡ true → is_kept x ≡ true
unfolding is_jump is_kept
jump-kept x e = ground (arith, e)

-- The argument of a jump at `a` to the instruction `t`.
abbrev pub distance : ℕ → ℕ → ℕ
distance a b = (b + word - a) % word

-- The instruction that is generated for `x` at `i`.
unfoldable pub generated : List OptInstr → ℕ → OptInstr → Instr
generated l i x = record {
  opc = x.opc;
  arg =
      if is_jump x.opc
      then elim x.jmpto [ none ↦ x.arg | some t ↦ distance (place l i) (place l t) ]
      else x.arg;
  lineno = x.lineno;
}

-- All but the instructions.
abbrev pub emptied : Exec → Exec
emptied e = record e { instrs = [] }

-- The second loop from the instruction `k` on: before the place of `k` nothing changes, and from
-- there on every instruction is as it should be.
pub record Rewritten (l : List OptInstr) (k : ℕ) (before after : Exec) : Type 0 where
  pub size : length after.instrs ≡ length before.instrs
  pub others : emptied after ≡ emptied before
  pub kept : (a : ℕ) → a < place l k → get_elem? after.instrs a ≡ get_elem? before.instrs a
  pub done :
      (i : ℕ) (x : OptInstr)
      → get_elem? l (k + i) ≡ some x
      → is_kept x ≡ true
      → get_elem? after.instrs (place l (k + i)) ≡ some (generated l (k + i) x)

-- The second loop before the instruction `k`.
pub record Ready (l : List OptInstr) (k : ℕ) (code : List Instr) : Type 0 where
  pub raw :
      (i : ℕ) (x : OptInstr)
      → get_elem? l (k + i) ≡ some x
      → is_kept x ≡ true
      → get_elem? code (place l (k + i))
        ≡ some (record { opc = x.opc; arg = x.arg; lineno = x.lineno })

-- The list as the first loop leaves it.
unfoldable pub Addressed : List OptInstr → List OptInstr → Type 0
Addressed l l' =
    (i : ℕ) (x : OptInstr) → get_elem? l i ≡ some x → get_elem? l' i ≡ some (placed (place l i) x)

-- One step of the second loop.
rewrite_jumps-jump :
    (l' : List OptInstr) (x : OptInstr) (xs : List OptInstr) (dest : Exec) (a t b : ℕ)
    (y : OptInstr)
    → is_jump x.opc ≡ true
    → x.addr ≡ some a
    → x.jmpto ≡ some t
    → get_elem? l' t ≡ some y
    → y.addr ≡ some b
    → rewrite_jumps l' (x ∷ xs) dest ≡ rewrite_jumps l' xs (set_arg_at dest a (distance a b))
unfolding rewrite_jumps
rewrite_jumps-jump l' x xs dest a t b y is here to at there =
    rw (rewrite_jumps, is, here, to, at, there) refl

rewrite_jumps-plain :
    (l' : List OptInstr) (x : OptInstr) (xs : List OptInstr) (dest : Exec)
    → is_jump x.opc ≡ false
    → rewrite_jumps l' (x ∷ xs) dest ≡ rewrite_jumps l' xs dest
unfolding rewrite_jumps
rewrite_jumps-plain l' x xs dest e = rw (rewrite_jumps, e) refl

-- The rest `ys` of the list `l` from `k` on.
unfoldable pub IsRest : List OptInstr → ℕ → List OptInstr → Type 0
IsRest l k ys = (j : ℕ) → get_elem? ys j ≡ get_elem? l (k + j)

pub IsRest-tail :
    (l : List OptInstr) (k : ℕ) (y : OptInstr) (ys : List OptInstr)
    → IsRest l k (y ∷ ys)
    → IsRest l (suc k) ys
unfolding IsRest
IsRest-tail l k y ys r j = r (suc j) ∙ ap (get_elem? l) (omega arith)

pub IsRest-head :
    (l : List OptInstr) (k : ℕ) (y : OptInstr) (ys : List OptInstr)
    → IsRest l k (y ∷ ys)
    → get_elem? l k ≡ some y
unfolding IsRest
IsRest-head l k y ys r = ap (get_elem? l) (omega arith) ∙ sym (r 0)

unfoldable pub addressed : List OptInstr → ℕ → List OptInstr → List OptInstr
addressed l k [] = []
addressed l k (y ∷ ys) = placed (place l k) y ∷ addressed l (suc k) ys

pub next_place :
    (l : List OptInstr) (k : ℕ) (y : OptInstr)
    → get_elem? l k ≡ some y
    → is_kept y ≡ true
    → place l (suc k) ≡ suc (place l k)
next_place l k y e kept = ground (arith, place-suc l k y e, kept)

Ready-tail : (l : List OptInstr) (k : ℕ) (code : List Instr) → Ready l k code → Ready l (suc k) code
Ready-tail l k code r = record {
  raw = λ i x e kept.
      let shift : suc k + i ≡ k + suc i = omega arith in
      rw shift (r.raw (suc i) x (rw (← shift) e) kept);
}

Ready-set :
    (l : List OptInstr) (k : ℕ) (dest : Exec) (y : OptInstr) (val : ℕ)
    → get_elem? l k ≡ some y
    → is_kept y ≡ true
    → Ready l k dest.instrs
    → Ready l (suc k) (set_arg_at dest (place l k) val).instrs
unfolding set_arg_at
Ready-set l k dest y val e kept r = record {
  raw = λ i x at kx.
      let later = (Ready-tail l k dest.instrs r).raw i x at kx in
      let apart : (place l k == place l (suc k + i)) ≡ false =
        ground (arith, place_mono l (suc k) i, next_place l k y e kept) in
      get_elem?-modify_other dest.instrs (place l k) (place l (suc k + i)) _ apart ∙ later;
}

module _ (l : List OptInstr) (k : ℕ) (y : OptInstr) (before mid after : Exec)
    (e : get_elem? l k ≡ some y) (size : length mid.instrs ≡ length before.instrs)
    (others : emptied mid ≡ emptied before)
    (same : (a : ℕ) → a < place l k → get_elem? mid.instrs a ≡ get_elem? before.instrs a)
    (here : is_kept y ≡ true → get_elem? mid.instrs (place l k) ≡ some (generated l k y))
    (r : Rewritten l (suc k) mid after) where
  done_from :
      (i : ℕ) (x : OptInstr)
      → get_elem? l (k + i) ≡ some x
      → is_kept x ≡ true
      → get_elem? after.instrs (place l (k + i)) ≡ some (generated l (k + i) x)
  done_from zero x at kx =
      let shift : k + 0 ≡ k = omega arith in
      let same_instr : y ≡ x = some-injective _ _ (sym e ∙ rw (← shift) at) in
      let ky = subst (λ z. is_kept z ≡ true) (sym same_instr) kx in
      rw (shift, ← same_instr) (r.kept (place l k) (omega (arith, next_place l k y e ky)) ∙ here ky)
  done_from (suc i) x at kx =
      let shift : k + suc i ≡ suc k + i = omega arith in rw shift (r.done i x (rw (← shift) at) kx)

  -- What is done from the next instruction on, and the instruction `k` itself.
  Rewritten-cons : Rewritten l k before after
  Rewritten-cons = record {
    size = r.size ∙ size;
    others = r.others ∙ others;
    kept = λ a lt. r.kept a (omega (arith, lt, place-le-suc l k)) ∙ same a lt;
    done = done_from;
  }

placed-addr : (a : ℕ) (x : OptInstr) → is_kept x ≡ true → (placed a x).addr ≡ some a
placed-addr a x kept = rw kept refl

pub generated-jump :
    (l : List OptInstr) (k : ℕ) (y : OptInstr) (t : ℕ)
    → is_jump y.opc ≡ true
    → y.jmpto ≡ some t
    → generated l k y
      ≡ record { opc = y.opc; arg = distance (place l k) (place l t); lineno = y.lineno }
unfolding generated
generated-jump l k y t is to = rw (generated, is, to) refl

pub generated-plain :
    (l : List OptInstr) (k : ℕ) (y : OptInstr)
    → is_jump y.opc ≡ false
    → generated l k y ≡ record { opc = y.opc; arg = y.arg; lineno = y.lineno }
unfolding generated
generated-plain l k y plain = rw plain refl

set_arg_at-size : (e : Exec) (i val : ℕ) → length (set_arg_at e i val).instrs ≡ length e.instrs
unfolding set_arg_at
set_arg_at-size e i val = length-modify e.instrs i _

raw_here :
    (l : List OptInstr) (k : ℕ) (y : OptInstr) (c : List Instr)
    → get_elem? l k ≡ some y
    → is_kept y ≡ true
    → Ready l k c
    → get_elem? c (place l k) ≡ some (record { opc = y.opc; arg = y.arg; lineno = y.lineno })
raw_here l k y c e kept ready =
    let shift : k + 0 ≡ k = omega arith in rw shift at (ready.raw 0 y (rw shift e) kept)

module _ (l : List OptInstr) (k : ℕ) (y : OptInstr) (dest : Exec) (t : ℕ)
    (e : get_elem? l k ≡ some y) (ready : Ready l k dest.instrs) (is : is_jump y.opc ≡ true)
    (to : y.jmpto ≡ some t) where
  jump_same :
      (a : ℕ)
      → a < place l k
      → get_elem? (set_arg_at dest (place l k) (distance (place l k) (place l t))).instrs a
        ≡ get_elem? dest.instrs a
  unfolding set_arg_at
  jump_same a lt = get_elem?-modify_other dest.instrs (place l k) a _ (ground (arith, lt))

  jump_here :
      is_kept y ≡ true
      → get_elem?
          (set_arg_at dest (place l k) (distance (place l k) (place l t))).instrs
          (place l k)
        ≡ some (generated l k y)
  unfolding set_arg_at
  jump_here kept =
      rw (generated-jump l k y t is to) (
        get_elem?-modify_self dest.instrs (place l k) _ _ (raw_here l k y dest.instrs e kept ready))

pub rewrite_jumps-Rewritten :
    (l l' ys : List OptInstr) (k : ℕ) (dest : Exec)
    → TargetsKept l
    → Addressed l l'
    → IsRest l k ys
    → Ready l k dest.instrs
    → (after : Exec) × (rewrite_jumps l' (addressed l k ys) dest ≡ some after)
      × Rewritten l k dest after
unfolding addressed TargetsKept Addressed IsRest set_arg_at
rewrite_jumps-Rewritten l l' [] k dest targets at rest ready = (
  dest,
  unfold rewrite_jumps in refl,
  record {
    size = refl;
    others = refl;
    kept = λ a lt. refl;
    done = λ i x e kx. ground (arith, e, rest i);
  },
)
rewrite_jumps-Rewritten l l' (y ∷ ys) k dest targets at rest ready =
    let e = IsRest-head l k y ys rest in
    let tail = IsRest-tail l k y ys rest in
    elim (Bool-cases (is_jump y.opc)) [
      | inl is ↦
          let (t, z, to, there, kz) = targets k y e is in
          let ky = jump-kept y is in
          let val = distance (place l k) (place l t) in
          let next = set_arg_at dest (place l k) val in
          let (after, run, r) =
            rewrite_jumps-Rewritten l l' ys (suc k) next targets at tail
              (Ready-set l k dest y val e ky ready) in
          (
            after,
            rewrite_jumps-jump l' (placed (place l k) y) (addressed l (suc k) ys) dest (place l k) t
                  (place l t) (placed (place l t) z) is (placed-addr (place l k) y ky) to
                  (at t z there) (placed-addr (place l t) z kz)
                ∙ run,
            Rewritten-cons l k y dest next after e (set_arg_at-size dest (place l k) val) refl
                (jump_same l k y dest t e ready is to) (jump_here l k y dest t e ready is to) r,
          )
      | inr plain ↦
          let (after, run, r) =
            rewrite_jumps-Rewritten l l' ys (suc k) dest targets at tail
              (Ready-tail l k dest.instrs ready) in
          (
            after,
            rewrite_jumps-plain l' (placed (place l k) y) (addressed l (suc k) ys) dest plain ∙ run,
            Rewritten-cons l k y dest dest after e refl refl (λ a lt. refl)
                (λ kept.
                  raw_here l k y dest.instrs e kept ready
                  ∙ ap some (sym (generated-plain l k y plain)))
                r,
          )
    ]
