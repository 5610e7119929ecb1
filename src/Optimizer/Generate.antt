-- ===== src/Optimizer/Generate.antt =====
-- Generation: every jump of the new executable goes to where its target is generated.
use ivm.Base.{
  ℕ, suc, ◌+◌, ◌<◌, ◌≤◌, ◌≡◌, refl, ap, sym, ◌∙◌, Bool, true, some, List, [], ◌∷◌, ◌++◌, length,
  length-append, get_elem?, Bool-cases, inl, inr, arith,
}
use ivm.Opcode.{is_jump}
use ivm.Exec.{Instr, Exec}
use ivm.Exec.Grow.{max_instrs, HasMemory, appended}
use ivm.Optimizer.{OptInstr, word, target_of, is_kept, rewrite_jumps, generate}
use ivm.Optimizer.Place.{
  place, place-suc, place-le, code, code-place, emitted, emit-emitted, emitted-code, code-length,
  emitted-addr,
}
use ivm.Optimizer.Rewrite.{
  TargetsKept, distance, generated, Ready, Addressed, IsRest, IsRest-tail, IsRest-head, addressed,
  next_place, generated-jump, rewrite_jumps-Rewritten,
}

emitted-addressed :
    (l ys : List OptInstr) (k : ℕ) (dest : Exec)
    → IsRest l k ys
    → length dest.instrs ≡ place l k
    → (emitted ys dest).0 ≡ addressed l k ys
unfolding emitted addressed
emitted-addressed l [] k dest rest len = refl
emitted-addressed l (y ∷ ys) k dest rest len =
    let e = IsRest-head l k y ys rest in
    let tail = IsRest-tail l k y ys rest in
    elim (Bool-cases (is_kept y)) [
      | inl kept ↦
          let i : Instr = record { opc = y.opc; arg = y.arg; lineno = y.lineno } in
          let grown : length (dest.instrs ++ i ∷ []) ≡ place l (suc k) =
            omega (arith, length-append dest.instrs (i ∷ []), len, next_place l k y e kept) in
          rw (kept, emitted-addressed l ys (suc k) (appended dest i) tail grown, len) refl
      | inr dropped ↦
          let stays : length dest.instrs ≡ place l (suc k) =
            len ∙ sym (ground (arith, place-suc l k y e, dropped)) in
          rw (dropped, emitted-addressed l ys (suc k) dest tail stays) refl
    ]

emitted-others :
    (l : List OptInstr) (dest : Exec)
    → ((emitted l dest).1.cached ≡ dest.cached)
      × ((emitted l dest).1.pool ≡ dest.pool)
      × ((emitted l dest).1.params ≡ dest.params)
unfolding emitted
emitted-others [] dest = (refl, refl, refl)
emitted-others (x ∷ l) dest = elim (Bool-cases (is_kept x)) [
  | inl kept ↦
      let i : Instr = record { opc = x.opc; arg = x.arg; lineno = x.lineno } in
      rw kept (emitted-others l (appended dest i))
  | inr dropped ↦ rw dropped (emitted-others l dest)
]

-- An executable with the instructions of `l`: each one that is kept is at its place, and a jump goes
-- to the place of its target.
pub record Generated (l : List OptInstr) (is_cached : Bool) (dest after : Exec) : Type 0 where
  pub size : length after.instrs ≡ place l (length l)
  pub instrs :
      (i : ℕ) (x : OptInstr)
      → get_elem? l i ≡ some x
      → is_kept x ≡ true
      → get_elem? after.instrs (place l i) ≡ some (generated l i x)
  pub jumps :
      (i : ℕ) (x : OptInstr) (t : ℕ)
      → is_jump x.opc ≡ true
      → x.jmpto ≡ some t
      → target_of (place l i) (generated l i x).arg ≡ place l t
  pub cached : after.cached ≡ is_cached
  pub pool : after.pool ≡ dest.pool
  pub params : after.params ≡ dest.params

distance-target : (p q : ℕ) → p < word → q < word → target_of p (distance p q) ≡ q
distance-target p q h k = omega arith

Ready-code : (l : List OptInstr) → Ready l 0 (code l)
Ready-code l = record {
  raw = λ i x e kept.
      let shift : 0 + i ≡ i = omega arith in rw shift (code-place l i x (rw (← shift) e) kept);
}

module _ (l : List OptInstr) (cached : Bool) (dest : Exec) (fresh : dest.instrs ≡ []) where
  abbrev first_loop : List OptInstr × Exec
  first_loop = emitted l (record dest { cached = cached })

  first-code : first_loop.1.instrs ≡ code l
  first-code = emitted-code l (record dest { cached = cached }) ∙ rw fresh refl

  first-addressed : first_loop.0 ≡ addressed l 0 l
  unfolding IsRest place
  first-addressed =
      emitted-addressed l l 0 (record dest { cached = cached })
        (λ j. ap (get_elem? l) (omega arith)) (ap length fresh)

  first-Addressed : Addressed l first_loop.0
  unfolding Addressed
  first-Addressed i x e =
      let here : length dest.instrs + place l i ≡ place l i = rw fresh (omega arith) in
      rw here at (emitted-addr l (record dest { cached = cached }) i x e)

-- ivm_opt_il_generateExec into an empty executable, with some memory, of a list of at most 2^31
-- instructions whose jumps all go to instructions that are kept (no NOP without references), ends
-- with no assertion failed: the kept instructions are generated in their order, each behind the
-- kept ones before it, a jump has the relative address of the place of its target, all others are
-- unchanged, and the executable keeps its pool and parameters.
pub generate-Generated :
    (l : List OptInstr) (cached : Bool) (dest : Exec)
    → dest.instrs ≡ []
    → TargetsKept l
    → HasMemory dest
    → length l ≤ max_instrs
    → (after : Exec) × (generate l cached dest ≡ some after) × Generated l cached dest after
unfolding generate IsRest
generate-Generated l cached dest fresh targets memory small =
    let room : length dest.instrs + length l ≤ max_instrs = rw fresh (omega (arith, small)) in
    let emits =
      emit-emitted l (record dest { cached = cached })
        (record { inside = memory.inside; some_room = memory.some_room; size = memory.size })
        room in
    let (l', mid) = first_loop l cached dest fresh in
    let coded = first-code l cached dest fresh in
    let (after, run, r) =
      rewrite_jumps-Rewritten l l' l 0 mid targets (first-Addressed l cached dest fresh)
        (λ j. ap (get_elem? l) (omega arith)) (rw coded (Ready-code l)) in
    let (same_cached, same_pool, same_params) =
      emitted-others l (record dest { cached = cached }) in
    (
      after,
      rw (generate, emits)
          (ap (λ z. rewrite_jumps l' z mid) (first-addressed l cached dest fresh) ∙ run),
      record {
        size = r.size ∙ ap length coded ∙ code-length l;
        instrs = λ i x e kept.
            let shift : 0 + i ≡ i = omega arith in rw shift at (r.done i x (rw shift e) kept);
        jumps = λ i x t is to.
            let arg = ap (λ y. y.arg) (generated-jump l i x t is to) in
            ap (target_of (place l i)) arg
            ∙ distance-target (place l i) (place l t) (omega (arith, small, place-le l i))
                (omega (arith, small, place-le l t));
        cached = ap (λ e. e.cached) r.others ∙ same_cached;
        pool = ap (λ e. e.pool) r.others ∙ same_pool;
        params = ap (λ e. e.params) r.others ∙ same_params;
      },
    )
