-- ===== src/Serial/Restored.antt =====
-- An executable that is written in the form of the cache file is restored from it.
use mathlib.Core.List.{map}
use mathlib.Core.Bool.{or-false, or_assoc}
use ivm.Base.{
  ℕ, suc, ◌+◌, ◌<◌, ◌≤◌, ◌≡◌, refl, ap, sym, ◌∙◌, subst, Bool, true, false, not, ◌||◌, none, some,
  List, [], ◌∷◌, ◌++◌, length, length-append, append_assoc, get_elem?, get_elem?-append,
  get_elem?-some_lt, set, replicate, lt→ltb, ◌==◌, Option-cases, inl, inr, arith,
}
use ivm.Strings.{Str}
use ivm.StringPool.{StringPool}
use ivm.StringPool.Rebuild.{IsValid, id_of}
use ivm.StringPool.Register.{id_after, strings_after, register-ids}
use ivm.Exec.{Instr, Param, ParamList, Exec, set_param, exec_new, param_list_init}
use ivm.Exec.Grow.{
  max_instrs, HasMemory, all_appended, add_instrs-appended, all_appended-instrs, all_appended_keeps,
}
use ivm.Serial.Stream.{All}
use ivm.Serial.Data.{SerialParam, SerialExec, flag}
use ivm.Serial.Program.{
  no_line, serialize_params, serialize_instr, unserialize_instr, serialize_exec, set_params,
  unserialize_exec,
}

-- No string loses its id.
abbrev pub KeepsIds : List Str → List Str → Type 0
KeepsIds lst lst' = (id : ℕ) (s : Str) → get_elem? lst id ≡ some s → get_elem? lst' id ≡ some s

abbrev pub IsNamed : Param → Type 0
IsNamed p = (s : Str) × (p.name ≡ some s)

-- The number of parameters that means a legacy list.
abbrev pub no_count : ℕ
no_count = 18446744073709551615

-- The parameters that the ids stand for.
abbrev pub Matches : List Str → List SerialParam → List Param → Type 0
Matches lst [] [] = Unit {0}
Matches lst [] (p ∷ ps) = ⊥
Matches lst (sp ∷ sps) [] = ⊥
Matches lst (sp ∷ sps) (p ∷ ps) =
    ((s : Str) × (p.name ≡ some s)
      × (get_elem? lst sp.name ≡ some s)
      × (sp.is_varg ≡ flag p.is_varg))
    × Matches lst sps ps

pub Matches-KeepsIds :
    (lst lst' : List Str) (sps : List SerialParam) (ps : List Param)
    → KeepsIds lst lst'
    → Matches lst sps ps
    → Matches lst' sps ps
Matches-KeepsIds lst lst' [] [] k m = tt
Matches-KeepsIds lst lst' [] (p ∷ ps) k m = m
Matches-KeepsIds lst lst' (sp ∷ sps) [] k m = m
Matches-KeepsIds lst lst' (sp ∷ sps) (p ∷ ps) k ((s, name, at, v), m) =
    ((s, name, k sp.name s at, v), Matches-KeepsIds lst lst' sps ps k m)

append-KeepsIds : (lst more : List Str) → KeepsIds lst (lst ++ more)
append-KeepsIds lst more id s e =
    let inside = get_elem?-some_lt lst id e in
    ground (arith, get_elem?-append lst more id (length lst) refl, lt→ltb id (length lst) inside, e)

pub strings_after-KeepsIds : (p : StringPool) (s : Str) → KeepsIds p.lst (strings_after p s)
strings_after-KeepsIds p s = elim (Option-cases (id_of p.table s)) [
  | inl new ↦
      let grows : strings_after p s ≡ p.lst ++ s ∷ [] = ground (arith, new) in
      subst (KeepsIds p.lst) (sym grows) (append-KeepsIds p.lst (s ∷ []))
  | inr (id, old) ↦
      let stays : strings_after p s ≡ p.lst = ground (arith, old) in
      subst (KeepsIds p.lst) (sym stays) (λ j r e. e)
]

pub serialize_params-Matches :
    (ps : List Param) (pool : StringPool)
    → All IsNamed ps
    → IsValid pool
    → (sps : List SerialParam) × (pool' : StringPool) × (serialize_params ps pool
        ≡ some (sps, pool'))
      × IsValid pool'
      × KeepsIds pool.lst pool'.lst
      × Matches pool'.lst sps ps
unfolding serialize_params
serialize_params-Matches [] pool h v = ([], pool, refl, v, λ j s e. e, tt)
serialize_params-Matches (p ∷ ps) pool ((s, name), h) v =
    let (one, _, run, v₁, lst, at) = register-ids pool s v in
    let (sps, pool', runs, v', keeps, m) = serialize_params-Matches ps one h v₁ in
    let kept : KeepsIds pool.lst one.lst = rw lst (strings_after-KeepsIds pool s) in
    (
      record { name = id_after pool s; is_varg = flag p.is_varg } ∷ sps,
      pool',
      ground (arith, name, run, runs),
      v',
      λ j r e. keeps j r (kept j r e),
      ((s, name, keeps (id_after pool s) s at, refl), m),
    )

abbrev blank : Param
blank = record { name = none; is_varg = false }

-- Whether a parameter takes the rest of the arguments.
pub any_varg : List Param → Bool
any_varg [] = false
any_varg (p ∷ ps) = p.is_varg || any_varg ps

set-append :
    {A : Type 0} (xs ys : List A) (x v : A) → set (xs ++ x ∷ ys) (length xs) v ≡ xs ++ v ∷ ys
set-append [] ys x v = refl
set-append (y ∷ xs) ys x v = ap (λ l. y ∷ l) (set-append xs ys x v)

flag_back : (b : Bool) → not (flag b == 0) ≡ b
flag_back true = refl
flag_back false = refl

set_param-next :
    (l : ParamList) (before rest : List Param) (s : Str) (p : Param)
    → p.name ≡ some s
    → l.param ≡ before ++ blank ∷ rest
    → set_param l (length before) s p.is_varg
      ≡ some (record l { param = before ++ p ∷ rest; has_varg = l.has_varg || p.is_varg })
unfolding set_param
set_param-next l before rest s p name e =
    let size : length before < length (before ++ blank ∷ rest) =
      omega (arith, length-append before (blank ∷ rest)) in
    rw (e, lt→ltb _ _ size, ← name, set-append before rest blank p) refl

-- The list of parameters when the loop is done, from the ones before the rest.
set_params-Matches :
    (lst : List Str) (sps : List SerialParam) (ps : List Param) (before : List Param)
    (l : ParamList)
    → Matches lst sps ps
    → l.param ≡ before ++ replicate (length sps) blank
    → set_params lst (length before) sps l
      ≡ some (record l { param = before ++ ps; has_varg = l.has_varg || any_varg ps })
unfolding set_params any_varg replicate
set_params-Matches lst [] [] before l m e = rw (or-false, ← e) refl
set_params-Matches lst [] (p ∷ ps) before l m e = absurd m
set_params-Matches lst (sp ∷ sps) [] before l m e = absurd m
set_params-Matches lst (sp ∷ sps) (p ∷ ps) before l ((s, name, at, v), m) e =
    let varg : not (sp.is_varg == 0) ≡ p.is_varg = ap (λ b. not (b == 0)) v ∙ flag_back p.is_varg in
    let step = set_param-next l before (replicate (length sps) blank) s p name e in
    let next = record l {
      param = before ++ p ∷ replicate (length sps) blank;
      has_varg = l.has_varg || p.is_varg;
    } in
    let ih =
      set_params-Matches lst sps ps (before ++ p ∷ []) next m
        (sym (append_assoc before (p ∷ []) (replicate (length sps) blank))) in
    let len : length (before ++ p ∷ []) ≡ suc (length before) =
      omega (arith, length-append before (p ∷ [])) in
    rw (set_params, at, varg, step) (rw (len, append_assoc, or_assoc) at ih)

abbrev pub forget_line : Instr → Instr
forget_line i = record i { lineno = no_line }

map-serialize_instr :
    (is : List Instr) → map unserialize_instr (map serialize_instr is) ≡ map forget_line is
map-serialize_instr [] = refl
map-serialize_instr (i ∷ is) = ap (λ l. forget_line i ∷ l) (map-serialize_instr is)

length-unserialized :
    (is : List Instr) → length (map unserialize_instr (map serialize_instr is)) ≡ length is
length-unserialized [] = refl
length-unserialized (i ∷ is) = ap suc (length-unserialized is)

-- The executable `e` as it comes back: without its lines, and with parameters of its own, whatever
-- `legacy` was.
pub record Restored (e : Exec) (id : ℕ) (e' : Exec) : Type 0 where
  pub pool : e'.pool ≡ id
  pub instrs : e'.instrs ≡ map forget_line e.instrs
  pub params : e'.params.param ≡ e.params.param
  pub varg : e'.params.has_varg ≡ any_varg e.params.param
  pub legacy : e'.params.legacy ≡ false
  pub cached : e'.cached ≡ false

length-Matches :
    (lst : List Str) (sps : List SerialParam) (ps : List Param)
    → Matches lst sps ps
    → length sps ≡ length ps
length-Matches lst [] [] m = refl
length-Matches lst [] (p ∷ ps) m = absurd m
length-Matches lst (sp ∷ sps) [] m = absurd m
length-Matches lst (sp ∷ sps) (p ∷ ps) (_, m) = ap suc (length-Matches lst sps ps m)

pub unserialize_exec-Restored :
    (e : Exec) (id : ℕ) (sps : List SerialParam) (pools : List (List Str)) (lst : List Str)
    → get_elem? pools id ≡ some lst
    → Matches lst sps e.params.param
    → length e.params.param < no_count
    → length e.instrs ≤ max_instrs
    → (e' : Exec) × (unserialize_exec
          (record { pool = id; param = sps; instrs = map serialize_instr e.instrs })
          pools
        ≡ some e')
      × Restored e id e'
unfolding unserialize_exec exec_new param_list_init
unserialize_exec-Restored e id sps pools lst at m few short =
    let fresh = exec_new id (length sps) in
    let l : ParamList = record {
      param = e.params.param;
      has_varg = any_varg e.params.param;
      legacy = false;
    } in
    let counted : (length sps == no_count) ≡ false =
      ground (arith, length-Matches lst sps e.params.param m, few) in
    let init : fresh.params ≡ param_list_init (length sps) = rw (fresh, counted) refl in
    let filled =
      set_params-Matches lst sps e.params.param [] (param_list_init (length sps)) m refl in
    let is = map unserialize_instr (map serialize_instr e.instrs) in
    let (pool, params, cached) = all_appended_keeps (record fresh { params = l }) is in
    let memory : HasMemory (record fresh { params = l }) = record {
      inside = omega arith;
      some_room = omega arith;
      size = omega arith;
    } in
    let count : 0 + length is ≤ max_instrs = omega (arith, short, length-unserialized e.instrs) in
    let adds = add_instrs-appended (record fresh { params = l }) is memory count in
    (
      all_appended (record fresh { params = l }) is,
      rw (unserialize_exec, at, init, filled) adds,
      record {
        pool = pool;
        instrs =
            all_appended-instrs (record fresh { params = l }) is ∙ map-serialize_instr e.instrs;
        params = ap (λ x. x.param) params;
        varg = ap (λ x. x.has_varg) params;
        legacy = ap (λ x. x.legacy) params;
        cached = cached;
      },
    )

at-append : {A : Type 0} (xs ys : List A) (y : A) → get_elem? (xs ++ y ∷ ys) (length xs) ≡ some y
at-append [] ys y = refl
at-append (x ∷ xs) ys y = at-append xs ys y

-- Serializing an executable that has named parameters, fewer than 2^64 - 1 of them, at most 2^31
-- instructions and nothing cached, with a valid pool, ends and keeps the pool valid and the ids of its strings;
-- unserializing it with a list of pools in which this pool stands, also if it has more strings by
-- then, gives back the opcodes and arguments of the instructions, the parameters and the id of the
-- pool. The lines of instructions are gone, `has_varg` is computed again and `legacy` is false.
pub unserialize_exec-serialize_exec :
    (e : Exec) (pool : StringPool) (before after : List (List Str)) (more : List Str)
    → IsValid pool
    → All IsNamed e.params.param
    → length e.params.param < no_count
    → length e.instrs ≤ max_instrs
    → e.cached ≡ false
    → (se : SerialExec) × (pool' : StringPool) × (e' : Exec) × (serialize_exec e pool
          (length before)
        ≡ some (se, pool'))
      × IsValid pool'
      × KeepsIds pool.lst pool'.lst
      × (unserialize_exec se (before ++ (pool'.lst ++ more) ∷ after) ≡ some e')
      × Restored e (length before) e'
unfolding serialize_exec
unserialize_exec-serialize_exec e pool before after more valid named few short fresh =
    let (sps, pool', run, v, keeps, m) = serialize_params-Matches e.params.param pool named valid in
    let grown = append-KeepsIds pool'.lst more in
    let pools = before ++ (pool'.lst ++ more) ∷ after in
    let (e', back, r) =
      unserialize_exec-Restored e (length before) sps pools (pool'.lst ++ more)
        (at-append before after (pool'.lst ++ more))
        (Matches-KeepsIds pool'.lst (pool'.lst ++ more) sps e.params.param grown m) few short in
    (
      record { pool = length before; param = sps; instrs = map serialize_instr e.instrs },
      pool',
      e',
      rw (fresh, run) refl,
      v,
      keeps,
      back,
      r,
    )
