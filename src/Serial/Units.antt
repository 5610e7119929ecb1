-- ===== src/Serial/Units.antt =====
-- A list of executables that is written in the form of the cache file is restored from it.
use mathlib.Core.Option.{some-injective}
use ivm.Base.{
  ℕ, zero, suc, ◌<◌, ◌≤◌, ◌≡◌, refl, ap, ◌∙◌, true, false, some, List, [], ◌∷◌, map, length,
  get_elem?, ◌==◌, arith,
}
use ivm.Strings.{Str}
use ivm.StringPool.{StringPool}
use ivm.StringPool.Rebuild.{IsValid}
use ivm.Exec.Grow.{max_instrs}
use ivm.Exec.{Exec}
use ivm.Serial.Stream.{All}
use ivm.Serial.Data.{SerialExec}
use ivm.Serial.Program.{
  serialize_instr, serialize_exec, unserialize_exec, enter_pool, put_pool, serialize_execs,
  unserialize_execs,
}
use ivm.Serial.Entered.{Grown, enter_pool-at, enter_pool-keeps, put_pool-Grown, Grown-trans}
use ivm.Serial.Restored.{
  KeepsIds, IsNamed, Matches, Matches-KeepsIds, no_count, Restored, serialize_params-Matches,
  unserialize_exec-Restored,
}

-- What can be serialized: parameters with names, fewer than the number that means a legacy list, no
-- more instructions than the memory of an executable can hold, and no cached instructions.
pub record IsReady (e : Exec) : Type 0 where
  pub named : All IsNamed e.params.param
  pub few : length e.params.param < no_count
  pub short : length e.instrs ≤ max_instrs
  pub plain : e.cached ≡ false

-- An executable in its serial form, over a list of pools.
record Serialized (pools : List ℕ) (store : ℕ → StringPool) (se : SerialExec) (e : Exec)
    : Type 0 where
  id : ℕ
  sps : List _
  form : se ≡ record { pool = id; param = sps; instrs = map serialize_instr e.instrs }
  listed : get_elem? pools id ≡ some e.pool
  matches : Matches (store e.pool).lst sps e.params.param
  few : length e.params.param < no_count
  short : length e.instrs ≤ max_instrs

data AllSerialized (pools : List ℕ) (store : ℕ → StringPool)
    : List SerialExec → List Exec → Type 0 where
  none_serialized : AllSerialized pools store [] []
  more_serialized :
      (se : SerialExec) (e : Exec) (ses : List SerialExec) (es : List Exec)
      → Serialized pools store se e
      → AllSerialized pools store ses es
      → AllSerialized pools store (se ∷ ses) (e ∷ es)

Serialized-Grown :
    (pools pools' : List ℕ) (store store' : ℕ → StringPool) (se : SerialExec) (e : Exec)
    → Grown pools pools' store store'
    → Serialized pools store se e
    → Serialized pools' store' se e
Serialized-Grown pools pools' store store' se e g s = record {
  id = s.id;
  sps = s.sps;
  form = s.form;
  listed = g.listed s.id e.pool s.listed;
  matches =
      Matches-KeepsIds (store e.pool).lst (store' e.pool).lst s.sps e.params.param (g.keeps e.pool)
        s.matches;
  short = s.short;
  few = s.few;
}

serialize_exec-Serialized :
    (e : Exec) (id : ℕ) (pools : List ℕ) (store : ℕ → StringPool)
    → ((a : ℕ) → IsValid (store a))
    → IsReady e
    → get_elem? pools id ≡ some e.pool
    → (se : SerialExec) × (pool : StringPool) × (serialize_exec e (store e.pool) id
        ≡ some (se, pool))
      × IsValid pool
      × KeepsIds (store e.pool).lst pool.lst
      × Serialized pools (put_pool store e.pool pool) se e
unfolding serialize_exec
serialize_exec-Serialized e id pools store valid r at =
    let (sps, pool, run, v, keeps, m) =
      serialize_params-Matches e.params.param (store e.pool) r.named (valid e.pool) in
    let here : (e.pool == e.pool) ≡ true = ground arith in
    (
      record { pool = id; param = sps; instrs = map serialize_instr e.instrs },
      pool,
      rw (r.plain, run) refl,
      v,
      keeps,
      record {
        id = id;
        sps = sps;
        form = refl;
        listed = at;
        matches = rw here m;
        short = r.short;
        few = r.few;
      },
    )

serialize_execs-AllSerialized :
    (es : List Exec) (pools : List ℕ) (store : ℕ → StringPool)
    → ((a : ℕ) → IsValid (store a))
    → All IsReady es
    → (ses : List SerialExec) × (pools' : List ℕ) × (store' : ℕ → StringPool) × (serialize_execs es
          pools store
        ≡ some (ses, pools', store'))
      × Grown pools pools' store store'
      × AllSerialized pools' store' ses es
unfolding serialize_execs
serialize_execs-AllSerialized [] pools store valid r = (
  [],
  pools,
  store,
  refl,
  record { valid = valid; keeps = λ a id s e. e; listed = λ i a e. e },
  none_serialized,
)
serialize_execs-AllSerialized (e ∷ es) pools store valid (r, rs) =
    let id = (enter_pool e.pool pools).0 in
    let met = (enter_pool e.pool pools).1 in
    let (se, pool, run, v, keeps, s) =
      serialize_exec-Serialized e id met store valid r (enter_pool-at e.pool pools) in
    let g =
      put_pool-Grown pools met store e.pool pool valid v keeps (enter_pool-keeps e.pool pools) in
    let (ses, pools', store', runs, h, all) =
      serialize_execs-AllSerialized es met (put_pool store e.pool pool) g.valid rs in
    (
      se ∷ ses,
      pools',
      store',
      rw (serialize_execs, run, runs) refl,
      Grown-trans pools met pools' store (put_pool store e.pool pool) store' g h,
      more_serialized se e ses es
          (Serialized-Grown met pools' (put_pool store e.pool pool) store' se e h s) all,
    )

-- The strings of the pools.
abbrev pub strings_of : (ℕ → StringPool) → List ℕ → List (List Str)
strings_of store = map (λ a. (store a).lst)

strings_of-at :
    (store : ℕ → StringPool) (pools : List ℕ) (i a : ℕ)
    → get_elem? pools i ≡ some a
    → get_elem? (strings_of store pools) i ≡ some (store a).lst
strings_of-at store [] i a e = ground (arith, e)
strings_of-at store (p ∷ ps) zero a e = ap (λ b. some (store b).lst) (some-injective _ _ e)
strings_of-at store (p ∷ ps) (suc i) a e = strings_of-at store ps i a e

-- Executables and their restored forms, whose pools are found by their ids in the list of pools.
pub data AllRestored (pools : List ℕ) : List Exec → List Exec → Type 0 where
  none_restored : AllRestored pools [] []
  more_restored :
      (e e' : Exec) (es es' : List Exec) (id : ℕ)
      → get_elem? pools id ≡ some e.pool
      → Restored e id e'
      → AllRestored pools es es'
      → AllRestored pools (e ∷ es) (e' ∷ es')

unserialize_execs-AllRestored :
    (pools : List ℕ) (store : ℕ → StringPool) (ses : List SerialExec) (es : List Exec)
    → AllSerialized pools store ses es
    → (es' : List Exec) × (unserialize_execs ses (strings_of store pools) ≡ some es')
      × AllRestored pools es es'
unfolding unserialize_execs
unserialize_execs-AllRestored pools store _ _ none_serialized = ([], refl, none_restored)
unserialize_execs-AllRestored pools store _ _ (more_serialized se e ses es s all) =
    let strings = strings_of store pools in
    let (e', one, r) =
      unserialize_exec-Restored e s.id s.sps strings (store e.pool).lst
        (strings_of-at store pools s.id e.pool s.listed) s.matches s.few s.short in
    let (es', rest, rs) = unserialize_execs-AllRestored pools store ses es all in
    let back = ap (λ x. unserialize_exec x strings) s.form ∙ one in
    (
      e' ∷ es',
      rw (unserialize_execs, back, rest) refl,
      more_restored e e' es es' s.id s.listed r rs,
    )

-- Serializing a list of executables, whose pools are valid and shared in any way, with an empty
-- list of pools, ends when each of them has named parameters, fewer than 2^64 - 1 of them, at most
-- 2^31 instructions, as many as its memory can have, and nothing cached; every pool stays valid
-- and keeps the ids of its strings. Unserializing the result over the strings of the pools that
-- were entered then ends, and each executable comes back, in its place, with the opcodes and
-- arguments of its instructions and its parameters, and with an id that is the place of its own
-- pool in the list of pools. The lines of instructions are gone, `has_varg` is computed again and
-- `legacy` is false.
pub unserialize_execs-serialize_execs :
    (es : List Exec) (store : ℕ → StringPool)
    → ((a : ℕ) → IsValid (store a))
    → All IsReady es
    → (ses : List SerialExec) × (pools : List ℕ) × (store' : ℕ → StringPool) × (es' : List Exec)
      × (serialize_execs es [] store ≡ some (ses, pools, store'))
      × ((a : ℕ) → IsValid (store' a) × KeepsIds (store a).lst (store' a).lst)
      × (unserialize_execs ses (strings_of store' pools) ≡ some es')
      × AllRestored pools es es'
unserialize_execs-serialize_execs es store valid ready =
    let (ses, pools, store', run, g, all) = serialize_execs-AllSerialized es [] store valid ready in
    let (es', back, rs) = unserialize_execs-AllRestored pools store' ses es all in
    (ses, pools, store', es', run, λ a. (g.valid a, g.keeps a), back, rs)
