-- ===== src/StringPool/Register.antt =====
-- Registering a string and looking one up.
use ivm.Base.{
  ℕ, ◌≡◌, ◌↔◌, refl, ◌∙◌, none, some, Option-cases, List, [], ◌∷◌, ◌++◌, arith, length, get_elem?,
  inl, inr,
}
use ivm.Probe.{lookup_from}
use ivm.Probe.Table.{lookup-present}
use ivm.Probe.Count.{key_at-some_lt}
use ivm.Strings.{Str, string_key}
use ivm.StringPool.{
  StringPool, home, raw_hash, c_string, register, register_i, register_raw_n, register_raw_ni,
  find_loop, find,
}
use ivm.StringPool.Rebuild.{id_of, IsValid}
use ivm.StringPool.Claim.{at_cell, inside, grown-at_cell, claim_loop-Claimed}

-- What registering a string makes of the pool: the strings keep their ids, and a new string takes
-- the next one.
abbrev pub id_after : StringPool → Str → ℕ
id_after p s = elim (id_of p.table s) [ none ↦ length p.lst | some id ↦ id ]

abbrev pub strings_after : StringPool → Str → List Str
strings_after p s = elim (id_of p.table s) [ none ↦ p.lst ++ s ∷ [] | some _ ↦ p.lst ]

-- ivm_string_pool_register and its _i form end on every valid pool within one expansion; a
-- registered string keeps its id and nothing is added, a new one takes the next id at the end of
-- the list; the answers are that string and its id, and the pool stays valid.
pub register-ids :
    (p : StringPool) (s : Str)
    → IsValid p
    → (p' : StringPool) × (register p s ≡ some (s, p'))
      × (register_i p s ≡ some (id_after p s, p'))
      × IsValid p'
      × (p'.lst ≡ strings_after p s)
      × (get_elem? p'.lst (id_after p s) ≡ some s)
unfolding register register_i
register-ids p s v =
    let (i, p', run, c) = claim_loop-Claimed 0 p s v in
    (
      p',
      ground (arith, run, c.key),
      ground (arith, run, c.value),
      c.valid,
      c.listed,
      (c.valid.indexed.ids s (id_after p s)).0 (
          lookup-present (home (length p'.table)) p'.table c.valid.indexed.placed s
            (inside p' s c.valid) i (key_at-some_lt p'.table i c.key) c.key
          ∙ c.value),
    )

-- ivm_string_pool_find ends on every valid pool and keeps its strings; the answer is the index of
-- the string, and -1 exactly if it is not registered.
find-ids :
    (p : StringPool) (s : Str)
    → IsValid p
    → (p' : StringPool) × (find p s ≡ some (id_of p.table s, p'))
      × IsValid p'
      × (p'.lst ≡ p.lst)
      × ((id : ℕ) → (id_of p.table s ≡ some id) ↔ (get_elem? p.lst id ≡ some s))
unfolding find find_loop lookup_from
find-ids p s v = elim (Option-cases (at_cell p s)) [
  | inr (i, e) ↦ (p, ground (arith, e), v, refl, v.indexed.ids s)
  | inl missed ↦
      let (g, run, vg, same, ids, j, e) = grown-at_cell p s v in
      (g, ground (arith, missed, run, e, ids), vg, same, v.indexed.ids s)
]

-- Registering by pointer and length does what registering a string does, if the bytes contain no
-- NUL.
register_raw_ni-register_i :
    (p : StringPool) (s : Str)
    → c_string s ≡ s
    → (register_raw_ni p s ≡ register_i p s) × (register_raw_n p s ≡ register p s)
unfolding register_raw_ni register_raw_n register_i register raw_hash
register_raw_ni-register_i p s plain = (rw (plain, raw_hash) refl, rw (plain, raw_hash) refl)
