-- ===== src/StringPool/Claim.antt =====
-- The loop of HASH: a string gets a cell, and with it an id, after one expansion at most.
use ivm.Base.{
  ℕ, zero, suc, ◌-◌, ◌≤◌, ◌<◌, ◌≡◌, ◌↔◌, ◌⊎◌, refl, sym, ◌∙◌, subst, Bool-cases, Option, none, some,
  Option-cases, List, [], ◌∷◌, ◌++◌, arith, length, length-set, length-append, get_elem?,
  get_elem?-append, get_elem?-some_lt, set, if◌then◌else◌, inl, inr,
}
use ivm.Probe.{Cell, key_at, value_at, is_empty_at, probe, stops_at, lookup_from}
use ivm.Probe.Scan.{probe-Finds, probe-Finds_any}
use ivm.Probe.Layout.{stops_at-true, stops_at-empty}
use ivm.Probe.Table.{
  IsPlaced, key_at-set, value_at-set_self, value_at_held, lookup-present, write-IsPlaced,
  lookup-write,
}
use ivm.Probe.Count.{used-set_empty, used-lt_room, key_at-some_lt}
use ivm.Strings.{Str, string_compare, string_compare_iff, string_key}
use ivm.StringPool.{StringPool, home, raw_hash, claim_loop, expand}
use ivm.StringPool.Rebuild.{home-lt, id_of, Indexes, IsValid, expand-IsValid}

abbrev pub at_cell : StringPool → Str → Option ℕ
at_cell p s = probe (stops_at s (key_at p.table)) (length p.table) (home (length p.table) s)

pub inside : (p : StringPool) (s : Str) → IsValid p → home (length p.table) s < length p.table
inside p s v = home-lt (length p.table) s v.roomy

-- The pool `p'` after the string got the cell `i`: one with its id, which is new if the string is.
pub record Claimed (p : StringPool) (s : Str) (i : ℕ) (p' : StringPool) : Type 0 where
  pub valid : IsValid p'
  pub key : key_at p'.table i ≡ some s
  pub listed : p'.lst ≡ elim (id_of p.table s) [ none ↦ p.lst ++ s ∷ [] | some _ ↦ p.lst ]
  pub value :
      value_at p'.table i ≡ some (elim (id_of p.table s) [ none ↦ length p.lst | some id ↦ id ])

abbrev pub added : StringPool → ℕ → Str → StringPool
added p i s = record {
  table = set p.table i (record { k = some s; v = length p.lst });
  lst = p.lst ++ s ∷ [];
}

lt_cases : (a b : ℕ) → (a < b) ⊎ (b ≤ a)
lt_cases a b = omega arith

last_index : (s q : Str) (j : ℕ) → get_elem? (s ∷ []) j ≡ some q → (j ≡ 0) × (s ≡ q)
last_index s q zero e = (refl, ground (arith, e))
last_index s q (suc j) e = ground (arith, e)

-- A new string takes the next id.
added-ids :
    (lst : List Str) (s : Str) (old : Str → Option ℕ)
    → ((q : Str) (id : ℕ) → (old q ≡ some id) ↔ (get_elem? lst id ≡ some q))
    → old s ≡ none
    → (q : Str) (id : ℕ)
    → ((if string_compare s q then some (length lst) else old q) ≡ some id)
      ↔ (get_elem? (lst ++ s ∷ []) id ≡ some q)
added-ids lst s old ids new q id =
    let look = get_elem?-append lst (s ∷ []) id (length lst) refl in
    elim (Bool-cases (string_compare s q)) [
      | inl same ↦
          let sq = (string_compare_iff s q).0 same in
          (
            λ h.
                let last : length lst ≡ id = ground (arith, same) in
                look ∙ ground (arith, last, sq),
            λ h. elim (lt_cases id (length lst)) [
              | inl low ↦
                  let was = (ids q id).1 (ground (arith, look)) in
                  let gone : old q ≡ none = rw (← sq) new in ground arith
              | inr high ↦
                  ground (arith, same, last_index s q (id - length lst) (ground (arith, look)))
            ],
          )
      | inr other ↦ elim (lt_cases id (length lst)) [
        | inl low ↦ (
          λ h. ground (arith, look, (ids q id).0),
          λ h. ground (arith, look, other, (ids q id).1),
        )
        | inr high ↦ (
          λ h.
              absurd
                (omega (arith, get_elem?-some_lt lst id ((ids q id).0 (ground (arith, other))))),
          λ h.
              ground
                (arith, look, other, last_index s q (id - length lst), (string_compare_iff s q).1),
        )
      ]
    ]

empty_cell :
    (p : StringPool) (s : Str) (i : ℕ)
    → at_cell p s ≡ some i
    → key_at p.table i ≡ none
    → id_of p.table s ≡ none
unfolding lookup_from value_at key_at
empty_cell p s i e empty = ground (arith, e)

added-Claimed :
    (p : StringPool) (s : Str) (i : ℕ)
    → IsValid p
    → at_cell p s ≡ some i
    → key_at p.table i ≡ none
    → Claimed p s i (added p i s)
unfolding string_key
added-Claimed p s i v e empty =
    let f =
      probe-Finds (stops_at s (key_at p.table)) (length p.table) (home (length p.table) s) i
        (inside p s v) e in
    let absent : id_of p.table s ≡ none = empty_cell p s i e empty in
    let c : Cell Str ℕ = record { k = some s; v = length p.lst } in
    let width = length-set p.table i c in
    record {
      valid = record {
        roomy = rw width v.roomy;
        indexed = record {
          placed =
              subst (λ n. IsPlaced (home n) (set p.table i c)) (sym width)
                (write-IsPlaced (home (length p.table)) p.table v.indexed.placed s (length p.lst) i
                  f);
          count = omega (
            arith,
            used-set_empty p.table i s (length p.lst) f.inside empty,
            v.indexed.count,
            length-append p.lst (s ∷ []),
          );
          ids = λ q id.
              rw
                (
                  width,
                  lookup-write (home (length p.table)) p.table v.indexed.placed s (length p.lst) i f
                      q (inside p q v),
                )
                (added-ids p.lst s (id_of p.table) v.indexed.ids absent q id);
        };
      };
      key = ground (arith, key_at-set p.table i i c f.inside);
      listed = rw absent refl;
      value = rw absent (value_at-set_self p.table i s (length p.lst) f.inside);
    }

-- A string that has a cell keeps it.
held-Claimed :
    (p : StringPool) (s : Str) (i : ℕ)
    → IsValid p
    → at_cell p s ≡ some i
    → key_at p.table i ≡ some s
    → Claimed p s i p
held-Claimed p s i v e at =
    let (id, held) = value_at_held p.table i at in
    let here : id_of p.table s ≡ some id =
      lookup-present (home (length p.table)) p.table v.indexed.placed s (inside p s v) i
        (key_at-some_lt p.table i at) at
      ∙ held in
    record { valid = v; key = at; listed = rw here refl; value = rw here held }

abbrev pub Claims : StringPool → Str → Option (ℕ × StringPool) → Type 0
Claims p s r = (i : ℕ) × (p' : StringPool) × (r ≡ some (i, p')) × Claimed p s i p'

claim_loop-found :
    (fuel : ℕ) (p : StringPool) (s : Str) (i : ℕ)
    → IsValid p
    → at_cell p s ≡ some i
    → Claims p s (claim_loop stops_at (suc fuel) (raw_hash s) s p)
unfolding claim_loop home is_empty_at
claim_loop-found fuel p s i v e =
    let f =
      probe-Finds (stops_at s (key_at p.table)) (length p.table) (home (length p.table) s) i
        (inside p s v) e in
    elim (stops_at-true s (key_at p.table) i f.stops) [
      | inl empty ↦ (i, added p i s, ground (arith, e, empty), added-Claimed p s i v e empty)
      | inr taken ↦ (i, p, ground (arith, e, taken), held-Claimed p s i v e taken)
    ]

-- Tables of the same list have the same ids.
pub same_ids :
    (t u : List (Cell Str ℕ)) (lst : List Str) (s : Str)
    → Indexes t lst
    → Indexes u lst
    → id_of t s ≡ id_of u s
same_ids t u lst s x y = elim (Option-cases (id_of t s)) [
  | inr (id, e) ↦ e ∙ sym ((y.ids s id).1 ((x.ids s id).0 e))
  | inl none_here ↦ elim (Option-cases (id_of u s)) [
    | inl none_there ↦ none_here ∙ sym none_there
    | inr (id, e) ↦ (x.ids s id).1 ((y.ids s id).0 e) ∙ sym e
  ]
]

-- An expanded pool has a cell for every string.
pub grown-at_cell :
    (p : StringPool) (s : Str)
    → IsValid p
    → (g : StringPool) × (expand p ≡ some g)
      × IsValid g
      × (g.lst ≡ p.lst)
      × (id_of g.table s ≡ id_of p.table s)
      × (i : ℕ) × (at_cell g s ≡ some i)
grown-at_cell p s v =
    let (g, run, vg, same, room) = expand-IsValid p v in
    let (j, h, empty) = used-lt_room g.table room in
    let (i, e, _) =
      probe-Finds_any (stops_at s (key_at g.table)) (length g.table) (home (length g.table) s) j
        (inside g s vg) h (stops_at-empty s (key_at g.table) j empty) in
    (
      g,
      run,
      vg,
      same,
      same_ids g.table p.table p.lst s (subst (Indexes g.table) same vg.indexed) v.indexed,
      i,
      e,
    )

Claimed-same :
    (g p : StringPool) (s : Str) (i : ℕ) (p' : StringPool)
    → id_of g.table s ≡ id_of p.table s
    → g.lst ≡ p.lst
    → Claimed g s i p'
    → Claimed p s i p'
Claimed-same g p s i p' ids same c = record {
  valid = c.valid;
  key = c.key;
  listed = ground (arith, ids, same, c.listed);
  value = ground (arith, ids, same, c.value);
}

pub claim_loop-Claimed :
    (fuel : ℕ) (p : StringPool) (s : Str)
    → IsValid p
    → Claims p s (claim_loop stops_at (suc (suc fuel)) (raw_hash s) s p)
unfolding claim_loop home
claim_loop-Claimed fuel p s v = elim (Option-cases (at_cell p s)) [
  | inr (i, e) ↦ claim_loop-found (suc fuel) p s i v e
  | inl missed ↦
      let (g, run, vg, same, ids, j, e) = grown-at_cell p s v in
      let (i, p', again, c) = claim_loop-found fuel g s j vg e in
      (i, p', rw (missed, claim_loop, run) again, Claimed-same g p s i p' ids same c)
]
