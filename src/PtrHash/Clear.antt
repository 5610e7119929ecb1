-- ===== src/PtrHash/Clear.antt =====
-- `gap->k = NULL` in ivm_pthash_remove: a gap opens, and one key is taken from the table.
use ivm.Base.{
  ℕ, ◌+◌, ◌<◌, ◌≡◌, ◌≢◌, ◌↔◌, sym, ◌∙◌, subst, none, some, List, arith, length, length-set,
  get_elem?-set, get_elem?_inside, ◌==◌, if◌then◌else◌,
}
use native.Mathlib.Decide.{ℕ_discrete}
use ivm.Probe.{Cell, key_at, value_at}
use ivm.Probe.Layout.{IsProbed-unique}
use ivm.Probe.Table.{IsPlaced}
use ivm.Probe.Count.{used, occupied, used-set, key_at-some_lt}
use ivm.PtrHash.{pointer_key, home, clear_key}
use ivm.PtrHash.Home.{home-lt}
use ivm.PtrHash.Shift.{IsGapped, Holds}

-- Clearing the key at `g` opens a gap there, and takes that key alone from the table.
module _ (t : List (Cell ℕ ℕ)) (g k : ℕ) (at : key_at t g ≡ some k)
    (placed : IsPlaced (home (length t)) t) (roomy : 0 < length t) where
  abbrev cleared : List (Cell ℕ ℕ)
  cleared = clear_key t g

  hg : g < length t
  hg = key_at-some_lt t g at

  pub clear-get :
      (length cleared ≡ length t)
      × (used cleared + 1 ≡ used t)
      × ((j : ℕ) → key_at cleared j ≡ (if g == j then none else key_at t j))
      × ((j : ℕ) → g ≢ j → value_at cleared j ≡ value_at t j)
  unfolding clear_key key_at value_at occupied
  clear-get =
      let (c, e) = get_elem?_inside t g hg in
      let open_cell = record c { k = none } in
      (
        rw (e, clear_key) (length-set t g open_cell),
        ground (arith, e, used-set t g c open_cell e, at),
        λ j. ground (arith, e, get_elem?-set t g j open_cell hg),
        λ j other. ground (arith, e, get_elem?-set t g j open_cell hg),
      )

  pub clear-IsGapped : IsGapped (length cleared) cleared g
  clear-IsGapped =
      let (width, count, keys, values) = clear-get in
      subst (λ n. IsGapped n cleared g) (sym width)
        (record {
          inside = hg;
          open_cell = ground (arith, keys g);
          reach = λ j q hj e i hi near other.
              let (r, er, nr) = placed j q hj (ground (arith, keys j)) i hi near in
              (r, ground (arith, keys i), nr);
        })

  pub clear-Holds : (q v : ℕ) → q ≢ k → Holds t q v ↔ Holds cleared q v
  clear-Holds q v other =
      let (width, count, keys, values) = clear-get in
      (
        λ (j, e, val).
            let past : g ≢ j = λ same. other (ground arith) in
            (j, ground (arith, keys j), values j past ∙ val),
        λ (j, e, val).
            let past : g ≢ j = λ same. ground (arith, keys j) in
            (j, ground (arith, keys j), sym (values j past) ∙ val),
      )

  pub clear_gone : (v : ℕ) → ¬ Holds cleared k v
  clear_gone v (j, e, val) =
      let (width, count, keys, values) = clear-get in
      elim (ℕ_discrete g j) [
        | yes same ↦ ground (arith, keys j)
        | no past ↦ past (unique j (ground (arith, keys j)))
      ]
    where
      unique : (j : ℕ) → key_at t j ≡ some k → g ≡ j
      unique j e =
          IsProbed-unique (length t) (home (length t)) (key_at t) g j k placed
            (home-lt (length t) k roomy) hg (key_at-some_lt t j e) at e
