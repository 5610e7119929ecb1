-- ===== src/Probe/Table.antt =====
-- A probed table of cells as a map: what a lookup reads, and what a write at a probed cell does.
use ivm.Base.{
  ℕ, zero, suc, ◌+◌, ◌<◌, ◌≡◌, ◌≢◌, sym, ◌∙◌, Option, none, some, List, [], ◌∷◌, arith, length, set,
  get_elem?-set, length-set, Option-cases, Bool-cases, ◌⊎◌, inl, inr, ◌==◌, if◌then◌else◌,
}
use native.Mathlib.Decide.{ℕ_discrete}
use ivm.Probe.{Key, Cell, probe, stops_at, key_at, value_at, lookup_from}
use ivm.Probe.Scan.{Finds, Finds-unique, probe-Finds, probe-none}
use ivm.Probe.Count.{used, used-set_empty, used-set_taken}
use ivm.Probe.Layout.{
  IsProbed, stops_at_self, stops_at-true, probe-present, probe-absent, write-IsProbed,
}

module _ {ℓ} {K V : Type ℓ} where
  pub key_at-set :
      (t : List (Cell K V)) (i j : ℕ) (c : Cell K V)
      → i < length t
      → key_at (set t i c) j ≡ (if i == j then c.k else key_at t j)
  unfolding key_at
  key_at-set t i j c h = ground (arith, get_elem?-set t i j c)

  pub value_at-set_other :
      (t : List (Cell K V)) (i j : ℕ) (c : Cell K V)
      → i < length t
      → i ≢ j
      → value_at (set t i c) j ≡ value_at t j
  unfolding value_at
  value_at-set_other t i j c h other = ground (arith, get_elem?-set t i j c)

  pub value_at-set_self :
      (t : List (Cell K V)) (i : ℕ) (k : K) (v : V)
      → i < length t
      → value_at (set t i (record { k = some k; v = v })) i ≡ some v
  unfolding value_at
  value_at-set_self t i k v h = ground (arith, get_elem?-set t i i (record { k = some k; v = v }))

  -- An occupied cell has a value.
  pub value_at_held :
      (t : List (Cell K V)) (j : ℕ) {q : K}
      → key_at t j ≡ some q
      → (v : V) × (value_at t j ≡ some v)
  unfolding key_at value_at
  value_at_held [] j e = ground arith
  value_at_held (c ∷ t) zero e = (c.v, ground arith)
  value_at_held (c ∷ t) (suc j) e = value_at_held t j e

  abbrev pub IsPlaced : (K → ℕ) → List (Cell K V) → Type ℓ
  IsPlaced home t = IsProbed (length t) home (key_at t)

-- One for a value, none for no value.
abbrev pub held {ℓ} : {V : Type ℓ} → Option V → ℕ
held none = 0
held (some _) = 1

module _ {ℓ} {K V : Type ℓ} ⦃key : Key K⦄ (home : K → ℕ) where
  module _ (t : List (Cell K V)) (placed : IsPlaced home t) (q : K)
      (inside : home q < length t) where
    pub lookup-present :
        (j : ℕ) → j < length t → key_at t j ≡ some q → lookup_from (home q) q t ≡ value_at t j
    unfolding lookup_from
    lookup-present j h e =
        rw (probe-present (length t) home (key_at t) placed q j inside h e, lookup_from)

    pub lookup-absent :
        ((j : ℕ) → j < length t → key_at t j ≢ some q) → lookup_from (home q) q t ≡ none
    unfolding lookup_from value_at key_at
    lookup-absent absent = elim (Option-cases (probe (stops_at q (key_at t)) (length t) (home q))) [
      | inl e ↦ rw (e, lookup_from)
      | inr (i, e) ↦
          let empty = probe-absent (length t) home (key_at t) placed q i inside absent e in
          rw (e, lookup_from) (ground (arith, empty))
    ]

    -- A key stands in the table, or nowhere in it.
    pub lookup_cases :
        ((j : ℕ) × (j < length t) × (key_at t j ≡ some q))
        ⊎ ((j : ℕ) → j < length t → key_at t j ≢ some q)
    lookup_cases = elim (Option-cases (probe (stops_at q (key_at t)) (length t) (home q))) [
      | inl e ↦ inr λ j h at. ground (
        arith,
        probe-none (stops_at q (key_at t)) (length t) (home q) j inside e h,
        stops_at_self q (key_at t) j at,
      )
      | inr (i, e) ↦
          let s = probe-Finds (stops_at q (key_at t)) (length t) (home q) i inside e in
          elim (stops_at-true q (key_at t) i s.stops) [
            | inr at ↦ inl (i, s.inside, at)
            | inl empty ↦ inr λ j h at.
                ground (arith, probe-present (length t) home (key_at t) placed q j inside h at)
          ]
    ]

    -- A lookup that fails says that the key stands nowhere.
    pub lookup-none : lookup_from (home q) q t ≡ none → (j : ℕ) → j < length t → key_at t j ≢ some q
    lookup-none e j h at =
        let (v, held) = value_at_held t j at in ground (arith, lookup-present j h at)

    -- A lookup that succeeds read a cell of the key.
    pub lookup-some :
        (v : V)
        → lookup_from (home q) q t ≡ some v
        → (j : ℕ) × (j < length t) × (key_at t j ≡ some q) × (value_at t j ≡ some v)
    lookup-some v e = elim lookup_cases [
      | inl (j, h, at) ↦ (j, h, at, sym (lookup-present j h at) ∙ e)
      | inr absent ↦ ground (arith, lookup-absent absent)
    ]

  module _ (t : List (Cell K V)) (placed : IsPlaced home t) (k : K) (v : V) (p : ℕ)
      (s : Finds (stops_at k (key_at t)) (length t) (home k) p) where
    abbrev cell : Cell K V
    cell = record { k = some k; v = v }

    abbrev written : List (Cell K V)
    written = set t p cell

    width : (q : K) → home q < length t → home q < length written
    width q inside = rw length-set inside

    pub write-IsPlaced : IsPlaced home written
    write-IsPlaced = rw length-set (
        write-IsProbed (length t) home (key_at t) placed (key_at written) k p s
          (ground (arith, key_at-set t p p cell))
          (λ i other. ground (arith, key_at-set t p i cell)))

    write_other :
        (q : K)
        → home q < length t
        → k ≢ q
        → lookup_from (home q) q written ≡ lookup_from (home q) q t
    write_other q inside other = elim (lookup_cases t placed q inside) [
      | inl (j, h, at) ↦
          let apart : p ≢ j = λ same. elim (stops_at-true k (key_at t) p s.stops) [
            | inl empty ↦ ground arith
            | inr taken ↦ other (ground arith)
          ] in
          lookup-present written write-IsPlaced q (width q inside) j (rw length-set h)
            (ground (arith, key_at-set t p j cell))
          ∙ value_at-set_other t p j cell s.inside apart
          ∙ sym (lookup-present t placed q inside j h at)
      | inr absent ↦
          lookup-absent written write-IsPlaced q (width q inside) (λ j h at. elim (ℕ_discrete p j) [
            | yes met ↦ other (ground (arith, key_at-set t p j cell))
            | no past ↦ absent j (rw length-set at h) (ground (arith, key_at-set t p j cell))
          ])
          ∙ sym (lookup-absent t placed q inside absent)
    ]

    -- A lookup after the write sees the new value under the key, and what it saw elsewhere.
    pub lookup-write :
        (q : K)
        → home q < length t
        → lookup_from (home q) q written
          ≡ (if key.equal k q then some v else lookup_from (home q) q t)
    lookup-write q inside = elim (Bool-cases (key.equal k q)) [
      | inl same ↦
          let kq = (key.equal_iff k q).0 same in
          rw (same, ← kq)
            (lookup-present written write-IsPlaced k (width k (rw kq inside)) p
                (rw length-set s.inside) (ground (arith, key_at-set t p p cell))
              ∙ value_at-set_self t p k v s.inside)
      | inr other ↦
          rw other (write_other q inside (λ same. ground (arith, (key.equal_iff k q).1 same)))
    ]

    -- The write takes an empty cell exactly if the key is new.
    pub used-write : home k < length t → used written + held (lookup_from (home k) k t) ≡ used t + 1
    used-write inside = elim (stops_at-true k (key_at t) p s.stops) [
      | inr taken ↦
          let (w, e) = value_at_held t p taken in
          ground (
            arith,
            e,
            lookup-present t placed k inside p s.inside taken,
            used-set_taken t p k k v s.inside taken,
          )
      | inl empty ↦
          let fresh = used-set_empty t p k v s.inside empty in
          elim (lookup_cases t placed k inside) [
            | inr absent ↦ ground (arith, lookup-absent t placed k inside absent)
            | inl (j, h, at) ↦
                let found = probe-present (length t) home (key_at t) placed k j inside h at in
                let there = probe-Finds _ (length t) (home k) j inside found in
                let met = Finds-unique _ (length t) (home k) p j inside s there in ground arith
          ]
    ]
