-- ===== src/Probe/Layout.antt =====
-- Where keys may stand, over the keys of the cells: no empty cell and no other copy of a key lies
-- on the way from the key's home to the key.
use ivm.Base.{
  ℕ, ◌<◌, ◌≡◌, ◌≢◌, refl, sym, ◌∙◌, ap, true, false, Option, none, some, arith, Option-cases, ◌⊎◌,
  inl, inr,
}
use native.Mathlib.Decide.{ℕ_discrete, dec_lt}
use ivm.Probe.{Key, probe, stops_at}
use ivm.Probe.Scan.{dist, Finds, probe-Finds, probe-Finds_any}

abbrev pub IsProbed {ℓ} : {K : Type ℓ} → ℕ → (K → ℕ) → (ℕ → Option K) → Type ℓ
IsProbed {K} n home f =
    (j : ℕ) (q : K)
    → j < n
    → f j ≡ some q
    → (i : ℕ) → i < n
    → dist n (home q) i < dist n (home q) j
    → (r : K) × (f i ≡ some r) × (r ≢ q)

-- The cells hold each key at most once.
pub IsProbed-unique {ℓ} :
    {K : Type ℓ} (n : ℕ) (home : K → ℕ) (f : ℕ → Option K) (i j : ℕ) (q : K)
    → IsProbed n home f
    → home q < n
    → i < n
    → j < n
    → f i ≡ some q
    → f j ≡ some q
    → i ≡ j
IsProbed-unique n home f i j q t inside hi hj ei ej =
    elim (dec_lt (dist n (home q) i) (dist n (home q) j)) [
      | yes nearer ↦ let (r, er, other) = t j q hj ej i hi nearer in absurd (other (ground arith))
      | no farther ↦ elim (dec_lt (dist n (home q) j) (dist n (home q) i)) [
        | yes nearer ↦ let (r, er, other) = t i q hi ei j hj nearer in absurd (other (ground arith))
        | no level ↦ ground arith
      ]
    ]

module _ {ℓ} {K : Type ℓ} ⦃key : Key K⦄ where
  pub stops_at_self : (q : K) (f : ℕ → Option K) (i : ℕ) → f i ≡ some q → stops_at q f i ≡ true
  unfolding stops_at
  stops_at_self q f i e = rw (e, stops_at) ((key.equal_iff q q).1 refl)

  pub stops_at-empty : (q : K) (f : ℕ → Option K) (i : ℕ) → f i ≡ none → stops_at q f i ≡ true
  unfolding stops_at
  stops_at-empty q f i e = rw (e, stops_at)

  -- A probe stops at an empty cell or at the key.
  pub stops_at-true :
      (q : K) (f : ℕ → Option K) (i : ℕ) → stops_at q f i ≡ true → (f i ≡ none) ⊎ (f i ≡ some q)
  unfolding stops_at
  stops_at-true q f i h = elim (Option-cases (f i)) [
    | inl e ↦ inl e
    | inr (r, e) ↦ inr (ground (arith, (key.equal_iff r q).0))
  ]

  -- It passes an occupied cell of another key.
  pub stops_at-false :
      (q : K) (f : ℕ → Option K) (i : ℕ)
      → stops_at q f i ≡ false
      → (r : K) × (f i ≡ some r) × (r ≢ q)
  unfolding stops_at
  stops_at-false q f i h = elim (Option-cases (f i)) [
    | inl e ↦ ground arith
    | inr (r, e) ↦ (r, e, λ same. ground (arith, (key.equal_iff r q).1 same))
  ]

  module _ (n : ℕ) (home : K → ℕ) (f : ℕ → Option K) (t : IsProbed n home f) where
    -- A key that stands in the table is found where it stands.
    pub probe-present :
        (q : K) (j : ℕ)
        → home q < n
        → j < n
        → f j ≡ some q
        → probe (stops_at q f) n (home q) ≡ some j
    probe-present q j inside hj e =
        let (i, found, s) =
          probe-Finds_any (stops_at q f) n (home q) j inside hj (stops_at_self q f j e) in
        elim (dec_lt (dist n (home q) i) (dist n (home q) j)) [
          | yes nearer ↦
              let (r, er, other) = t j q hj e i s.inside nearer in
              elim (stops_at-true q f i s.stops) [
                | inl empty ↦ ground arith
                | inr same ↦ absurd (other (ground arith))
              ]
          | no far ↦
              let same : i ≡ j = ground (arith, s.first j hj, stops_at_self q f j e) in
              found ∙ ap some same
        ]

    -- A key that does not stand in the table is not found.
    pub probe-absent :
        (q : K) (i : ℕ)
        → home q < n
        → ((j : ℕ) → j < n → f j ≢ some q)
        → probe (stops_at q f) n (home q) ≡ some i
        → f i ≡ none
    probe-absent q i inside absent found =
        let s = probe-Finds (stops_at q f) n (home q) i inside found in
        elim (stops_at-true q f i s.stops) [
          | inl empty ↦ empty
          | inr same ↦ absurd (absent i s.inside same)
        ]

    before_write :
        (g : ℕ → Option K) (k : K) (p : ℕ)
        → Finds (stops_at k f) n (home k) p
        → ((i : ℕ) → i ≢ p → g i ≡ f i)
        → (i : ℕ) → i < n
        → dist n (home k) i < dist n (home k) p
        → (r : K) × (g i ≡ some r) × (r ≢ k)
    before_write g k p s others i hi nearer =
        let (r, er, other) = stops_at-false k f i (s.first i hi nearer) in
        (r, others i (λ same. absurd (ground arith)) ∙ er, other)

    -- Writing the key at the cell that its probe finds keeps the order.
    pub write-IsProbed :
        (g : ℕ → Option K) (k : K) (p : ℕ)
        → Finds (stops_at k f) n (home k) p
        → g p ≡ some k
        → ((i : ℕ) → i ≢ p → g i ≡ f i)
        → IsProbed n home g
    write-IsProbed g k p s at others j q hj e i hi nearer = elim (ℕ_discrete j p) [
      | yes same ↦
          let qk : q ≡ k = ground arith in
          rw qk (before_write g k p s others i hi (rw (← qk, ← same) nearer))
      | no apart ↦ elim (ℕ_discrete i p) [
        | yes met ↦
            let (r, er, other) = t j q hj (sym (others j apart) ∙ e) i hi nearer in
            elim (stops_at-true k f p s.stops) [
              | inl empty ↦ ground arith
              | inr taken ↦ (k, ground arith, λ kq. other (ground arith))
            ]
        | no past ↦
            let (r, er, other) = t j q hj (sym (others j apart) ∙ e) i hi nearer in
            (r, others i past ∙ er, other)
      ]
    ]
