-- ===== src/Probe/Count.antt =====
-- The number of occupied cells of a table.
use ivm.Base.{
  ℕ, zero, suc, ◌+◌, ◌≤◌, ◌<◌, ◌≡◌, refl, none, some, List, [], ◌∷◌, arith, length, get_elem?, set,
  replicate, Option-cases, inl, inr,
}
use ivm.Probe.{Cell, zeroed, key_at}

module _ {ℓ} {K V : Type ℓ} where
  unfoldable pub occupied : Cell K V → ℕ
  occupied c = elim c.k [ none ↦ 0 | some _ ↦ 1 ]

  unfoldable pub used : List (Cell K V) → ℕ
  unfolding occupied
  used [] = 0
  used (c ∷ t) = occupied c + used t

  pub used-le-length : (t : List (Cell K V)) → used t ≤ length t
  unfolding used
  used-le-length [] = omega arith
  used-le-length (c ∷ t) = ground (arith, used-le-length t)

  -- A table that is not full has an empty cell.
  pub used-lt_room :
      (t : List (Cell K V)) → used t < length t → (j : ℕ) × (j < length t) × (key_at t j ≡ none)
  unfolding used key_at
  used-lt_room [] h = absurd (omega arith)
  used-lt_room (c ∷ t) h = elim (Option-cases c.k) [
    | inl e ↦ (0, omega arith, e)
    | inr (k, e) ↦
        let (j, within, empty) = used-lt_room t (ground (arith, e)) in (suc j, omega arith, empty)
  ]

  pub used-set :
      (t : List (Cell K V)) (i : ℕ) (old new : Cell K V)
      → get_elem? t i ≡ some old
      → used (set t i new) + occupied old ≡ used t + occupied new
  unfolding used
  used-set [] i old new e = ground arith
  used-set (c ∷ t) zero old new e = ground arith
  used-set (c ∷ t) (suc i) old new e = omega (arith, used-set t i old new e)

  pub used-set_empty :
      (t : List (Cell K V)) (i : ℕ) (k : K) (v : V)
      → i < length t
      → key_at t i ≡ none
      → used (set t i (record { k = some k; v = v })) ≡ used t + 1
  unfolding used key_at
  used-set_empty [] i k v h e = absurd (omega arith)
  used-set_empty (c ∷ t) zero k v h e = ground arith
  used-set_empty (c ∷ t) (suc i) k v h e = omega (arith, used-set_empty t i k v (omega arith) e)

  pub used-set_taken :
      (t : List (Cell K V)) (i : ℕ) (k r : K) (v : V)
      → i < length t
      → key_at t i ≡ some r
      → used (set t i (record { k = some k; v = v })) ≡ used t
  unfolding used key_at
  used-set_taken [] i k r v h e = absurd (omega arith)
  used-set_taken (c ∷ t) zero k r v h e = ground arith
  used-set_taken (c ∷ t) (suc i) k r v h e = omega (arith, used-set_taken t i k r v (omega arith) e)

  -- A cell that holds a key is inside the table.
  pub key_at-some_lt : (t : List (Cell K V)) (i : ℕ) {k : K} → key_at t i ≡ some k → i < length t
  unfolding key_at
  key_at-some_lt [] i e = ground arith
  key_at-some_lt (c ∷ t) zero e = omega arith
  key_at-some_lt (c ∷ t) (suc i) e = omega (arith, key_at-some_lt t i e)

pub used-replicate {ℓ} :
    (K : Type ℓ) {V : Type ℓ} (n : ℕ) (v : V) → used (replicate n (zeroed {K = K} v)) ≡ 0
unfolding used occupied replicate
used-replicate K zero v = refl
used-replicate K (suc n) v = omega (arith, used-replicate K n v)

pub key_at-replicate {ℓ} :
    (K : Type ℓ) {V : Type ℓ} (n i : ℕ) (v : V) → key_at (replicate n (zeroed {K = K} v)) i ≡ none
unfolding key_at replicate
key_at-replicate K zero i v = refl
key_at-replicate K (suc n) zero v = refl
key_at-replicate K (suc n) (suc i) v = key_at-replicate K n i v
