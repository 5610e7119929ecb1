-- ===== src/Probe/Expand.antt =====
-- Moving a whole table into zeroed memory: a map is the same map after its table grew.
use ivm.Base.{
  ℕ, ◌≤◌, ◌<◌, ◌≡◌, sym, ◌∙◌, Bool, Option, none, some, List, arith, length, replicate,
  length-replicate, inl, inr,
}
use ivm.Probe.{Key, Cell, zeroed, key_at, lookup_from, refill}
use ivm.Probe.Layout.{IsProbed-unique}
use ivm.Probe.Table.{IsPlaced, lookup-present, lookup-absent, lookup_cases}
use ivm.Probe.Count.{used, used-le-length, used-replicate, key_at-replicate, key_at-some_lt}
use ivm.Probe.Refill.{IsDistinct, Agrees, refill-Refilled}

module _ {ℓ} {K V : Type ℓ} ⦃key : Key K⦄ where
  pub IsPlaced-IsDistinct :
      (home : K → ℕ) (t : List (Cell K V))
      → IsPlaced home t
      → ((q : K) → home q < length t)
      → IsDistinct t
  IsPlaced-IsDistinct home t placed inside i j q a b =
      IsProbed-unique (length t) home (key_at t) i j q placed (inside q) (key_at-some_lt t i a)
        (key_at-some_lt t j b) a b

  pub replicate-IsPlaced :
      (home : K → ℕ) (n : ℕ) (v : V) → IsPlaced home (replicate n (zeroed {K = K} v))
  replicate-IsPlaced home n v j q h e = ground (arith, key_at-replicate K n j v)

  pub lookup-replicate :
      (home : K → ℕ) (n : ℕ) (v : V) (q : K)
      → home q < n
      → lookup_from (home q) q (replicate n (zeroed {K = K} v)) ≡ none
  lookup-replicate home n v q inside =
      lookup-absent home _ (replicate-IsPlaced home n v) q (rw length-replicate inside)
        (λ j h e. ground (arith, key_at-replicate K n j v))

  -- What an expansion keeps, from the table `t` under `home` to `u` of `n` cells under `home'`.
  pub record Expanded (home home' : K → ℕ) (n : ℕ) (t u : List (Cell K V)) : Type ℓ where
    pub width : length u ≡ n
    pub placed : IsPlaced home' u
    pub count : used u ≡ used t
    pub reads : (q : K) → lookup_from (home' q) q u ≡ lookup_from (home q) q t

  pub refill-Expanded :
      (test : K → (ℕ → Option K) → ℕ → Bool)
      → Agrees test
      → (home home' : K → ℕ) (t : List (Cell K V)) (n : ℕ) (v : V) → IsPlaced home t
      → ((q : K) → home q < length t)
      → ((q : K) → home' q < n)
      → length t ≤ n
      → (u : List (Cell K V)) × (refill test home' t (replicate n (zeroed v)) ≡ some u)
        × Expanded home home' n t u
  refill-Expanded test agrees home home' t n v placed inside inside' room =
      let (u, run, r) =
        refill-Refilled test agrees home' t (replicate n (zeroed v))
          (IsPlaced-IsDistinct home t placed inside) (replicate-IsPlaced home' n v)
          (λ q. rw length-replicate (inside' q))
          (rw length-replicate (omega (arith, used-replicate K n v, used-le-length t)))
          (λ j q at i there. ground (arith, key_at-replicate K n i v)) in
      (
        u,
        run,
        record {
          width = r.width ∙ length-replicate n (zeroed v);
          placed = r.placed;
          count = omega (arith, r.count, used-replicate K n v);
          reads = λ q. elim (lookup_cases home t placed q (inside q)) [
            | inl (j, h, at) ↦
                r.moved q j at ∙ sym (lookup-present home t placed q (inside q) j h at)
            | inr absent ↦
                r.kept q (λ j there. absent j (key_at-some_lt t j there) there)
                ∙ lookup-replicate home' n v q (inside' q)
                ∙ sym (lookup-absent home t placed q (inside q) absent)
          ];
        },
      )
