-- ===== src/Probe/Refill.antt =====
-- The loop of an expansion moves every entry of the old table to the new one, and never fails.
use ivm.Base.{
  ℕ, zero, suc, ◌+◌, ◌≤◌, ◌<◌, ◌≡◌, ◌≢◌, refl, sym, ◌∙◌, ap, Bool, Option, none, some, List, [],
  ◌∷◌, arith, length, set, length-set, if◌then◌else◌, Option-cases, Bool-cases, inl, inr,
}
use native.Mathlib.Decide.{ℕ_discrete}
use ivm.Probe.{Key, Cell, stops_at, is_empty_at, key_at, value_at, lookup_from, rehash, refill}
use ivm.Probe.Scan.{Finds, probe-Finds_any}
use ivm.Probe.Layout.{stops_at-true, stops_at-empty}
use ivm.Probe.Table.{IsPlaced, write-IsPlaced, lookup-write, key_at-set}
use ivm.Probe.Count.{used, occupied, used-le-length, used-lt_room, used-set_empty}

-- No key stands in two cells.
abbrev pub IsDistinct {ℓ} : {K V : Type ℓ} → List (Cell K V) → Type ℓ
IsDistinct {K} cs = (i j : ℕ) (q : K) → key_at cs i ≡ some q → key_at cs j ≡ some q → i ≡ j

abbrev pub Absent {ℓ} : {K V : Type ℓ} → K → List (Cell K V) → Type ℓ
Absent q cs = (j : ℕ) → key_at cs j ≢ some q

-- The test of a rehash need only agree with the lookup's where the key is not yet stored.
abbrev pub Agrees {ℓ} : {K : Type ℓ} ⦃key : Key K⦄ → (K → (ℕ → Option K) → ℕ → Bool) → Type ℓ
Agrees {K} test = (k : K) (f : ℕ → Option K) (i : ℕ) → f i ≢ some k → test k f i ≡ stops_at k f i

module _ {ℓ} {K : Type ℓ} ⦃key : Key K⦄ where
  pub stops_at-Agrees : Agrees {K = K} stops_at
  stops_at-Agrees k f i other = refl

  pub is_empty_at-Agrees : Agrees {K = K} (λ _. is_empty_at)
  unfolding is_empty_at stops_at
  is_empty_at-Agrees k f i other = elim (Option-cases (f i)) [
    | inl e ↦ rw (e, is_empty_at, stops_at)
    | inr (r, e) ↦ elim (Bool-cases (key.equal r k)) [
      | inl same ↦ absurd (other (ground (arith, (key.equal_iff r k).0)))
      | inr apart ↦ rw (e, is_empty_at, stops_at) (sym apart)
    ]
  ]

module _ {ℓ} {K V : Type ℓ} ⦃key : Key K⦄ (test : K → (ℕ → Option K) → ℕ → Bool)
    (agrees : Agrees test) (home : K → ℕ) where
  -- The table after one rehash of a key that was absent, with room left.
  pub record Rehashed (k : K) (v : V) (t u : List (Cell K V)) : Type ℓ where
    pub width : length u ≡ length t
    pub placed : IsPlaced home u
    pub count : used u ≡ used t + 1
    pub reads :
        (q : K)
        → home q < length t
        → lookup_from (home q) q u ≡ (if key.equal k q then some v else lookup_from (home q) q t)
    pub keys : (q : K) → k ≢ q → Absent q t → Absent q u

  Finds-agree :
      (k : K) (t : List (Cell K V)) (i : ℕ)
      → Absent k t
      → Finds (test k (key_at t)) (length t) (home k) i
      → Finds (stops_at k (key_at t)) (length t) (home k) i
  Finds-agree k t i absent s = record {
    inside = s.inside;
    stops = sym (agrees k (key_at t) i (absent i)) ∙ s.stops;
    first = λ m h near. sym (agrees k (key_at t) m (absent m)) ∙ s.first m h near;
  }

  write-Rehashed :
      (k : K) (v : V) (t : List (Cell K V)) (i : ℕ)
      → IsPlaced home t
      → Absent k t
      → Finds (stops_at k (key_at t)) (length t) (home k) i
      → Rehashed k v t (set t i (record { k = some k; v = v }))
  write-Rehashed k v t i placed absent s = record {
    width = length-set t i _;
    placed = write-IsPlaced home t placed k v i s;
    count = used-set_empty t i k v s.inside (elim (stops_at-true k (key_at t) i s.stops) [
      | inl empty ↦ empty
      | inr same ↦ absurd (absent i same)
    ]);
    reads = λ q inside. lookup-write home t placed k v i s q inside;
    keys = λ q other none_there j at. elim (ℕ_discrete i j) [
      | yes met ↦ other (ground (arith, key_at-set t i j (record { k = some k; v = v }) s.inside))
      | no past ↦
          none_there j (ground (arith, key_at-set t i j (record { k = some k; v = v }) s.inside))
    ];
  }

  pub rehash-Rehashed :
      (k : K) (v : V) (t : List (Cell K V))
      → IsPlaced home t
      → home k < length t
      → used t < length t
      → Absent k t
      → (u : List (Cell K V)) × (rehash test (home k) k v t ≡ some u) × Rehashed k v t u
  unfolding rehash
  rehash-Rehashed k v t placed inside room absent =
      let (m, within, empty) = used-lt_room t room in
      let (i, found, s) =
        probe-Finds_any (test k (key_at t)) (length t) (home k) m inside within
          (agrees k (key_at t) m (absent m) ∙ stops_at-empty k (key_at t) m empty) in
      (
        set t i (record { k = some k; v = v }),
        rw (found, rehash),
        write-Rehashed k v t i placed absent (Finds-agree k t i absent s),
      )

  -- The table after a refill from `cs`: what `cs` maps is read back, all else is as it was.
  pub record Refilled (cs t u : List (Cell K V)) : Type ℓ where
    pub width : length u ≡ length t
    pub placed : IsPlaced home u
    pub count : used u ≡ used t + used cs
    pub moved : (q : K) (j : ℕ) → key_at cs j ≡ some q → lookup_from (home q) q u ≡ value_at cs j
    pub kept : (q : K) → Absent q cs → lookup_from (home q) q u ≡ lookup_from (home q) q t

  pub refill-Refilled :
      (cs t : List (Cell K V))
      → IsDistinct cs
      → IsPlaced home t
      → ((q : K) → home q < length t)
      → used t + used cs ≤ length t
      → ((j : ℕ) (q : K) → key_at cs j ≡ some q → Absent q t)
      → (u : List (Cell K V)) × (refill test home cs t ≡ some u) × Refilled cs t u
  unfolding refill key_at value_at used occupied
  refill-Refilled [] t distinct placed inside room apart = (
    t,
    refl,
    record {
      width = refl;
      placed = placed;
      count = omega arith;
      moved = λ q j e. ground arith;
      kept = λ q absent. refl;
    },
  )
  refill-Refilled (c ∷ cs) t distinct placed inside room apart = elim (Option-cases c.k) [
    | inl e ↦
        let (u, run, r) =
          refill-Refilled cs t later placed inside (ground (arith, e)) (λ j. apart (suc j)) in
        (u, rw (e, refill) run, skipped e u r)
    | inr (k, e) ↦
        let (t₁, first, s) =
          rehash-Rehashed k c.v t placed (inside k) (ground (arith, e, used-le-length cs))
            (apart 0 k e) in
        let (u, run, r) =
          refill-Refilled cs t₁ later s.placed (λ q. rw s.width (inside q))
            (ground (arith, e, s.count, s.width))
            (λ j q at.
              s.keys q (λ same. absurd (omega (arith, distinct 0 (suc j) q (e ∙ ap some same) at)))
                (apart (suc j) q at)) in
        (u, rw (e, refill, first) run, stored k e t₁ s u r)
  ]
    where
      later : IsDistinct cs
      later i j q a b = omega (arith, distinct (suc i) (suc j) q a b)

      skipped : c.k ≡ none → (u : List (Cell K V)) → Refilled cs t u → Refilled (c ∷ cs) t u
      skipped e u r = record {
        width = r.width;
        placed = r.placed;
        count = ground (arith, e, r.count);
        moved = λ q. elim [ zero ↦ λ at. ground (arith, e) | suc j ↦ λ at. r.moved q j at ];
        kept = λ q absent. r.kept q (λ j. absent (suc j));
      }

      stored :
          (k : K)
          → c.k ≡ some k
          → (t₁ : List (Cell K V)) → Rehashed k c.v t t₁
          → (u : List (Cell K V)) → Refilled cs t₁ u
          → Refilled (c ∷ cs) t u
      stored k e t₁ s u r = record {
        width = r.width ∙ s.width;
        placed = r.placed;
        count = ground (arith, e, r.count, s.count);
        moved = λ q. elim [
          | zero ↦ λ at.
              r.kept q (λ j there. absurd (omega (arith, distinct 0 (suc j) q at there)))
              ∙ s.reads q (inside q)
              ∙ ground (arith, e, (key.equal_iff k q).1)
          | suc j ↦ λ at. r.moved q j at
        ];
        kept = λ q absent.
            r.kept q (λ j. absent (suc j))
            ∙ s.reads q (inside q)
            ∙ ground (arith, absent 0, e, (key.equal_iff k q).0);
      }
