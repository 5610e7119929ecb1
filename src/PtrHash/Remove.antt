-- ===== src/PtrHash/Remove.antt =====
-- ivm_pthash_remove: the loop closes the gap, and the key is gone while all others stay.
use ivm.Base.{
  ℕ, zero, suc, ◌+◌, ◌-◌, ◌*◌, ◌<◌, ◌≡◌, ◌≢◌, ◌↔◌, refl, sym, ◌∙◌, subst, true, false, Option, none,
  some, List, arith, length, ◌==◌, if◌then◌else◌, Option-cases, ◌⊎◌, inl, inr,
}
use native.Mathlib.Decide.{ℕ_discrete}
use ivm.Probe.{Cell, key_at, is_empty_at, lookup_from}
use ivm.Probe.Scan.{dist}
use ivm.Probe.Layout.{stops_at-true}
use ivm.Probe.Table.{IsPlaced, value_at_held, lookup-present, lookup-absent, lookup-some}
use ivm.Probe.Count.{used, key_at-some_lt}
use ivm.PtrHash.{
  PtrHash, pointer_key, home, next_filler, move_cell, clear_key, shift, find_cell, remove,
}
use ivm.PtrHash.Home.{
  home-lt, IsValid, view, inside, find_cell-Finds, find_cell-view, find_cell-null, value_at_empty,
}
use ivm.PtrHash.Gap.{fills, next_filler-some}
use ivm.PtrHash.Shift.{
  IsGapped, Holds, close_swept, close_empty, length-move_cell, move-IsGapped, move-Holds,
}
use ivm.PtrHash.Measure.{displaced, displaced-lt, displaced-move_cell, used-move_cell}
use ivm.PtrHash.Clear.{clear-get, clear-IsGapped, clear-Holds, clear_gone}

-- What the loop makes of a table with a gap.
pub record Closed (t u : List (Cell ℕ ℕ)) : Type 0 where
  pub width : length u ≡ length t
  pub placed : IsPlaced (home (length u)) u
  pub count : used u ≡ used t
  pub same : (q v : ℕ) → Holds t q v ↔ Holds u q v

self-Closed : (t : List (Cell ℕ ℕ)) → IsPlaced (home (length t)) t → Closed t t
self-Closed t placed = record {
  width = refl;
  placed = placed;
  count = refl;
  same = λ q v. (λ h. h, λ h. h);
}

Closed-trans :
    (t m u : List (Cell ℕ ℕ))
    → length m ≡ length t
    → used m ≡ used t
    → ((q v : ℕ) → Holds t q v ↔ Holds m q v)
    → Closed m u
    → Closed t u
Closed-trans t m u w c same s = record {
  width = s.width ∙ w;
  placed = s.placed;
  count = s.count ∙ c;
  same = λ q v. (λ h. (s.same q v).0 ((same q v).0 h), λ h. (same q v).1 ((s.same q v).1 h));
}

fills-some :
    (t : List (Cell ℕ ℕ)) (g i q : ℕ)
    → key_at t i ≡ some q
    → fills t g i ≡ true
    → dist (length t) (home (length t) q) g < dist (length t) (home (length t) q) i
unfolding fills
fills-some t g i q e h = ground arith

pub shift-Closed :
    (fuel : ℕ) (t : List (Cell ℕ ℕ)) (g : ℕ)
    → IsGapped (length t) t g
    → displaced (length t) 0 t < fuel
    → (u : List (Cell ℕ ℕ)) × (shift fuel t g ≡ some u) × Closed t u
unfolding shift is_empty_at
shift-Closed zero t g s few = absurd (omega arith)
shift-Closed (suc fuel) t g s few = elim (Option-cases (next_filler t g)) [
  | inl e ↦ (t, ground (arith, e), self-Closed t (close_swept t g s e))
  | inr (i, e) ↦
      let f = next_filler-some t g s.inside i e in
      elim (Option-cases (key_at t i)) [
        | inl empty ↦ (t, ground (arith, e), self-Closed t (close_empty t g i s f empty))
        | inr (q, at) ↦
            let near = fills-some t g i q at f.fit in
            let width = length-move_cell t g i s.inside f.within f.apart in
            let less = displaced-move_cell t g i q s.inside f.within f.apart s.open_cell at near in
            let (u, run, c) =
              shift-Closed fuel (move_cell t g i) i
                (move-IsGapped t g i q s f.within f.apart at near) (rw width (omega arith)) in
            (
              u,
              ground (arith, e, run),
              Closed-trans t (move_cell t g i) u width
                  (used-move_cell t g i q s.inside f.within f.apart s.open_cell at near)
                  (move-Holds t g i q s f.within f.apart at near) c,
            )
      ]
]

lookup-Holds :
    (t : List (Cell ℕ ℕ)) (q v : ℕ)
    → IsPlaced (home (length t)) t
    → 0 < length t
    → Holds t q v ↔ (lookup_from (home (length t) q) q t ≡ some v)
lookup-Holds t q v placed roomy =
    let low = home-lt (length t) q roomy in
    (
      λ (j, e, val).
          lookup-present (home (length t)) t placed q low j (key_at-some_lt t j e) e ∙ val,
      λ e. let (j, h, at, val) = lookup-some (home (length t)) t placed q low v e in (j, at, val),
    )

-- What removing `k` does to the table.
pub record Removed (m : PtrHash) (k : ℕ) (m' : PtrHash) : Type 0 where
  pub valid : IsValid m'
  pub reads : (q : ℕ) → view m' q ≡ (if k == q then none else view m q)
  pub entries : used m'.table + 1 ≡ used m.table
  pub counter : m'.ecount ≡ m.ecount - 1

-- A map that has what another has, but for one key.
same_lookup : (a b : Option ℕ) → ((v : ℕ) → (a ≡ some v) ↔ (b ≡ some v)) → a ≡ b
same_lookup none none h = refl
same_lookup none (some v) h = (h v).1 refl
same_lookup (some v) b h = sym ((h v).0 refl)

module _ (m : PtrHash) (valid : IsValid m) (g k : ℕ) (at : key_at m.table g ≡ some k)
    (u : List (Cell ℕ ℕ)) (c : Closed (clear_key m.table g) u) where
  Holds-other : (q v : ℕ) → q ≢ k → Holds m.table q v ↔ Holds u q v
  Holds-other q v other =
      let first = clear-Holds m.table g k at valid.placed valid.roomy q v other in
      (λ h. (c.same q v).0 (first.0 h), λ h. first.1 ((c.same q v).1 h))

  widths : length u ≡ length m.table
  widths = c.width ∙ (clear-get m.table g k at valid.placed valid.roomy).0

  roomy' : 0 < length u
  roomy' = rw widths valid.roomy

  reads_removed :
      (q : ℕ) → lookup_from (home (length u) q) q u ≡ (if k == q then none else view m q)
  reads_removed q = elim (ℕ_discrete k q) [
    | no other ↦
        same_lookup _ _ (λ v.
          let new = lookup-Holds u q v c.placed roomy' in
          let old = lookup-Holds m.table q v valid.placed valid.roomy in
          let mid = Holds-other q v (λ e. other (sym e)) in
          (λ h. old.0 (mid.1 (new.1 h)), λ h. new.0 (mid.0 (old.1 h))))
        ∙ ground arith
    | yes same ↦ elim (Option-cases (lookup_from (home (length u) q) q u)) [
      | inl e ↦ ground arith
      | inr (v, e) ↦
          let there : Holds u k v = rw same ((lookup-Holds u q v c.placed roomy').1 e) in
          absurd (clear_gone m.table g k at valid.placed valid.roomy v ((c.same k v).1 there))
    ]
  ]

  removed : Removed m k (record { table = u; ecount = m.ecount - 1 })
  removed =
      let cleared = clear-get m.table g k at valid.placed valid.roomy in
      let entries : used u + 1 ≡ used m.table = omega (arith, c.count, cleared.1) in
      record {
        valid = record {
          roomy = roomy';
          placed = c.placed;
          named = λ j e.
              let (v, val) = value_at_held u j e in
              let (i, ei, vi) =
                (Holds-other 0 v (λ same. valid.named g (rw same at))).1 (j, e, val) in
              valid.named i ei;
          counted = omega (arith, valid.counted);
        };
        reads = reads_removed;
        entries = entries;
        counter = refl;
      }

-- ivm_pthash_remove ends within its fuel on every valid table: a key that is there is taken out
-- and nothing else is lost although cells move back over the gap; an absent or NULL key leaves the
-- table as it is.
pub remove-Removed :
    (m : PtrHash) (k : ℕ)
    → IsValid m
    → ((view m k ≡ none) × (remove m k ≡ some (false, m)))
      ⊎ ((v : ℕ) × (m' : PtrHash) × (view m k ≡ some v)
          × (remove m k ≡ some (true, m'))
          × Removed m k m')
unfolding remove is_empty_at
remove-Removed m k valid = elim (ℕ_discrete k 0) [
  | yes null ↦ inl (
    lookup-absent (home (length m.table)) m.table valid.placed k (inside valid k)
        (λ j h e. valid.named j (rw null at e)),
    ground (arith, find_cell-null m k),
  )
  | no named ↦ elim (Option-cases (find_cell m k)) [
    | inl e ↦ inl (ground (arith, find_cell-view m k named), ground (arith, e))
    | inr (g, e) ↦
        let look = find_cell-view m k named in
        let s = find_cell-Finds m k g valid named e in
        elim (stops_at-true k (key_at m.table) g s.stops) [
          | inl empty ↦ inl (ground (arith, value_at_empty m.table g empty), ground (arith, e))
          | inr at ↦
              let cleared = clear_key m.table g in
              let width = (clear-get m.table g k at valid.placed valid.roomy).0 in
              let (u, run, c) =
                shift-Closed (length m.table * length m.table + 1) cleared g
                  (clear-IsGapped m.table g k at valid.placed valid.roomy)
                  (subst (λ n. displaced (length cleared) 0 cleared < n * n + 1) width
                    (displaced-lt cleared)) in
              let (v, val) = value_at_held m.table g at in
              inr (
                v,
                record { table = u; ecount = m.ecount - 1 },
                ground arith,
                ground (arith, e, run),
                removed m valid g k at u c,
              )
        ]
  ]
]
