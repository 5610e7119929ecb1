-- ===== src/Range/Collect.antt =====
-- The numbers that a range runs through.
use ivm.Base.{
  ℕ, zero, suc, ◌+◌, ◌*◌, ◌/◌, ◌%◌, ◌≡◌, ◌≢◌, refl, sym, ◌∙◌, ap, false, not, ◌&&◌, Bool-cases,
  some, List, [], ◌∷◌, ◌==◌, if◌then◌else◌, arith, inl, inr,
}
use native.Mathlib.Nat.{div-add-mod, mul_comm}
use ivm.Range.{scale, is_below, iter_next, collect}
use ivm.Range.Ints.{
  ℤ, pos, negsuc, pos_part, neg_part, ◌+ℤ◌, ◌-ℤ◌, eq_ℤ, eq_ℤ_iff, magnitude, is_negative,
  eq_of_parts, +ℤ_parts, -ℤ_parts, sub_ℕ_parts,
}

-- `n` numbers from `from` on, each `step` further.
unfoldable pub progression : ℤ → ℕ → ℤ → List ℤ
progression from zero step = []
progression from (suc n) step = from ∷ progression (from +ℤ step) n step

-- The parts of a multiple.
scale_parts :
    (k : ℕ) (step : ℤ)
    → pos_part (scale k step) + k * neg_part step ≡ neg_part (scale k step) + k * pos_part step
unfolding scale
scale_parts k step = sub_ℕ_parts (k * pos_part step) (k * neg_part step)

mul_suc : (k m : ℕ) → suc k * m ≡ m + k * m
mul_suc k m = omega arith

mul_zero : (k : ℕ) → k * 0 ≡ 0
mul_zero k = omega arith

zero_mul : (k : ℕ) → 0 * k ≡ 0
zero_mul k = omega arith

-- One step nearer to the end.
scale-suc : (cur : ℤ) (k : ℕ) (step : ℤ) → cur +ℤ scale (suc k) step ≡ cur +ℤ step +ℤ scale k step
scale-suc cur k step = eq_of_parts (cur +ℤ scale (suc k) step) (cur +ℤ step +ℤ scale k step) (
    omega (
      arith,
      +ℤ_parts cur (scale (suc k) step),
      +ℤ_parts (cur +ℤ step) (scale k step),
      +ℤ_parts cur step,
      scale_parts (suc k) step,
      scale_parts k step,
      mul_suc k (pos_part step),
      mul_suc k (neg_part step),
    ))

scale_moves :
    (k : ℕ) (step : ℤ)
    → magnitude step ≢ 0
    → pos_part (scale (suc k) step) ≢ neg_part (scale (suc k) step)
scale_moves k (pos zero) moves e = moves (omega arith)
scale_moves k (pos (suc m)) moves e =
    omega (arith, scale_parts (suc k) (pos (suc m)), mul_suc k (suc m), mul_zero (suc k))
scale_moves k (negsuc m) moves e =
    omega (arith, scale_parts (suc k) (negsuc m), mul_suc k (suc m), mul_zero (suc k))

-- Some steps away from the end it is not reached.
not_there : (cur : ℤ) (k : ℕ) (step : ℤ) → magnitude step ≢ 0 → cur ≢ cur +ℤ scale (suc k) step
not_there cur k step moves same =
    scale_moves k step moves
      (omega (arith, +ℤ_parts cur (scale (suc k) step), ap pos_part same, ap neg_part same))

pub collect_end :
    (fuel : ℕ) (cur end step : ℤ)
    → cur ≡ end
    → collect (suc fuel) (record { from = cur; to = end; step = step }) ≡ some []
unfolding collect iter_next
collect_end fuel cur end step e = ground (arith, (eq_ℤ_iff cur end).1 e)

collect_next :
    (fuel : ℕ) (cur end step : ℤ) (ns : List ℤ)
    → cur ≢ end
    → collect fuel (record { from = cur +ℤ step; to = end; step = step }) ≡ some ns
    → collect (suc fuel) (record { from = cur; to = end; step = step }) ≡ some (cur ∷ ns)
unfolding collect iter_next
collect_next fuel cur end step ns away rest = elim (Bool-cases (eq_ℤ cur end)) [
  | inl e ↦ absurd (away ((eq_ℤ_iff cur end).0 e))
  | inr e ↦ rw (e, collect, iter_next) (rw (rest, collect) refl)
]

scale_zero : (cur step : ℤ) → cur +ℤ scale 0 step ≡ cur
scale_zero cur step = eq_of_parts (cur +ℤ scale 0 step) cur (
    omega (
      arith,
      +ℤ_parts cur (scale 0 step),
      scale_parts 0 step,
      zero_mul (pos_part step),
      zero_mul (neg_part step),
    ))

pub collect-progression :
    (k : ℕ) (cur end step : ℤ)
    → magnitude step ≢ 0
    → end ≡ cur +ℤ scale k step
    → collect (suc k) (record { from = cur; to = end; step = step }) ≡ some (progression cur k step)
unfolding progression
collect-progression zero cur end step moves e =
    collect_end 0 cur end step (sym (e ∙ scale_zero cur step))
collect-progression (suc k) cur end step moves e =
    collect_next (suc k) cur end step (progression (cur +ℤ step) k step)
      (λ same. not_there cur k step moves (same ∙ e))
      (collect-progression k (cur +ℤ step) end step moves (e ∙ scale-suc cur k step))

-- A quotient without rest, by the signs.
signed :
    (d step : ℤ) (q : ℕ)
    → magnitude step * q ≡ magnitude d
    → (not (q == 0) && (if is_negative d then not (is_negative step) else is_negative step)) ≡ false
    → pos_part d + q * neg_part step ≡ neg_part d + q * pos_part step
signed (pos n) (pos m) q whole up = omega (arith, mul_comm m q, mul_zero q)
signed (negsuc n) (negsuc m) q whole up = omega (arith, mul_comm (suc m) q, mul_zero q)
signed (pos n) (negsuc m) q whole up =
    let none_fit : q ≡ 0 = ground arith in
    omega (
      arith,
      rw none_fit at whole,
      mul_zero (suc m),
      none_fit,
      zero_mul (suc m),
      ap (λ q. q * suc m) none_fit,
    )
signed (negsuc n) (pos m) q whole up =
    let none_fit : q ≡ 0 = ground arith in omega (arith, rw none_fit at whole, mul_zero m)

-- A whole number of steps leads to the end.
pub exact :
    (from to step : ℤ)
    → magnitude step ≢ 0
    → is_below (to -ℤ from) step ≡ false
    → magnitude (to -ℤ from) % magnitude step ≡ 0
    → to ≡ from +ℤ scale (magnitude (to -ℤ from) / magnitude step) step
unfolding is_below
exact from to step moves up even =
    let d = to -ℤ from in
    let q = magnitude d / magnitude step in
    let whole : magnitude step * q ≡ magnitude d =
      omega (arith, div-add-mod (magnitude d) (magnitude step), even) in
    eq_of_parts to (from +ℤ scale q step) (
      omega (
        arith,
        +ℤ_parts from (scale q step),
        -ℤ_parts to from,
        scale_parts q step,
        signed d step q whole up,
      ))
