-- ===== src/Range/Counted.antt =====
-- How many numbers there are over a distance in equal steps.
use native.Mathlib.Nat.{div-add-mod, div-add-mod', mod-lt, mod-le}
use ivm.Base.{
  ℕ, suc, ◌+◌, ◌*◌, ◌/◌, ◌%◌, ◌<◌, ◌≤◌, ◌≡◌, ◌≢◌, refl, sym, ◌∙◌, true, false, Bool, not,
  Bool-cases, leb, ◌==◌, ==_iff, if◌then◌else◌, arith, inl, inr,
}
use ivm.Range.{is_below}
use ivm.Range.Ints.{ℤ, pos, negsuc, magnitude, is_negative}

-- `n` is how many numbers there are over the distance `delta`, by signs and multiples: where the
-- step leads along the distance, the least number of steps that cover it; where it leads away, none
-- if the step is not longer than the distance, else one; none without a step or a distance.
pub record IsCount (delta step : ℤ) (n : ℕ) : Type 0 where
  pub still : magnitude step ≡ 0 → n ≡ 0
  pub arrived : magnitude delta ≡ 0 → n ≡ 0
  pub covers :
      magnitude step ≢ 0
      → is_negative delta ≡ is_negative step
      → magnitude delta ≤ n * magnitude step
  pub least :
      is_negative delta ≡ is_negative step → (m : ℕ) → magnitude delta ≤ m * magnitude step → n ≤ m
  pub away :
      magnitude step ≢ 0
      → magnitude delta ≢ 0
      → is_negative delta ≡ not (is_negative step)
      → n ≡ (if leb (magnitude step) (magnitude delta) then 0 else 1)

cancel : (a b m : ℕ) → 0 < m → a * m ≤ b * m → a ≤ b
cancel a b m some_m h = grind (arith, h)

quotient_small : (d m : ℕ) → d < m → d / m ≡ 0
quotient_small d m h = grind (arith, div-add-mod d m)

quotient_large : (d m : ℕ) → 0 < m → m ≤ d → (d / m == 0) ≡ false
quotient_large d m some_m h = grind (arith, div-add-mod d m)

cancel_lt : (a b m : ℕ) → a * m < b * m → a < b
cancel_lt a b m h = grind (arith, h)

pub IsCount-still : (delta step : ℤ) → magnitude step ≡ 0 → IsCount delta step 0
IsCount-still delta step e = record {
  still = λ _. refl;
  arrived = λ _. refl;
  covers = λ moves. absurd (moves e);
  least = λ _ m _. omega arith;
  away = λ moves. absurd (moves e);
}

-- Whether two signs are equal, by a whole step in the wrong direction.
below_signs :
    (delta step : ℤ)
    → is_below delta step ≡ true
    → ((magnitude delta / magnitude step == 0) ≡ false)
      × (is_negative delta ≡ not (is_negative step))
unfolding is_below
below_signs (pos d) (pos m) e = ground (arith, e)
below_signs (pos d) (negsuc m) e = ground (arith, e)
below_signs (negsuc d) (pos m) e = ground (arith, e)
below_signs (negsuc d) (negsuc m) e = ground (arith, e)

not_below_signs :
    (delta step : ℤ)
    → is_below delta step ≡ false
    → is_negative delta ≡ not (is_negative step)
    → (magnitude delta / magnitude step == 0) ≡ true
unfolding is_below
not_below_signs (pos d) (pos m) e s = ground (arith, s)
not_below_signs (pos d) (negsuc m) e s = ground (arith, e)
not_below_signs (negsuc d) (pos m) e s = ground (arith, e)
not_below_signs (negsuc d) (negsuc m) e s = ground (arith, s)

same_signs : (b : Bool) → b ≢ not b
same_signs true e = ground (arith, e)
same_signs false e = ground (arith, e)

pub IsCount-away :
    (delta step : ℤ) → magnitude step ≢ 0 → is_below delta step ≡ true → IsCount delta step 0
IsCount-away delta step moves below =
    let (whole, signs) = below_signs delta step below in
    record {
      still = λ _. refl;
      arrived = λ _. refl;
      covers = λ _ same. absurd (same_signs (is_negative step) (sym same ∙ signs));
      least = λ _ m _. omega arith;
      away = λ _ _ _. elim (Bool-cases (leb (magnitude step) (magnitude delta))) [
        | inl long ↦ rw long refl
        | inr short ↦ ground (
          arith,
          whole,
          quotient_small (magnitude delta) (magnitude step) (ground (arith, short)),
        )
      ];
    }

pub IsCount-even :
    (delta step : ℤ)
    → magnitude step ≢ 0
    → is_below delta step ≡ false
    → magnitude delta % magnitude step ≡ 0
    → IsCount delta step (magnitude delta / magnitude step)
IsCount-even delta step moves up even =
    let d = magnitude delta in
    let m = magnitude step in
    let whole : d / m * m ≡ d = omega (arith, div-add-mod' d m, even) in
    record {
      still = λ e. absurd (moves e);
      arrived = λ e. quotient_small d m (omega (arith, e, moves));
      covers = λ _ _. omega (arith, whole);
      least = λ _ k h. cancel (d / m) k m (omega (arith, moves)) (omega (arith, whole, h));
      away = λ _ far signs.
          let none_fit : d / m ≡ 0 = (==_iff _ 0).0 (not_below_signs delta step up signs) in
          absurd (far (omega (arith, rw none_fit at whole)));
    }

pub IsCount-odd :
    (delta step : ℤ)
    → magnitude step ≢ 0
    → is_below delta step ≡ false
    → magnitude delta % magnitude step ≢ 0
    → IsCount delta step (suc (magnitude delta / magnitude step))
IsCount-odd delta step moves up odd =
    let d = magnitude delta in
    let m = magnitude step in
    let whole = div-add-mod' d m in
    let rest : d % m < m = mod-lt d (omega (arith, moves)) in
    let more : suc (d / m) * m ≡ m + d / m * m = omega arith in
    record {
      still = λ e. absurd (moves e);
      arrived = λ e. absurd (odd (omega (arith, mod-le d m, e)));
      covers = λ _ _. omega (arith, whole, rest, more);
      least = λ _ k h. cancel_lt (d / m) k m (omega (arith, whole, odd, h));
      away = λ _ _ signs.
          let none_fit : d / m ≡ 0 = (==_iff _ 0).0 (not_below_signs delta step up signs) in
          elim (Bool-cases (leb m d)) [
            | inl long ↦
                ground (
                  arith,
                  none_fit,
                  quotient_large d m (omega (arith, moves)) (ground (arith, long)),
                )
            | inr short ↦ rw (short, none_fit) refl
          ];
    }
