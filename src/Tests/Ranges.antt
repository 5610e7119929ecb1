-- ===== src/Tests/Ranges.antt =====
-- Ranges of a few numbers.
use ivm.Base.{ℕ, ◌≡◌, refl, Option, none, some, List, [], ◌∷◌}
use ivm.Range.{Range, scale, is_below, fits, align, range_new, iter_next, collect}
use ivm.Range.Ints.{ℤ, pos, negsuc, ◌+ℤ◌, ◌-ℤ◌}

-- The numbers of a range that is made.
numbers : ℕ → Option Range → Option (List ℤ)
numbers fuel none = none
numbers fuel (some r) = collect fuel r

-- 0, 2, 4 below 5
steps_of_two : numbers 4 (range_new (pos 0) (pos 5) (pos 2)) ≡ some (pos 0 ∷ pos 2 ∷ pos 4 ∷ [])
unfolding numbers collect iter_next range_new is_below fits align scale ◌+ℤ◌ ◌-ℤ◌
steps_of_two = refl

-- Upwards by 2 from 0 to -1 is not empty.
past_the_end : numbers 2 (range_new (pos 0) (negsuc 0) (pos 2)) ≡ some (pos 0 ∷ [])
unfolding numbers collect iter_next range_new is_below fits align scale ◌+ℤ◌ ◌-ℤ◌
past_the_end = refl

-- The distance from 1 down to the least number overflows.
too_far : range_new (pos 1) (negsuc 9223372036854775807) (negsuc 0) ≡ none
unfolding range_new is_below fits ◌-ℤ◌
too_far = refl
