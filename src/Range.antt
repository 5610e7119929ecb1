-- ===== src/Range.antt =====
-- vm/range.c: ranges of integers and their iterators. An integer is a difference of two numbers;
-- where a range is made, an overflow of ivm_long_t, which has 64 bits, is none. The iterator of such
-- a range stays between its ends. `/` rounds towards zero.
pub mod Ints
pub mod Collect
pub mod Counted
pub mod Made
use ivm.Base.{
  ℕ, zero, suc, ◌+◌, ◌*◌, ◌/◌, ◌%◌, Bool, true, false, not, ◌&&◌, Option, none, some, List, [], ◌∷◌,
  ltb, ◌==◌, if◌then◌else◌,
}
use ivm.Range.Ints.{
  ℤ, pos, negsuc, pos_part, neg_part, sub_ℕ, ◌+ℤ◌, ◌-ℤ◌, eq_ℤ, magnitude, is_negative,
}

-- `count * step`
unfoldable pub scale : ℕ → ℤ → ℤ
scale count step = sub_ℕ (count * pos_part step) (count * neg_part step)

-- ivm_range_t
pub record Range : Type 0 where
  pub from : ℤ
  pub to : ℤ
  pub step : ℤ

abbrev pub no_range : Range
no_range = record { from = pos 0; to = pos 0; step = pos 0 }

-- `delta / step`, for a step that is not 0: is it below 0, and its magnitude.
unfoldable pub is_below : ℤ → ℤ → Bool
is_below delta step =
    not (magnitude delta / magnitude step == 0)
    && (if is_negative delta then not (is_negative step) else is_negative step)

-- Is a number an ivm_long_t?
unfoldable pub fits : ℤ → Bool
fits (pos n) = ltb n 9223372036854775808
fits (negsuc n) = ltb n 9223372036854775808

-- The end behind the last number: the end that is given, or the first one in equal steps behind it.
unfoldable pub align : ℤ → ℤ → ℤ → ℕ → Option ℤ
unfolding fits scale
align from to step count =
    if magnitude (to -ℤ from) % magnitude step == 0
    then some to
    else let moved = scale (suc count) step in
      if fits moved && fits (from +ℤ moved) then some (from +ℤ moved) else none

-- ivm_range_new; none is an overflow of ivm_long_t.
unfoldable pub range_new : ℤ → ℤ → ℤ → Option Range
unfolding fits is_below align
range_new from to step =
    let delta = to -ℤ from in
    let count = magnitude delta / magnitude step in
    if magnitude step == 0
    then some no_range
    else (if not (fits delta)
        then none
        else (if is_below delta step
            then some no_range
            else (if not (ltb count 9223372036854775808)
                then none
                else elim (align from to step count) [
                  | none ↦ none
                  | some end ↦ some (record { from = from; to = end; step = step })
                ])))

-- ivm_range_iter_next: the next number and the iterator, whose fields are those of a range with
-- `from` as its current number; none at the end.
unfoldable pub iter_next : Range → Option (ℤ × Range)
iter_next iter =
    if eq_ℤ iter.from iter.to
    then none
    else some (iter.from, record iter { from = iter.from +ℤ iter.step })

-- The numbers of a whole iteration; none for fuel that ran out.
unfoldable pub collect : ℕ → Range → Option (List ℤ)
collect zero iter = none
collect (suc fuel) iter = elim (iter_next iter) [
  | none ↦ some []
  | some (n, iter') ↦ elim (collect fuel iter') [ none ↦ none | some ns ↦ some (n ∷ ns) ]
]
