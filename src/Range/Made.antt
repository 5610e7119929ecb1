-- ===== src/Range/Made.antt =====
-- vm/range.c: the numbers of the ranges that are made.
use ivm.Base.{◌<◌}
use ivm.Range.{Range}
use ivm.Range.Ints.{ℤ, magnitude}

-- Numbers whose sums and differences are far from the ends of an ivm_long_t.
abbrev pub IsSmall : ℤ → Type 0
IsSmall a = magnitude a < 2305843009213693952
