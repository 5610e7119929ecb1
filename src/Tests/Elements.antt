-- ===== src/Tests/Elements.antt =====
-- A pool at concrete sizes.
use ivm.Base.{ℕ, List, Bool, ltb, ◌+◌, ◌*◌, ◌≡◌, refl, some, [], ◌∷◌, ◌++◌, inr, ◌⊎◌, arith}
use ivm.Heap
use ivm.Heap.{Region, Block}
use ivm.Heap.Blocks
use ivm.Heap.Alloc.{bump-Allocated}
use ivm.Heap.Blocks.{AreApart}
use ivm.Pool.{Pool, pool_init, pool_dump}
use ivm.Pool.Hold.{Holds, Taken, heap-Taken, pool_init-Holds, pool_dump-Holds}

abbrev junk : ℕ → ℕ
junk i = 0

-- Blocks of a megabyte behind the address 16.
abbrev address : Region → ℕ
address r = 16 + (r.base * 1048576 + r.off)

abbrev pool : Pool
pool = pool_init junk 0 4 24

abbrev Nothing : Region → Type 0
Nothing r = ⊥

abbrev pool-Holds : Holds address pool [] Nothing
pool-Holds = pool_init-Holds address junk 0 4 24 (omega arith)

-- Fewer than 2^40 bytes are granted.
abbrev grants : ℕ → Bool
grants n = ltb n 1099511627776

abbrev unset : Block
unset = record { base = 77; bytes = 0 }

abbrev no_elements : List Region
no_elements = []

-- The first element, and the pool without it.
abbrev first : Region
first = record { base = 0; off = 0; len = 24 }

abbrev less : Pool
less = record pool { heap = record pool.heap { bcurp = 24 } }

pool_heap-IsValid : Blocks.IsValid pool.heap
unfolding pool_init Heap.init
pool_heap-IsValid = record {
  stocked = pool-Holds.heap_valid.stocked;
  current = record { base = 0; bytes = 96 };
  top = refl;
  below = omega arith;
  inside = omega arith;
}

taken : Taken address pool less Nothing first
unfolding pool_init Heap.init pool_heap-IsValid
taken =
    heap-Taken address pool Nothing first (record pool.heap { bcurp = 24 }) pool-Holds
      (bump-Allocated pool.heap 24 pool_heap-IsValid (omega arith))

pool_dump-Holds_example :
    (pool' : Pool) × (pool_dump junk less (address first) ≡ some pool')
    × Holds address pool'
        (taken.rest ++ first ∷ [])
        (λ q. ((Nothing q) ⊎ (q ≡ first)) × AreApart q first)
pool_dump-Holds_example =
    pool_dump-Holds address junk less taken.rest (λ q. (Nothing q) ⊎ (q ≡ first)) first taken.holds
      (inr refl)
