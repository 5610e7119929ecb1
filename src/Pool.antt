-- ===== src/Pool.antt =====
-- std/pool.h and std/pool.c: the pool of elements of one size (ivm_ptpool_t), a heap with a list of
-- the elements that were given back. `address` is where a region of the heap lies in memory,
-- `grants` and `unset` are those of the heap.
pub mod Hold
use ivm.Base.{ℕ, ◌*◌, Bool, Option, none, some, ◌==◌, if◌then◌else◌}
use ivm.Heap
use ivm.Heap.{Block, Heap, Region}
use ivm.PtrList
use ivm.PtrList.{PtrList}

pub record Pool : Type 0 where
  pub heap : Heap
  pub esize : ℕ
  pub freed : PtrList

-- ivm_ptpool_init; `next` and `junk` are the memory that the heap and the list get.
unfoldable pub pool_init : (ℕ → ℕ) → ℕ → ℕ → ℕ → Pool
pool_init junk next ecount esize = record {
  heap = Heap.init next (ecount * esize);
  esize = esize;
  freed = PtrList.init junk ecount;
}

module _ (address : Region → ℕ) (grants : ℕ → Bool) (unset : Block) where
  -- ivm_ptpool_alloc
  unfoldable pub pool_alloc : Pool → Option (ℕ × Pool)
  pool_alloc pool = elim (PtrList.pop pool.freed) [
    | none ↦ none
    | some (tmp, freed) ↦
        if tmp == 0
        then elim (Heap.alloc grants unset pool.heap pool.esize) [
          | none ↦ none
          | some (none, heap) ↦ some (0, record pool { heap = heap; freed = freed })
          | some (some r, heap) ↦ some (address r, record pool { heap = heap; freed = freed })
        ]
        else some (tmp, record pool { freed = freed })
  ]

-- ivm_ptpool_dump: an element is given back.
unfoldable pub pool_dump : (ℕ → ℕ) → Pool → ℕ → Option Pool
pool_dump junk pool ptr = elim (PtrList.push junk pool.freed ptr) [
  | none ↦ none
  | some (_, freed) ↦ some (record pool { freed = freed })
]

-- ivm_ptpool_dumpAll
unfoldable pub pool_dump_all : Pool → Pool
pool_dump_all pool = record pool {
  heap = Heap.reset pool.heap;
  freed = record pool.freed { cur = 0 };
}
