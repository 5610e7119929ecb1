-- ===== src/Heap.antt =====
-- std/heap.h and std/heap.c: the bump allocator (ivm_heap_t). A block of memory is its base, which
-- stands for its address, and its size; STD_ALLOC hands out the bases in order, `next` being the
-- next one. Pointers into a block are offsets, and `bcurp` and `bendp` are such into the current
-- block. An access to a block that is not there is none.
pub mod Blocks
pub mod Store
pub mod Alloc
pub mod Cycle
use ivm.Base.{
  ℕ, suc, ◌+◌, ◌*◌, ◌/◌, ◌%◌, Bool, Option, none, some, List, [], ◌∷◌, ◌++◌, get_elem?, set, take,
  length, ltb, leb, ◌==◌, if◌then◌else◌,
}

pub record Block : Type 0 where
  pub base : ℕ
  pub bytes : ℕ

pub record Heap : Type 0 where
  pub btop : ℕ
  pub bsize : ℕ
  pub bendp : ℕ
  pub bcurp : ℕ
  pub blocks : List Block
  pub next : ℕ

-- What an allocation hands out: `len` bytes from the offset `off` in a block.
pub record Region : Type 0 where
  pub base : ℕ
  pub off : ℕ
  pub len : ℕ

-- ivm_heap_init
unfoldable pub init : ℕ → ℕ → Heap
init next bsize = record {
  btop = 0;
  bsize = bsize;
  bendp = bsize;
  bcurp = 0;
  blocks = record { base = next; bytes = bsize } ∷ record { base = suc next; bytes = bsize } ∷ [];
  next = suc (suc next);
}

-- ivm_heap_reset
unfoldable pub reset : Heap → Heap
reset h = record h { btop = 0; bcurp = 0; bendp = h.bsize }

-- ivm_heap_compact, with IVM_DEFAULT_HEAP_MAX_COMPACT_BC.
unfoldable pub compact : Heap → Heap
compact h = if leb (length h.blocks) 2 then h else record h { blocks = take (suc h.btop) h.blocks }

-- ivm_heap_align4, on 64 bits.
unfoldable pub align4 : ℕ → ℕ
align4 size = if size % 4 == 0 then size else (size / 4 * 4 + 4) % 18446744073709551616

-- The blocks after a block that STD_ALLOC returned was stored at the index behind the current one:
-- in place of the block there, or as a new last one.
unfoldable pub store_block : Heap → ℕ → List Block
store_block h size =
    let b : Block = record { base = h.next; bytes = size } in
    if ltb (suc h.btop) (length h.blocks) then set h.blocks (suc h.btop) b else h.blocks ++ b ∷ []

-- NULL as a block.
abbrev pub null_block : Block
null_block = record { base = 0; bytes = 0 }

-- Half of the address space, in which the blocks lie.
abbrev pub max_bytes : ℕ
max_bytes = 9223372036854775808

-- `grants` says which numbers of bytes STD_ALLOC grants, `junk` what an uninitialised slot for a
-- block holds. NULL is the answer none.
module _ (grants : ℕ → Bool) (junk : Block) where
  -- _ivm_heap_addLargeBlock: a slot that was added for a block which is not granted stays
  -- uninitialised.
  unfoldable pub add_large_block : Heap → ℕ → Option Region × Heap
  add_large_block h size =
      if grants size
      then (
        some (record { base = h.next; off = 0; len = size }),
        record h {
          btop = suc h.btop;
          bcurp = size;
          bendp = size;
          blocks = store_block h size;
          next = suc h.next;
        },
      )
      else (
        none,
        record h {
          blocks = if ltb (suc h.btop) (length h.blocks) then h.blocks else h.blocks ++ junk ∷ [];
        },
      )

  -- _ivm_heap_addBlock, which does not look whether a block was granted.
  unfoldable pub add_block : Heap → ℕ → Option (Option Region × Heap)
  add_block h size =
      let reused = record h { btop = suc h.btop; bcurp = size; bendp = h.bsize } in
      let spare : Option (Option Region × Heap) = elim (get_elem? h.blocks (suc h.btop)) [
        | none ↦ none
        | some b ↦ some (some (record { base = b.base; off = 0; len = size }), reused)
      ] in
      let added : Option Region × Heap =
        if grants h.bsize
        then (
          some (record { base = h.next; off = 0; len = size }),
          record reused { blocks = store_block h h.bsize; next = suc h.next },
        )
        else (none, record reused { blocks = h.blocks ++ null_block ∷ [] }) in
      if leb size h.bsize
      then (if ltb (suc h.btop) (length h.blocks) then spare else some added)
      else some (add_large_block h size)

  -- ivm_heap_alloc: the pointer is moved before the test. A pointer that is moved by half of the
  -- address space or more is none.
  unfoldable pub alloc : Heap → ℕ → Option (Option Region × Heap)
  alloc h size =
      let len = align4 size in
      let moved = record h { bcurp = h.bcurp + len } in
      let here : Option (Option Region × Heap) = elim (get_elem? h.blocks h.btop) [
        | none ↦ none
        | some b ↦ some (some (record { base = b.base; off = h.bcurp; len = len }), moved)
      ] in
      if leb max_bytes len
      then none
      else (if leb (h.bcurp + len) h.bendp then here else add_block moved len)
