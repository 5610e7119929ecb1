-- ===== src/Heap/Blocks.antt =====
-- The invariant of a heap, and the regions that it has handed out.
use ivm.Base.{ℕ, ◌+◌, ◌≤◌, ◌<◌, ◌≡◌, ◌≢◌, ◌⊎◌, some, List, get_elem?}
use ivm.Heap.{Block, Heap, Region}

-- The blocks have different bases, all handed out before, and none is smaller than usual.
pub record IsStocked (bsize next : ℕ) (blocks : List Block) : Type 0 where
  pub large : (j : ℕ) (b : Block) → get_elem? blocks j ≡ some b → bsize ≤ b.bytes
  pub older : (j : ℕ) (b : Block) → get_elem? blocks j ≡ some b → b.base < next
  pub apart :
      (i j : ℕ) (b c : Block)
      → get_elem? blocks i ≡ some b
      → get_elem? blocks j ≡ some c
      → b.base ≡ c.base
      → i ≡ j

pub record IsValid (h : Heap) : Type 0 where
  pub stocked : IsStocked h.bsize h.next h.blocks
  pub current : Block
  pub top : get_elem? h.blocks h.btop ≡ some current
  pub below : h.bcurp ≤ h.bendp
  pub inside : h.bendp ≤ current.bytes

-- A region that the heap has handed out since its last reset lies inside a block before the
-- current one, or in the current one below the next free byte.
pub record IsLive (h : Heap) (r : Region) : Type 0 where
  pub index : ℕ
  pub block : Block
  pub found : get_elem? h.blocks index ≡ some block
  pub based : block.base ≡ r.base
  pub inside : r.off + r.len ≤ block.bytes
  pub before : (index < h.btop) ⊎ ((index ≡ h.btop) × (r.off + r.len ≤ h.bcurp))

-- Two regions share no byte.
abbrev pub AreApart : Region → Region → Type 0
AreApart q r = (q.base ≢ r.base) ⊎ ((q.off + q.len ≤ r.off) ⊎ (r.off + r.len ≤ q.off))
