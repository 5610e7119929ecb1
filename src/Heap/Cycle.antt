-- ===== src/Heap/Cycle.antt =====
-- Creation, reset and compaction of a heap.
use ivm.Base.{
  ℕ, zero, suc, ◌+◌, ◌≤◌, ◌<◌, ◌≡◌, refl, Bool-cases, some, get_elem?, get_elem?_inside,
  get_elem?-some_lt, get_elem?-take, length, leb, arith, inl, inr,
}
use ivm.Heap.{Block, Heap, Region, init, reset, compact}
use ivm.Heap.Blocks.{IsValid, IsLive}

-- A new heap is valid.
pub init-IsValid : (next bsize : ℕ) → IsValid (init next bsize)
unfolding init
init-IsValid next bsize = record {
  stocked = record { large = large; older = older; apart = apart };
  current = record { base = next; bytes = bsize };
  top = refl;
  below = omega arith;
  inside = omega arith;
}
  where
    large : (j : ℕ) (b : Block) → get_elem? (init next bsize).blocks j ≡ some b → bsize ≤ b.bytes
    large zero b e = ground (arith, e)
    large (suc zero) b e = ground (arith, e)
    large (suc (suc j)) b e = ground (arith, e)

    older :
        (j : ℕ) (b : Block)
        → get_elem? (init next bsize).blocks j ≡ some b
        → b.base < suc (suc next)
    older zero b e = ground (arith, e)
    older (suc zero) b e = ground (arith, e)
    older (suc (suc j)) b e = ground (arith, e)

    apart :
        (i j : ℕ) (b c : Block)
        → get_elem? (init next bsize).blocks i ≡ some b
        → get_elem? (init next bsize).blocks j ≡ some c
        → b.base ≡ c.base
        → i ≡ j
    apart i j b c e e' same = ground (arith, place i b e, place j c e', same)
      where
        place :
            (i : ℕ) (b : Block) → get_elem? (init next bsize).blocks i ≡ some b → b.base ≡ next + i
        place zero b e = ground (arith, e)
        place (suc zero) b e = ground (arith, e)
        place (suc (suc j)) b e = ground (arith, e)

-- ivm_heap_reset keeps a valid heap valid and its blocks, and no byte is live any more.
pub reset-IsValid :
    (h : Heap)
    → IsValid h
    → IsValid (reset h)
      × ((reset h).blocks ≡ h.blocks)
      × ((r : Region) → 0 < r.len → ¬ IsLive (reset h) r)
unfolding reset
reset-IsValid h v =
    let (b, e) =
      get_elem?_inside h.blocks 0 (omega (arith, get_elem?-some_lt h.blocks h.btop v.top)) in
    (
      record {
        stocked = v.stocked;
        current = b;
        top = e;
        below = omega arith;
        inside = v.stocked.large 0 b e;
      },
      refl,
      λ r some_byte l. omega (arith, l.before),
    )

-- ivm_heap_compact keeps a valid heap valid and everything live that was.
compact-IsValid :
    (h : Heap)
    → IsValid h
    → IsValid (compact h) × ((r : Region) → IsLive h r → IsLive (compact h) r)
unfolding compact
compact-IsValid h v = elim (Bool-cases (leb (length h.blocks) 2)) [
  | inl few ↦ rw (few, compact) (v, λ r l. l)
  | inr many ↦
      let get = λ (j : ℕ). get_elem?-take (suc h.btop) j h.blocks in
      rw (many, compact)
        (
          record {
            stocked = record {
              large = λ j b e. v.stocked.large j b (ground (arith, get j));
              older = λ j b e. v.stocked.older j b (ground (arith, get j));
              apart = λ i j b c e e'.
                  v.stocked.apart i j b c (ground (arith, get i)) (ground (arith, get j));
            };
            current = v.current;
            top = ground (arith, get h.btop, v.top);
            below = v.below;
            inside = v.inside;
          },
          λ r l. record {
            index = l.index;
            block = l.block;
            found = ground (arith, get l.index, l.found, l.before);
            based = l.based;
            inside = l.inside;
            before = l.before;
          },
        )
]
