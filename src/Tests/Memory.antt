-- ===== src/Tests/Memory.antt =====
-- A heap with blocks of 16 bytes.
use ivm.Base.{ℕ, Bool, ltb, ◌≡◌, refl, Option, none, some, [], ◌∷◌, ◌++◌}
use ivm.Heap.{Block, Heap, Region, init, alloc, align4, add_block, add_large_block, store_block}

abbrev blank : Heap
blank = init 0 16

-- Twelve bytes are handed out, in a block of sixteen.
abbrev used_heap : Heap
used_heap = record blank { bcurp = 12 }

-- Fewer than 2^40 bytes are granted.
abbrev grants : ℕ → Bool
grants n = ltb n 1099511627776

-- What an uninitialised slot holds.
abbrev unset : Block
unset = record { base = 77; bytes = 0 }

ten_bytes :
    alloc grants unset blank 10 ≡ some (some (record { base = 0; off = 0; len = 12 }), used_heap)
unfolding alloc align4 init
ten_bytes = refl

-- A request above the block size gets a block of its own.
large_request :
    alloc grants unset blank 33
    ≡ some (
      some (record { base = 2; off = 0; len = 36 }),
      record blank { btop = 1; bcurp = 36; bendp = 36; blocks = store_block blank 36; next = 3 },
    )
unfolding alloc align4 init add_block add_large_block store_block
large_request = refl

region_of : Option (Option Region × Heap) → Option Region
region_of none = none
region_of (some (r, h)) = r

-- A block that is refused leaves a slot uninitialised when it would have been the last one, and the
-- next small request is answered from that slot.
abbrev topped : Heap
topped = record used_heap { btop = 1; blocks = blank.blocks }

abbrev after_refusal : Heap
after_refusal = record topped { bcurp = 2199023255564; blocks = blank.blocks ++ unset ∷ [] }

refused_request : alloc grants unset topped 2199023255552 ≡ some (none, after_refusal)
unfolding alloc align4 init add_block add_large_block
refused_request = refl

next_request :
    region_of (alloc grants unset after_refusal 4) ≡ some (record { base = 77; off = 0; len = 4 })
unfolding alloc align4 init add_block add_large_block region_of
next_request = refl
