-- ===== src/Heap/Alloc.antt =====
-- Allocation: what is handed out lies in a block and shares no byte with what is live.
use ivm.Base.{
  ℕ, ◌+◌, ◌≤◌, ◌≡◌, refl, ◌∙◌, Bool, false, Option, none, some, leb, if◌then◌else◌, arith, inl, inr,
  ◌⊎◌,
}
use ivm.Heap.{Heap, Region}
use ivm.Heap.Blocks.{IsValid, IsLive, AreApart}

-- Above it, the rounded size is half of the address space.
abbrev pub max_request : ℕ
max_request = 9223372036854775805

-- What an allocation of `size` bytes makes of the heap.
pub record Allocated (h : Heap) (size : ℕ) (r : Region) (h' : Heap) : Type 0 where
  pub valid : IsValid h'
  pub enough : size ≤ r.len
  pub live : IsLive h' r
  pub kept : (q : Region) → IsLive h q → IsLive h' q
  pub apart : (q : Region) → IsLive h q → AreApart q r

-- The current block has room.
pub bump-Allocated :
    (h : Heap) (len : ℕ) (v : IsValid h)
    → h.bcurp + len ≤ h.bendp
    → Allocated h len
        (record { base = v.current.base; off = h.bcurp; len = len })
        (record h { bcurp = h.bcurp + len })
bump-Allocated h len v room = record {
  valid = record {
    stocked = v.stocked;
    current = v.current;
    top = v.top;
    below = room;
    inside = v.inside;
  };
  enough = omega arith;
  live = record {
    index = h.btop;
    block = v.current;
    found = v.top;
    based = refl;
    inside = omega (arith, v.inside);
    before = inr (refl, omega arith);
  };
  kept = λ q l. record {
    index = l.index;
    block = l.block;
    found = l.found;
    based = l.based;
    inside = l.inside;
    before = elim l.before [ inl b ↦ inl b | inr (at, low) ↦ inr (at, omega arith) ];
  };
  apart = λ q l. elim l.before [
    | inl b ↦ inl (λ same.
        omega
          (arith, v.stocked.apart l.index h.btop l.block v.current l.found v.top (l.based ∙ same)))
    | inr (at, low) ↦ inr (inl low)
  ];
}

-- What was handed out stays live.
abbrev pub KeepsLive : Heap → Heap → Type 0
KeepsLive h h' = (q : Region) → IsLive h q → IsLive h' q

-- The bytes that are asked for when the current block is full and there is no other.
abbrev pub asked : Heap → ℕ → ℕ
asked h len = if leb len h.bsize then h.bsize else len

-- An allocation on `h`: no block was granted, or it succeeded.
abbrev pub Outcome : (ℕ → Bool) → Heap → ℕ → ℕ → Option (Option Region × Heap) → Type 0
Outcome grants h len size run =
    ((grants (asked h len) ≡ false) × (h' : Heap) × (run ≡ some (none, h')) × KeepsLive h h')
    ⊎ ((r : Region) × (h' : Heap) × (run ≡ some (some r, h')) × Allocated h size r h')
