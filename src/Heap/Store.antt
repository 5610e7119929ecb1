-- ===== src/Heap/Store.antt =====
-- A new block is stored behind the current one.
use ivm.Base.{
  ℕ, suc, ◌-◌, ◌≤◌, ◌<◌, ◌≡◌, ◌⊎◌, ◌∙◌, Bool-cases, some, [], ◌∷◌, get_elem?, get_elem?-some_lt,
  get_elem?-set, get_elem?_outside, get_elem?-append, length, ltb, ◌==◌, if◌then◌else◌, arith, inl,
  inr,
}
use ivm.Heap.{Block, Heap, store_block}
use ivm.Heap.Blocks.{IsStocked, IsValid}

order : (a c : ℕ) → (a < c) ⊎ ((a ≡ c) ⊎ (c < a))
order a c = omega arith

-- The blocks after one was stored behind the current one.
pub store_block-get :
    (h : Heap) (size : ℕ)
    → IsValid h
    → (j : ℕ)
    → get_elem? (store_block h size) j ≡ (
        if suc h.btop == j
        then some (record { base = h.next; bytes = size })
        else get_elem? h.blocks j)
unfolding store_block
store_block-get h size v j =
    let b : Block = record { base = h.next; bytes = size } in
    let top : h.btop < length h.blocks = get_elem?-some_lt h.blocks h.btop v.top in
    elim (Bool-cases (ltb (suc h.btop) (length h.blocks))) [
      | inl spare ↦ rw (spare, store_block) (get_elem?-set h.blocks (suc h.btop) j b (ground arith))
      | inr last ↦
          let width : length h.blocks ≡ suc h.btop = ground arith in
          rw (last, store_block)
            (get_elem?-append h.blocks (b ∷ []) j (suc h.btop) width ∙ behind b width)
    ]
  where
    behind :
        (b : Block)
        → length h.blocks ≡ suc h.btop
        → (if ltb j (suc h.btop) then get_elem? h.blocks j else get_elem? (b ∷ []) (j - suc h.btop))
          ≡ (if suc h.btop == j then some b else get_elem? h.blocks j)
    behind b width = elim (order j (suc h.btop)) [
      | inl low ↦ ground arith
      | inr (inl here) ↦
          let none_over : j - suc h.btop ≡ 0 = omega arith in ground (arith, none_over)
      | inr (inr high) ↦
          let (n, e) : (n : ℕ) × (j - suc h.btop ≡ suc n) = (j - suc h.btop - 1, omega arith) in
          ground (arith, e, get_elem?_outside h.blocks j (omega arith))
    ]

pub store_block-IsStocked :
    (h : Heap) (size : ℕ)
    → IsValid h
    → h.bsize ≤ size
    → IsStocked h.bsize (suc h.next) (store_block h size)
store_block-IsStocked h size v enough =
    let get = store_block-get h size v in
    record {
      large = λ j b e. ground (arith, get j, v.stocked.large j b);
      older = λ j b e. ground (arith, get j, v.stocked.older j b);
      apart = λ i j b c e e' same.
          ground (
            arith,
            get i,
            get j,
            v.stocked.apart i j b c,
            v.stocked.older i b,
            v.stocked.older j c,
          );
    }
