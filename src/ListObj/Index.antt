-- ===== src/ListObj/Index.antt =====
-- vm/listobj.h: indices from the end of a list.
use ivm.Base.{
  ℕ, suc, ◌+◌, ◌-◌, ◌%◌, ◌<◌, ◌≤◌, ◌≡◌, refl, ap, sym, ◌∙◌, false, length, get_elem?, ◌==◌,
  Bool-cases, inl, inr, arith,
}
use native.Mathlib.Nat.{mod-lt, add-mod-mod, mod_self}
use ivm.Range.Ints.{pos, negsuc}
use ivm.ListObj.{ListObj, real_index, list_get}

-- All elements lie in the memory.
pub record IsValid (l : ListObj) : Type 0 where
  pub sized : length l.lst ≡ l.alloc
  pub fits : l.size ≤ l.alloc

-- The index that a number from the end means.
real_index-negative :
    (size n : ℕ)
    → 0 < size
    → (real_index size (negsuc n) < size) × ((real_index size (negsuc n) + suc n) % size ≡ 0)
unfolding real_index
real_index-negative size n some_element =
    let there : (size == 0) ≡ false = ground arith in
    let small = mod-lt (suc n) some_element in
    elim (Bool-cases (suc n % size == 0)) [
      | inl first ↦
          let whole : suc n % size ≡ 0 = ground arith in
          let start : 0 + suc n ≡ suc n = omega arith in
          rw (there, first) (some_element, rw start whole)
      | inr later ↦
          let back : size - suc n % size + suc n % size ≡ size = omega arith in
          let sum : (size - suc n % size + suc n) % size ≡ 0 =
            sym (add-mod-mod (size - suc n % size) (suc n) size)
            ∙ ap (λ m. m % size) back
            ∙ mod_self size in
          rw (there, later) (ground (arith, later, small), sum)
    ]

list_get-negative :
    (l : ListObj) (n : ℕ)
    → 0 < l.size
    → list_get l (negsuc n) ≡ get_elem? l.lst (real_index l.size (negsuc n))
unfolding list_get real_index
list_get-negative l n some_element =
    let there : (l.size == 0) ≡ false = ground arith in
    elim (Bool-cases (suc n % l.size == 0)) [
      | inl first ↦ rw (list_get, real_index, there, first) refl
      | inr later ↦ rw (list_get, real_index, there, later) refl
    ]

-- A negative index reads the element at the real index, which is congruent to it.
list_get-real_index :
    (l : ListObj) (n : ℕ)
    → 0 < l.size
    → (list_get l (negsuc n) ≡ list_get l (pos (real_index l.size (negsuc n))))
      × (real_index l.size (negsuc n) < l.size)
      × ((real_index l.size (negsuc n) + suc n) % l.size ≡ 0)
unfolding list_get
list_get-real_index l n some_element =
    let (inside, wraps) = real_index-negative l.size n some_element in
    (list_get-negative l n some_element ∙ ground (arith, inside), inside, wraps)
