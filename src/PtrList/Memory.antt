-- ===== src/PtrList/Memory.antt =====
-- The memory of a pointer list, its invariant, and the elements that it stands for.
use ivm.Base.{
  ℕ, zero, suc, ◌*◌, ◌≤◌, ◌<◌, ◌≡◌, refl, ap, Bool-cases, some, List, [], ◌∷◌, arith, length, set,
  take, leb, ltb, if◌then◌else◌, inl, inr,
}
use ivm.PtrList.{PtrList, realloc, store, inc, inc_to}

pub length-realloc : (junk : ℕ → ℕ) (n : ℕ) (cells : List ℕ) → length (realloc junk n cells) ≡ n
unfolding realloc
length-realloc junk zero cells = refl
length-realloc junk (suc n) [] = ap suc (length-realloc junk n [])
length-realloc junk (suc n) (c ∷ cells) = ap suc (length-realloc junk n cells)

pub take-realloc :
    (junk : ℕ → ℕ) (n m : ℕ) (cells : List ℕ)
    → n ≤ m
    → n ≤ length cells
    → take n (realloc junk m cells) ≡ take n cells
unfolding take realloc
take-realloc junk zero m cells low high = refl
take-realloc junk (suc n) zero cells low high = absurd (omega arith)
take-realloc junk (suc n) (suc m) [] low high = absurd (omega arith)
take-realloc junk (suc n) (suc m) (c ∷ cells) low high =
    ap (λ l. c ∷ l) (take-realloc junk n m cells (omega arith) (omega arith))

pub store_inside :
    (cells : List ℕ) (i p : ℕ) → i < length cells → store cells i p ≡ some (set cells i p)
unfolding store
store_inside cells i p h = ground arith

-- The elements.
abbrev pub items : PtrList → List ℕ
items l = take l.cur l.lst

-- All elements lie in the memory, and there is some memory.
pub record IsValid (l : PtrList) : Type 0 where
  pub sized : length l.lst ≡ l.alloc
  pub fits : l.cur ≤ l.alloc
  pub roomy : 0 < l.alloc

-- A list with room for `size` elements that has the elements of `l`.
pub record Roomy (l : PtrList) (size : ℕ) (r : PtrList) : Type 0 where
  pub valid : IsValid r
  pub same : r.cur ≡ l.cur
  pub kept : items r ≡ items l
  pub room : size ≤ r.alloc

pub inc-Roomy :
    (junk : ℕ → ℕ) (l : PtrList)
    → IsValid l
    → Roomy l (suc l.cur) (if leb l.alloc l.cur then inc junk l else l)
unfolding inc
inc-Roomy junk l v = elim (Bool-cases (leb l.alloc l.cur)) [
  | inl full ↦
      rw (full, inc)
        (record {
          valid = record {
            sized = length-realloc junk (l.alloc * 2) l.lst;
            fits = omega (arith, v.fits);
            roomy = omega (arith, v.roomy);
          };
          same = refl;
          kept =
              take-realloc junk l.cur (l.alloc * 2) l.lst (omega (arith, v.fits))
                (omega (arith, v.fits, v.sized));
          room = omega (arith, v.fits, v.roomy);
        })
  | inr room ↦ rw room (record { valid = v; same = refl; kept = refl; room = ground arith })
]

pub inc_to-Roomy :
    (junk : ℕ → ℕ) (l : PtrList) (size : ℕ) → IsValid l → Roomy l size (inc_to junk l size)
unfolding inc_to
inc_to-Roomy junk l size v = elim (Bool-cases (ltb l.alloc size)) [
  | inl small ↦
      let above : l.alloc < size = ground arith in
      rw (small, inc_to)
        (record {
          valid = record {
            sized = length-realloc junk size l.lst;
            fits = omega (arith, v.fits);
            roomy = omega (arith, v.roomy);
          };
          same = refl;
          kept =
              take-realloc junk l.cur size l.lst (omega (arith, v.fits))
                (omega (arith, v.fits, v.sized));
          room = omega arith;
        })
  | inr room ↦
      rw (room, inc_to) (record { valid = v; same = refl; kept = refl; room = ground arith })
]
