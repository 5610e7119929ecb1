-- ===== src/PtrList/Search.antt =====
-- ivm_ptlist_find and ivm_ptlist_indexOf: the first element that passes the test.
use ivm.Base.{
  ℕ, zero, suc, ◌+◌, ◌≤◌, ◌<◌, ◌≡◌, refl, Bool, true, false, Bool-cases, Option, none, some, List,
  arith, length, get_elem?, get_elem?_inside, get_elem?-take, ◌==◌, inl, inr, ◌⊎◌,
}
use native.Mathlib.Decide.{ℕ_discrete}
use ivm.PtrList.{PtrList, index_loop, index_of, find}
use ivm.PtrList.Memory.{items, IsValid}

-- The answer `r` of a search: the index of the first element that passes the test, or that none does.
abbrev pub IsFirst : (ℕ → Bool) → List ℕ → Option ℕ → Type 0
IsFirst same xs none = (j p : ℕ) → get_elem? xs j ≡ some p → same p ≡ false
IsFirst same xs (some i) =
    ((p : ℕ) × (get_elem? xs i ≡ some p) × (same p ≡ true))
    × ((j p : ℕ) → j < i → get_elem? xs j ≡ some p → same p ≡ false)

-- The loop from `i` on, where no element before `i` passes.
index_loop-first :
    (same : ℕ → Bool) (cells : List ℕ) (n i : ℕ)
    → i + n ≤ length cells
    → ((j p : ℕ) → j < i → get_elem? cells j ≡ some p → same p ≡ false)
    → ((index_loop same cells i n ≡ none)
        × ((j p : ℕ) → j < i + n → get_elem? cells j ≡ some p → same p ≡ false))
      ⊎ ((r : ℕ) × (index_loop same cells i n ≡ some r)
          × (r < i + n)
          × ((p : ℕ) × (get_elem? cells r ≡ some p) × (same p ≡ true))
          × ((j p : ℕ) → j < r → get_elem? cells j ≡ some p → same p ≡ false))
unfolding index_loop
index_loop-first same cells zero i h before = inl (refl, λ j p low. before j p (omega arith))
index_loop-first same cells (suc n) i h before =
    let (p, e) = get_elem?_inside cells i (omega arith) in
    elim (Bool-cases (same p)) [
      | inl hit ↦ inr (i, ground (arith, e, hit), omega arith, (p, e, hit), before)
      | inr miss ↦
          let further : (j p : ℕ) → j < suc i → get_elem? cells j ≡ some p → same p ≡ false =
            λ j q low at. elim (ℕ_discrete j i) [
              | yes here ↦ ground (arith, e, miss, here)
              | no past ↦ before j q (omega arith) at
            ] in
          elim (index_loop-first same cells n (suc i) (omega arith) further) [
            | inl (run, all) ↦ inl (ground (arith, e, miss, run), λ j p low. all j p (omega arith))
            | inr (r, run, low, at, past) ↦
                inr (r, ground (arith, e, miss, run), omega arith, at, past)
          ]
    ]

search-IsFirst :
    (l : PtrList) (same : ℕ → Bool)
    → IsValid l
    → IsFirst same (items l) (index_loop same l.lst 0 l.cur)
search-IsFirst l same v =
    let listed : (j p : ℕ)
        → get_elem? (items l) j ≡ some p
        → (j < l.cur) × (get_elem? l.lst j ≡ some p) =
      λ j p at. (
        ground (arith, get_elem?-take l.cur j l.lst),
        ground (arith, get_elem?-take l.cur j l.lst),
      ) in
    elim (index_loop-first same l.lst l.cur 0 (omega (arith, v.fits, v.sized))
      (λ j p low. absurd (omega arith))) [
        | inl (run, all) ↦
            rw run (λ j p at. let (low, held) = listed j p at in all j p (omega arith) held)
        | inr (r, run, low, (p, at, hit), past) ↦ rw run (
          (p, ground (arith, get_elem?-take l.cur r l.lst), hit),
          λ j q before at. past j q before (listed j q at).1,
        )
      ]

-- ivm_ptlist_indexOf on a valid list gives the first element that compares equal, and -1 only if
-- there is none.
index_of-IsFirst :
    (l : PtrList) (ptr : ℕ) (same : ℕ → ℕ → Bool)
    → IsValid l
    → IsFirst (λ p. same p ptr) (items l) (index_of l ptr same)
unfolding index_of
index_of-IsFirst l ptr same v = search-IsFirst l (λ p. same p ptr) v

pub find-IsFirst :
    (l : PtrList) (ptr : ℕ) → IsValid l → IsFirst (λ p. p == ptr) (items l) (find l ptr)
unfolding find
find-IsFirst l ptr v = search-IsFirst l (λ p. p == ptr) v
