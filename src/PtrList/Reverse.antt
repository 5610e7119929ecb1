-- ===== src/PtrList/Reverse.antt =====
-- ivm_ptlist_reverse: swapping from both ends until they meet.
use ivm.Base.{
  ℕ, zero, suc, ◌+◌, ◌-◌, ◌≤◌, ◌<◌, ◌≡◌, ◌≢◌, refl, ◌∙◌, Bool-cases, some, List, arith, length,
  length-set, get_elem?, get_elem?_inside, get_elem?-set, get_elem?-take, set, leb, ltb, ◌==◌,
  if◌then◌else◌, inl, inr, ◌&&◌,
}
use native.Mathlib.Decide.{ℕ_discrete}
use ivm.PtrList.{PtrList, reverse_loop, reverse}
use ivm.PtrList.Memory.{items, IsValid}

swap-get :
    (cells : List ℕ) (lo hi a b k : ℕ)
    → lo < length cells
    → hi < length cells
    → get_elem? (set (set cells lo b) hi a) k
      ≡ (if hi == k then some a else (if lo == k then some b else get_elem? cells k))
swap-get cells lo hi a b k low high = ground (
  arith,
  get_elem?-set (set cells lo b) hi k a (omega (arith, length-set cells lo b)),
  get_elem?-set cells lo k b low,
)

swap_past :
    (cells : List ℕ) (lo hi a b k : ℕ)
    → lo < length cells
    → hi < length cells
    → k ≢ lo
    → k ≢ hi
    → get_elem? (set (set cells lo b) hi a) k ≡ get_elem? cells k
swap_past cells lo hi a b k low high first last =
    ground (arith, swap-get cells lo hi a b k low high)

-- Between the two swapped cells the rest of the loop mirrors, outside it changes nothing.
inner-get :
    (cells r swapped : List ℕ) (lo hi j : ℕ)
    → suc lo < hi
    → j ≢ lo
    → j ≢ hi - 1
    → suc lo + (hi - 1) - 1 - j ≡ lo + hi - 1 - j
    → get_elem? r j ≡ (
        if leb (suc lo) j && ltb j (hi - 1)
        then get_elem? swapped (suc lo + (hi - 1) - 1 - j)
        else get_elem? swapped j)
    → ((k : ℕ) → k ≢ lo → k ≢ hi - 1 → get_elem? swapped k ≡ get_elem? cells k)
    → get_elem? r j
      ≡ (if leb lo j && ltb j hi then get_elem? cells (lo + hi - 1 - j) else get_elem? cells j)
inner-get cells r swapped lo hi j below first last over get past =
    let narrow : (leb (suc lo) j && ltb j (hi - 1)) ≡ (leb lo j && ltb j hi) = ground arith in
    elim (Bool-cases (leb lo j && ltb j hi)) [
      | inr out ↦ rw out ((rw (narrow, out) at get) ∙ past j first last)
      | inl within ↦
          let (low, high) : (lo < j) × (j < hi) =
            (ground (arith, within, first), ground (arith, within)) in
          rw within (
            (rw (narrow, within, over) at get)
            ∙ past (lo + hi - 1 - j) (λ e. omega arith) (λ e. omega arith))
    ]

-- The loop mirrors the cells from `lo` to `hi` and no others.
reverse_loop-mirrors :
    (fuel : ℕ) (cells : List ℕ) (lo hi : ℕ)
    → hi ≤ length cells
    → hi - lo < fuel
    → (r : List ℕ) × (reverse_loop fuel cells lo hi ≡ some r)
      × (length r ≡ length cells)
      × ((j : ℕ)
          → get_elem? r j ≡ (
              if leb lo j && ltb j hi
              then get_elem? cells (lo + hi - 1 - j)
              else get_elem? cells j))
unfolding reverse_loop
reverse_loop-mirrors zero cells lo hi h few = absurd (omega arith)
reverse_loop-mirrors (suc fuel) cells lo hi h few = elim (Bool-cases (ltb (suc lo) hi)) [
  | inr met ↦ (
    cells,
    ground (arith, met),
    refl,
    λ j. elim (Bool-cases (leb lo j && ltb j hi)) [
      | inr out ↦ ground (arith, out)
      | inl within ↦
          let middle : lo + hi - 1 - j ≡ j = ground (arith, within, met) in rw (within, middle) refl
    ],
  )
  | inl apart ↦
      let below : suc lo < hi = ground arith in
      let (a, ea) = get_elem?_inside cells lo (omega arith) in
      let (b, eb) = get_elem?_inside cells (hi - 1) (omega arith) in
      let swapped = set (set cells lo b) (hi - 1) a in
      let width : length swapped ≡ length cells =
        length-set (set cells lo b) (hi - 1) a ∙ length-set cells lo b in
      let (r, run, same, get) =
        reverse_loop-mirrors fuel swapped (suc lo) (hi - 1) (omega arith) (omega arith) in
      let past = λ (k : ℕ). swap_past cells lo (hi - 1) a b k (omega arith) (omega arith) in
      let look = λ (k : ℕ). swap-get cells lo (hi - 1) a b k (omega arith) (omega arith) in
      (
        r,
        ground (arith, apart, ea, eb, run),
        same ∙ width,
        λ j.
            let over : suc lo + (hi - 1) - 1 - j ≡ lo + hi - 1 - j = omega arith in
            elim (ℕ_discrete j lo) [
              | yes first ↦
                  let far : lo + hi - 1 - j ≡ hi - 1 = omega arith in
                  ground (arith, get j, look j, far)
              | no notfirst ↦ elim (ℕ_discrete j (hi - 1)) [
                | yes last ↦
                    let far : lo + hi - 1 - j ≡ lo = omega arith in
                    ground (arith, get j, look j, far)
                | no notlast ↦
                    inner-get cells r swapped lo hi j below notfirst notlast over (get j) past
              ]
            ],
      )
]

-- ivm_ptlist_reverse ends on every valid list without an access outside its memory, and mirrors
-- the elements.
reverse-mirrors :
    (l : PtrList)
    → IsValid l
    → (l' : PtrList) × (reverse l ≡ some l')
      × IsValid l'
      × (l'.cur ≡ l.cur)
      × ((i : ℕ) → i < l.cur → get_elem? (items l') i ≡ get_elem? (items l) (l.cur - 1 - i))
unfolding reverse
reverse-mirrors l v =
    let (r, run, width, get) =
      reverse_loop-mirrors (suc l.cur) l.lst 0 l.cur (omega (arith, v.fits, v.sized))
        (omega arith) in
    (
      record l { lst = r },
      ground (arith, run),
      record { sized = width ∙ v.sized; fits = v.fits; roomy = v.roomy },
      refl,
      λ i h.
          let at : 0 + l.cur - 1 - i ≡ l.cur - 1 - i = omega arith in
          ground (
            arith,
            get i,
            at,
            get_elem?-take l.cur i r,
            get_elem?-take l.cur (l.cur - 1 - i) l.lst,
          ),
    )
