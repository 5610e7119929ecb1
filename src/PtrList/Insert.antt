-- ===== src/PtrList/Insert.antt =====
-- ivm_ptlist_insert: the element at an index, with NULL in the cells that are added before it.
use ivm.Base.{
  ℕ, zero, suc, ◌+◌, ◌-◌, ◌≤◌, ◌<◌, ◌≡◌, refl, ◌∙◌, ap, Bool-cases, none, some, List, arith, length,
  length-set, get_elem?, get_elem?-set, get_elem?-take, set, leb, ltb, ◌==◌, if◌then◌else◌, inl,
  inr, ◌&&◌,
}
use ivm.PtrList.{PtrList, clear, inc_to, insert}
use ivm.PtrList.Memory.{items, IsValid, inc_to-Roomy, store_inside}

pub clear-cells :
    (n i : ℕ) (cells : List ℕ)
    → i + n ≤ length cells
    → (c : List ℕ) × (clear cells i n ≡ some c)
      × (length c ≡ length cells)
      × ((j : ℕ) → get_elem? c j ≡ (if leb i j && ltb j (i + n) then some 0 else get_elem? cells j))
unfolding clear
clear-cells zero i cells h = (cells, refl, refl, λ j. ground arith)
clear-cells (suc n) i cells h =
    let width = length-set cells i 0 in
    let (c, run, same, get) = clear-cells n (suc i) (set cells i 0) (omega arith) in
    (
      c,
      ground (arith, store_inside cells i 0 (omega arith), run),
      same ∙ width,
      λ j. ground (arith, get j, get_elem?-set cells i j 0 (omega arith)),
    )

-- ivm_ptlist_insert on a valid list stays inside the memory; the element then stands at the index,
-- the others are as before, and cells added in between are NULL.
pub insert-items :
    (junk : ℕ → ℕ) (l : PtrList) (i p : ℕ)
    → IsValid l
    → (l' : PtrList) × (insert junk l i p ≡ some l')
      × IsValid l'
      × (l'.cur ≡ (if ltb i l.cur then l.cur else suc i))
      × ((j : ℕ)
          → get_elem? (items l') j ≡ (
              if i == j
              then some p
              else (if ltb j l.cur
                  then get_elem? (items l) j
                  else (if ltb j i then some 0 else none))))
unfolding insert
insert-items junk l i p v = elim (Bool-cases (leb l.cur i)) [
  | inr inside ↦
      let low : i < length l.lst = ground (arith, v.fits, v.sized) in
      (
        record l { lst = set l.lst i p },
        ground (arith, inside, store_inside l.lst i p low),
        record { sized = length-set l.lst i p ∙ v.sized; fits = v.fits; roomy = v.roomy },
        ground arith,
        λ j. ground (
          arith,
          get_elem?-take l.cur j (set l.lst i p),
          get_elem?-take l.cur j l.lst,
          get_elem?-set l.lst i j p low,
        ),
      )
  | inl beyond ↦
      let r = inc_to junk l (suc i) in
      let w = inc_to-Roomy junk l (suc i) v in
      let above : l.cur ≤ i = ground arith in
      let (c, run, width, get) =
        clear-cells (i - l.cur) l.cur r.lst (omega (arith, w.room, w.valid.sized)) in
      let low : i < length c = omega (arith, width, w.room, w.valid.sized) in
      (
        record r { lst = set c i p; cur = suc i },
        ground (arith, beyond, run, store_inside c i p low),
        record {
          sized = length-set c i p ∙ width ∙ w.valid.sized;
          fits = w.room;
          roomy = w.valid.roomy;
        },
        ground arith,
        λ j.
            let old : get_elem? (items r) j ≡ get_elem? (items l) j =
              ap (λ q. get_elem? q j) w.kept in
            ground (
              arith,
              get_elem?-take (suc i) j (set c i p),
              get_elem?-set c i j p low,
              get j,
              old,
              get_elem?-take l.cur j l.lst,
              get_elem?-take r.cur j r.lst,
              w.same,
            ),
      )
]
