-- ===== src/Tests/Lists.antt =====
-- Pointer lists at concrete pointers.
use ivm.Base.{ℕ, ◌≡◌, refl, none, some, [], ◌∷◌, get_elem?, ltb, ◌==◌, if◌then◌else◌, arith}
use ivm.PtrList.{PtrList, insert, find}
use ivm.PtrList.Memory.{items, IsValid}
use ivm.PtrList.Insert.{insert-items}
use ivm.PtrList.Search.{IsFirst, find-IsFirst}

-- What stands in fresh memory.
abbrev junk : ℕ → ℕ
junk i = 99

abbrev three : PtrList
three = record { alloc = 3; cur = 3; lst = 7 ∷ 8 ∷ 9 ∷ [] }

three-IsValid : IsValid three
three-IsValid = record { sized = refl; fits = omega arith; roomy = omega arith }

insert-items_example :
    (l' : PtrList) × (insert junk three 5 6 ≡ some l')
    × IsValid l'
    × (l'.cur ≡ (if ltb 5 three.cur then three.cur else 6))
    × ((j : ℕ)
        → get_elem? (items l') j ≡ (
            if 5 == j
            then some 6
            else (if ltb j three.cur
                then get_elem? (items three) j
                else (if ltb j 5 then some 0 else none))))
insert-items_example = insert-items junk three 5 6 three-IsValid

find-IsFirst_example : IsFirst (λ p. p == 8) (items three) (find three 8)
find-IsFirst_example = find-IsFirst three 8 three-IsValid
