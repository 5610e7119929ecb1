-- ===== src/Tests/Objects.antt =====
-- Lists as objects, at concrete elements.
use ivm.Base.{ℕ, ◌+◌, ◌*◌, ◌<◌, ◌≤◌, ◌≡◌, refl, Bool, true, false, some, [], ◌∷◌, ltb, ◌⊎◌, arith}
use ivm.Range.Ints.{negsuc}
use ivm.ListObj.{ListObj, Vm, list_get, list_push, list_set, list_step}
use ivm.ListObj.Index.{IsValid}
use ivm.ListObj.Write.{Assigned, list_set-Assigned}
use ivm.ListObj.Step.{Stepped, list_step-Stepped}
use ivm.ListObj.Push.{next_alloc, Pushed, list_push-Pushed}

abbrev junk : ℕ → ℕ
junk i = 99

-- No more than 64 cells are granted.
abbrev grants : ℕ → Bool
grants n = ltb n 65

-- An old list of the objects 10, 20 and 30 with room for four.
abbrev three : ListObj
three = record { alloc = 4; size = 3; lst = 10 ∷ 20 ∷ 30 ∷ 0 ∷ []; gen = true; wb = false }

three-IsValid : IsValid three
three-IsValid = record { sized = refl; fits = omega arith }

abbrev vm : Vm
vm = record { wb_obj = []; obj_gen = λ i. ltb i 40; mem_error = false }

last_of_three : list_get three (negsuc 0) ≡ some 30
unfolding list_get
last_of_three = refl

list_set-Assigned_example :
    ((4 < 5 + 1)
      × (grants ((5 + 1) * 2) ≡ false)
      × (list_set junk grants 1 500 three vm 5 40
          ≡ some (0, three, record vm { mem_error = true })))
    ⊎ ((l' : ListObj) × (vm' : Vm) × (list_set junk grants 1 500 three vm 5 40 ≡ some (40, l', vm'))
        × Assigned three vm 5 40 l')
list_set-Assigned_example =
    list_set-Assigned junk grants 1 500 three vm 5 40 three-IsValid (omega arith)

list_push-Pushed_example :
    ((4 ≤ 3 + 1)
      × (grants (next_alloc three) ≡ false)
      × (list_push junk grants 500 three vm 40 ≡ some (0, three, record vm { mem_error = true })))
    ⊎ ((l' : ListObj) × (vm' : Vm) × (list_push junk grants 500 three vm 40 ≡ some (4, l', vm'))
        × Pushed three vm 40 l')
list_push-Pushed_example = list_push-Pushed junk grants 500 three vm 40 three-IsValid refl

list_step-Stepped_example : (l' : ListObj) × (list_step three 2 ≡ some l') × Stepped three 2 l'
list_step-Stepped_example = list_step-Stepped three 2 three-IsValid (omega arith)
