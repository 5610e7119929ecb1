-- ===== src/Tests/PointerTable.antt =====
-- The pointer table at concrete keys: 1, 2 and 3 stand for addresses within the same 8 bytes, so
-- that they collide.
use ivm.Base.{ℕ, ◌≡◌, true, false, none, some, arith, ◌⊎◌}
use ivm.PtrHash.{PtrHash, init, insert, remove}
use ivm.PtrHash.Home.{IsValid, view, init-empty}
use ivm.PtrHash.Insert.{Stored, insert-Stored}
use ivm.PtrHash.Remove.{Removed, remove-Removed}

abbrev one : PtrHash
one = (insert-Stored init 1 10 init-empty.0 (λ e. omega arith)).0

abbrev one-IsValid : IsValid one
one-IsValid = (insert-Stored init 1 10 init-empty.0 (λ e. omega arith)).2.valid

abbrev two : PtrHash
two = (insert-Stored one 2 20 one-IsValid (λ e. omega arith)).0

abbrev two-IsValid : IsValid two
two-IsValid = (insert-Stored one 2 20 one-IsValid (λ e. omega arith)).2.valid

insert-Stored_example : (m' : PtrHash) × (insert one 2 20 ≡ some m') × Stored one 2 20 m'
insert-Stored_example = insert-Stored one 2 20 one-IsValid (λ e. omega arith)

remove-Removed_example :
    ((view two 1 ≡ none) × (remove two 1 ≡ some (false, two)))
    ⊎ ((v : ℕ) × (m' : PtrHash) × (view two 1 ≡ some v)
        × (remove two 1 ≡ some (true, m'))
        × Removed two 1 m')
remove-Removed_example = remove-Removed two 1 two-IsValid
