-- ===== src/Tests/Pools.antt =====
-- A string pool at concrete strings.
use ivm.Base.{◌≡◌, some, [], ◌∷◌, get_elem?}
use ivm.Strings.{Str}
use ivm.StringPool.{StringPool, init, register, register_i}
use ivm.StringPool.Rebuild.{IsValid, init-IsValid}
use ivm.StringPool.Register.{id_after, strings_after, register-ids}

-- "a" and "ab"
abbrev a : Str
a = 97 ∷ []

abbrev ab : Str
ab = 97 ∷ 98 ∷ []

abbrev one_string : StringPool
one_string = (register-ids init a init-IsValid.0).0

abbrev one_string-IsValid : IsValid one_string
one_string-IsValid = (register-ids init a init-IsValid.0).3

register-ids_example :
    (p' : StringPool) × (register one_string ab ≡ some (ab, p'))
    × (register_i one_string ab ≡ some (id_after one_string ab, p'))
    × IsValid p'
    × (p'.lst ≡ strings_after one_string ab)
    × (get_elem? p'.lst (id_after one_string ab) ≡ some ab)
register-ids_example = register-ids one_string ab one_string-IsValid
