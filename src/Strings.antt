-- ===== src/Strings.antt =====
-- std/string.h: strings as the lists of their bytes, and their comparison.
use ivm.Base.{ℕ, Bool, true, false, ◌&&◌, List, [], ◌∷◌, ◌==◌, ◌≡◌, ◌↔◌, refl, arith}
use ivm.Hash.{hash_from_string}
use ivm.Probe.{Key}

abbrev pub Str : Type 0
Str = List ℕ

-- ivm_string_compare: equal lengths and equal bytes.
unfoldable pub string_compare : Str → Str → Bool
string_compare [] [] = true
string_compare (a ∷ s) (b ∷ t) = a == b && string_compare s t
string_compare _ _ = false

pub string_compare_iff : (s t : Str) → (string_compare s t ≡ true) ↔ (s ≡ t)
unfolding string_compare
string_compare_iff [] [] = (λ _. refl, λ _. refl)
string_compare_iff [] (b ∷ t) = ground arith
string_compare_iff (a ∷ s) [] = ground arith
string_compare_iff (a ∷ s) (b ∷ t) = (
  λ h. ground (arith, (string_compare_iff s t).0),
  λ h. ground (arith, (string_compare_iff s t).1),
)

instance unfoldable pub string_key : Key Str
unfolding string_compare
string_key = record {
  equal = string_compare;
  hash = hash_from_string;
  equal_iff = string_compare_iff;
}
