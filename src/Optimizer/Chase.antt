-- ===== src/Optimizer/Chase.antt =====
-- When the loop along the jumps ends: within as many rounds as there are instructions, or never.
use ivm.Base.{
  ℕ, zero, suc, ◌+◌, ◌≡◌, refl, Bool, true, false, Option, none, some, List, get_elem?, ◌==◌,
  if◌then◌else◌,
}
use ivm.Optimizer.{OptInstr}
use ivm.Optimizer.Reduce.{is_same, chase}

-- How many numbers below `n` pass a test.
count_below : ℕ → (ℕ → Bool) → ℕ
count_below zero p = 0
count_below (suc n) p = (if p n then 1 else 0) + count_below n p

abbrev is_some : Option ℕ → Bool
is_some none = false
is_some (some _) = true

module _ (l : List OptInstr) (opc cur : ℕ) where
  -- Does the loop end from the instruction `p` with this fuel?
  abbrev ends : ℕ → ℕ → Bool
  ends fuel p = is_some (chase l opc cur fuel p)

-- A jump to itself is never left by the loop of another jump.
pub chase-self_jump :
    (l : List OptInstr) (opc cur p : ℕ) (y : OptInstr)
    → get_elem? l p ≡ some y
    → y.jmpto ≡ some p
    → is_same opc y.opc ≡ true
    → (p == cur) ≡ false
    → (fuel : ℕ) → chase l opc cur fuel p ≡ none
unfolding chase
chase-self_jump l opc cur p y at to same other zero = refl
chase-self_jump l opc cur p y at to same other (suc fuel) =
    rw (chase, at, to, same, other) (chase-self_jump l opc cur p y at to same other fuel)
