-- ===== src/Optimizer/Retarget.antt =====
-- What retargeting a jump does.
use ivm.Base.{ℕ, suc, ◌≡◌, Bool, true, false, none, some, List, get_elem?, ◌==◌, if◌then◌else◌}
use ivm.Optimizer.{OptInstr, modify}
use ivm.Optimizer.Reduce.{is_opposite, find_and_remove, opc_at, jmpto_at}
use ivm.Optimizer.Control.{Reaches, is_taken}

-- A retargeted list: the jump at `cur` has the target `to`, which the machine comes by when it takes
-- the jump to the old target; all opcodes and all other targets are as they were.
pub record Retargeted (l l' : List OptInstr) (cur opc first to : ℕ) : Type 0 where
  pub target : jmpto_at l' cur ≡ some to
  pub reaches : (v : Bool) → is_taken opc v ≡ true → Reaches l v first to
  pub opcodes : (j : ℕ) → opc_at l' j ≡ opc_at l j
  pub others : (j : ℕ) → (cur == j) ≡ false → jmpto_at l' j ≡ jmpto_at l j

pub chased_to : List OptInstr → ℕ → ℕ → ℕ
chased_to l opc last = elim (get_elem? l last) [
  | none ↦ last
  | some y ↦ if is_opposite opc y.opc then suc last else last
]

module _ (l : List OptInstr) (cur : ℕ) (x : OptInstr) (first last : ℕ)
    (at : get_elem? l cur ≡ some x) where
  abbrev released : List OptInstr
  released =
      if last == first
      then l
      else modify l first (λ r. record r { refs = find_and_remove cur r.refs })
