-- ===== src/Enc/Bytes.antt =====
-- The bytes of an encoding as sums, and the length that a first byte announces, by evaluation.
use ivm.Base.{
  ℕ, zero, suc, ◌+◌, ◌-◌, ◌^◌, ◌*◌, ◌/◌, ◌%◌, ◌<◌, ◌≡◌, refl, ap, bit_or, Bool, true, ◌&&◌, ltb,
  ◌==◌, ==_iff, if◌then◌else◌, arith,
}
use native.Mathlib.Decide.{ℕ_discrete}
use ivm.Enc.{step, first_byte, next_byte}

-- A test that holds of all numbers below a bound.
holds_below : ℕ → (ℕ → Bool) → Bool
holds_below zero p = true
holds_below (suc n) p = holds_below n p && p n

holds_below_at : (n : ℕ) (p : ℕ → Bool) → holds_below n p ≡ true → (x : ℕ) → x < n → p x ≡ true
unfolding holds_below
holds_below_at zero p all x h = absurd (omega arith)
holds_below_at (suc n) p all x h = elim (ℕ_discrete x n) [
  | yes last ↦ ground (arith, ap p last)
  | no before ↦ holds_below_at n p (ground arith) x (omega arith)
]

-- The ranges of first bytes.
abbrev pub announced : ℕ → ℕ
announced c =
    if ltb c 0xC0
    then 1
    else if ltb c 0xE0
    then 2
    else if ltb c 0xF0
    then 3
    else if ltb c 0xF8
    then 4
    else if ltb c 0xFC
    then 5
    else if ltb c 0xFE
    then 6
    else 1

step_table : holds_below 256 (λ c. step c == announced c) ≡ true
unfolding holds_below step
step_table = refl

pub step-announced : (c : ℕ) → c < 256 → step c ≡ announced c
step-announced c h = (==_iff _ _).0 (holds_below_at 256 _ step_table c h)

-- Setting the bits of a payload below the head is adding it, if a table says so.
or_sum :
    (h n : ℕ)
    → holds_below n (λ x. bit_or h x == h + x) ≡ true
    → (x : ℕ) → x < n
    → bit_or h x ≡ h + x
or_sum h n table x low = (==_iff _ _).0 (holds_below_at n _ table x low)

-- The lead byte of `n` bytes with the payload `x`, which fits beside the head.
pub first_byte_sum :
    (c : ℕ)
    → (c / 64 < 32 → first_byte 2 c ≡ 0xC0 + c / 64)
      × (c / 4096 < 16 → first_byte 3 c ≡ 0xE0 + c / 4096)
      × (c / 262144 < 8 → first_byte 4 c ≡ 0xF0 + c / 262144)
      × (c / 16777216 < 4 → first_byte 5 c ≡ 0xF8 + c / 16777216)
      × (c / 1073741824 < 2 → first_byte 6 c ≡ 0xFC + c / 1073741824)
unfolding first_byte holds_below
first_byte_sum c = (
  λ h. or_sum 0xC0 32 refl (c / 64) h,
  λ h. or_sum 0xE0 16 refl (c / 4096) h,
  λ h. or_sum 0xF0 8 refl (c / 262144) h,
  λ h. or_sum 0xF8 4 refl (c / 16777216) h,
  λ h. or_sum 0xFC 2 refl (c / 1073741824) h,
)

pub next_byte_sum : (n i c : ℕ) → next_byte n i c ≡ 0x80 + c / 2 ^ ((n - i - 1) * 6) % 64
unfolding next_byte holds_below
next_byte_sum n i c = or_sum 0x80 64 refl (c / 2 ^ ((n - i - 1) * 6) % 64) (omega arith)
