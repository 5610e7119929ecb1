-- ===== src/PtrHash/Gap.antt =====
-- The two loops of ivm_pthash_remove look, round the table from the gap, for the first cell that
-- is empty or whose key has the gap on its way from home.
use ivm.Base.{
  ℕ, suc, ◌-◌, ◌<◌, ◌≡◌, ◌≢◌, sym, ◌∙◌, Bool, true, false, ◌&&◌, ◌||◌, none, some, List, arith,
  length, ltb, leb, Option-cases, inl, inr,
}
use native.Mathlib.Decide.{dec_lt}
use ivm.Probe.{Cell, key_at, scan}
use ivm.Probe.Scan.{dist, Found, found, scan-Found, scan-none}
use ivm.PtrHash.{home, fills_above, fills_below, next_filler}
use ivm.PtrHash.Home.{home-lt}

-- The gap lies on the way from the home of the key at `i` to `i`, or `i` is empty.
unfoldable pub fills : List (Cell ℕ ℕ) → ℕ → ℕ → Bool
fills t g i = elim (key_at t i) [
  | none ↦ true
  | some q ↦ ltb (dist (length t) (home (length t) q) g) (dist (length t) (home (length t) q) i)
]

passes_above :
    (n h g i : ℕ) → h < n → g < i → i < n → (leb h g || ltb i h) ≡ ltb (dist n h g) (dist n h i)
passes_above n h g i a b c = ground arith

passes_below :
    (n h g i : ℕ) → h < n → i < g → g < n → (ltb i h && leb h g) ≡ ltb (dist n h g) (dist n h i)
passes_below n h g i a b c = ground arith

module _ (t : List (Cell ℕ ℕ)) (g : ℕ) (inside : g < length t) where
  home_inside : (q : ℕ) → home (length t) q < length t
  home_inside q = home-lt (length t) q (omega arith)

  fills-above : (i : ℕ) → g < i → i < length t → fills_above t g i ≡ fills t g i
  unfolding fills_above fills
  fills-above i above h = elim (Option-cases (key_at t i)) [
    | inl e ↦ ground (arith, e)
    | inr (q, e) ↦
        rw (e, fills_above, fills) (passes_above (length t) _ g i (home_inside q) above h)
  ]

  fills-below : (i : ℕ) → i < g → fills_below t g i ≡ fills t g i
  unfolding fills_below fills
  fills-below i below = elim (Option-cases (key_at t i)) [
    | inl e ↦ ground (arith, e)
    | inr (q, e) ↦
        rw (e, fills_below, fills) (passes_below (length t) _ g i (home_inside q) below inside)
  ]

  pub record NextFiller (i : ℕ) : Type 0 where
    pub within : i < length t
    pub apart : i ≢ g
    pub fit : fills t g i ≡ true
    pub before :
        (m : ℕ)
        → m < length t
        → m ≢ g
        → dist (length t) g m < dist (length t) g i
        → fills t g m ≡ false

  Found-above : (i : ℕ) → Found (fills_above t g) (suc g) (length t - suc g) i → NextFiller i
  Found-above i (found lo hi hit first) = record {
    within = omega arith;
    apart = omega arith;
    fit = sym (fills-above i lo (omega arith)) ∙ hit;
    before = λ m h other near.
        sym (fills-above m (ground arith) h) ∙ first m (ground arith) (ground arith);
  }

  Found-below :
      (i : ℕ)
      → scan (fills_above t g) (suc g) (length t - suc g) ≡ none
      → Found (fills_below t g) 0 g i
      → NextFiller i
  Found-below i missed (found lo hi hit first) = record {
    within = omega arith;
    apart = omega arith;
    fit = sym (fills-below i (omega arith)) ∙ hit;
    before = λ m h other near. elim (dec_lt m g) [
      | yes below ↦ sym (fills-below m below) ∙ first m (omega arith) (ground arith)
      | no above ↦
          sym (fills-above m (omega arith) h)
          ∙ scan-none (fills_above t g) (suc g) (length t - suc g) m missed (omega arith)
              (omega arith)
    ];
  }

  pub next_filler-some : (i : ℕ) → next_filler t g ≡ some i → NextFiller i
  unfolding next_filler
  next_filler-some i e = elim (Option-cases (scan (fills_above t g) (suc g) (length t - suc g))) [
    | inl missed ↦ Found-below i missed (scan-Found (fills_below t g) 0 g i (ground arith))
    | inr (j, hit) ↦
        Found-above i (scan-Found (fills_above t g) (suc g) (length t - suc g) i (ground arith))
  ]

  pub next_filler-none :
      next_filler t g ≡ none → (m : ℕ) → m < length t → m ≢ g → fills t g m ≡ false
  unfolding next_filler
  next_filler-none e m h other = elim (dec_lt m g) [
    | yes below ↦
        sym (fills-below m below)
        ∙ scan-none (fills_below t g) 0 g m (ground arith) (omega arith) (omega arith)
    | no above ↦
        sym (fills-above m (omega arith) h)
        ∙ scan-none (fills_above t g) (suc g) (length t - suc g) m (ground arith) (omega arith)
            (omega arith)
  ]
