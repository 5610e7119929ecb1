-- ===== src/Probe/Scan.antt =====
-- What a probe finds: the first cell, in cyclic order from the home cell, at which the test holds.
use ivm.Base.{
  ℕ, zero, suc, ◌+◌, ◌-◌, ◌≤◌, ◌<◌, ◌≡◌, Bool, true, false, none, some, arith, leb, if◌then◌else◌,
  Bool-cases, Option-cases, inl, inr,
}
use native.Mathlib.Decide.{ℕ_discrete, dec_lt}
use ivm.Probe.{scan, probe}

-- The number of steps from `h` to `i` round a table of `n` cells.
abbrev pub dist : ℕ → ℕ → ℕ → ℕ
dist n h i = if leb h i then i - h else i + n - h

pub data Found (p : ℕ → Bool) (i n j : ℕ) : Type 0 where
  found : i ≤ j → j < i + n → p j ≡ true → ((m : ℕ) → i ≤ m → m < j → p m ≡ false) → Found p i n j

pub scan-Found : (p : ℕ → Bool) (i n j : ℕ) → scan p i n ≡ some j → Found p i n j
unfolding scan
scan-Found p i zero j e = ground arith
scan-Found p i (suc n) j e = elim (Bool-cases (p i)) [
  | inl hit ↦
      let same : i ≡ j = ground arith in
      found (omega arith) (omega arith) (rw (← same) hit) (λ m lo hi. absurd (omega arith))
  | inr miss ↦ later miss (scan-Found p (suc i) n j (ground arith))
]
  where
    later : p i ≡ false → Found p (suc i) n j → Found p i (suc n) j
    later miss (found lo hi hit before) = found (omega arith) (omega arith) hit (λ m from to.
        elim (ℕ_discrete i m) [
          | yes same ↦ rw (← same) miss
          | no other ↦ before m (omega arith) to
        ])

pub scan-none : (p : ℕ → Bool) (i n m : ℕ) → scan p i n ≡ none → i ≤ m → m < i + n → p m ≡ false
unfolding scan
scan-none p i zero m e lo hi = absurd (omega arith)
scan-none p i (suc n) m e lo hi = elim (Bool-cases (p i)) [
  | inl hit ↦ ground arith
  | inr miss ↦ elim (ℕ_discrete i m) [
    | yes same ↦ rw (← same) miss
    | no other ↦ scan-none p (suc i) n m (ground arith) (omega arith) (omega arith)
  ]
]

-- The cell at which a probe from `h` stops.
pub record Finds (p : ℕ → Bool) (n h i : ℕ) : Type 0 where
  pub inside : i < n
  pub stops : p i ≡ true
  pub first : (m : ℕ) → m < n → dist n h m < dist n h i → p m ≡ false

pub probe-Finds : (p : ℕ → Bool) (n h i : ℕ) → h < n → probe p n h ≡ some i → Finds p n h i
unfolding probe
probe-Finds p n h i inside e = elim (Option-cases (scan p h (n - h))) [
  | inl missed ↦ wrapped missed (scan-Found p 0 h i (ground arith))
  | inr (j, hit) ↦ straight (scan-Found p h (n - h) i (ground arith))
]
  where
    straight : Found p h (n - h) i → Finds p n h i
    straight (found lo hi hit before) = record {
      inside = omega arith;
      stops = hit;
      first = λ m within nearer. before m (ground arith) (ground arith);
    }

    wrapped : scan p h (n - h) ≡ none → Found p 0 h i → Finds p n h i
    wrapped missed (found lo hi hit before) = record {
      inside = omega arith;
      stops = hit;
      first = λ m within nearer. elim (dec_lt m h) [
        | yes below ↦ before m (omega arith) (ground arith)
        | no above ↦ scan-none p h (n - h) m missed (omega arith) (omega arith)
      ];
    }

pub probe-none : (p : ℕ → Bool) (n h m : ℕ) → h < n → probe p n h ≡ none → m < n → p m ≡ false
unfolding probe
probe-none p n h m inside e within = elim (dec_lt m h) [
  | yes below ↦ scan-none p 0 h m (ground arith) (omega arith) (omega arith)
  | no above ↦ scan-none p h (n - h) m (ground arith) (omega arith) (omega arith)
]

-- A probe misses only where no cell would do.
pub probe-Finds_any :
    (p : ℕ → Bool) (n h m : ℕ)
    → h < n
    → m < n
    → p m ≡ true
    → (i : ℕ) × (probe p n h ≡ some i) × Finds p n h i
probe-Finds_any p n h m inside within hit = elim (Option-cases (probe p n h)) [
  | inl missed ↦ ground (arith, probe-none p n h m inside missed within)
  | inr (i, e) ↦ (i, e, probe-Finds p n h i inside e)
]

-- The first cell is determined.
pub Finds-unique : (p : ℕ → Bool) (n h i j : ℕ) → h < n → Finds p n h i → Finds p n h j → i ≡ j
Finds-unique p n h i j inside a b = ground (arith, a.first j, b.first i)
