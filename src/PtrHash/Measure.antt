-- ===== src/PtrHash/Measure.antt =====
-- Why the loop of ivm_pthash_remove ends: each move brings a key closer to its home.
use ivm.Base.{
  ℕ, zero, suc, ◌+◌, ◌*◌, ◌≤◌, ◌<◌, ◌≡◌, ◌≢◌, none, some, List, [], ◌∷◌, arith, length, get_elem?,
  set, get_elem?-set, get_elem?_inside, Option-cases, inl, inr,
}
use ivm.Probe.{Cell, key_at}
use ivm.Probe.Scan.{dist}
use ivm.Probe.Count.{used, occupied, used-set}
use ivm.PtrHash.{home, move_cell}
use ivm.PtrHash.Home.{home-lt}

-- How far the key of a cell at index `j` is from its home, in a table of `n` cells.
pub offset : ℕ → ℕ → Cell ℕ ℕ → ℕ
offset n j c = elim c.k [ none ↦ 0 | some q ↦ dist n (home n q) j ]

-- The sum over the cells, the first of which has index `j`.
pub displaced : ℕ → ℕ → List (Cell ℕ ℕ) → ℕ
displaced n j [] = 0
displaced n j (c ∷ t) = offset n j c + displaced n (suc j) t

displaced-set :
    (n j : ℕ) (t : List (Cell ℕ ℕ)) (i : ℕ) (old new : Cell ℕ ℕ)
    → get_elem? t i ≡ some old
    → displaced n j (set t i new) + offset n (j + i) old ≡ displaced n j t + offset n (j + i) new
unfolding displaced
displaced-set n j [] i old new e = ground arith
displaced-set n j (c ∷ t) zero old new e = let here : j + 0 ≡ j = omega arith in ground arith
displaced-set n j (c ∷ t) (suc i) old new e =
    let next : j + suc i ≡ suc j + i = omega arith in
    rw next (omega (arith, displaced-set n (suc j) t i old new e))

offset-le : (n j : ℕ) (c : Cell ℕ ℕ) → j < n → offset n j c ≤ n
unfolding offset
offset-le n j c h = elim (Option-cases c.k) [
  | inl e ↦ ground (arith, e)
  | inr (q, e) ↦ let low = home-lt n q (omega arith) in rw (e, offset) (ground arith)
]

displaced-le : (n j : ℕ) (t : List (Cell ℕ ℕ)) → j + length t ≤ n → displaced n j t ≤ length t * n
unfolding displaced
displaced-le n j [] h = omega arith
displaced-le n j (c ∷ t) h =
    omega (arith, offset-le n j c (omega arith), displaced-le n (suc j) t (omega arith))

-- The fuel that ivm_pthash_remove starts with is enough.
pub displaced-lt : (t : List (Cell ℕ ℕ)) → displaced (length t) 0 t < length t * length t + 1
displaced-lt t = omega (arith, displaced-le (length t) 0 t (omega arith))

module _ (t : List (Cell ℕ ℕ)) (g i q : ℕ) (hg : g < length t) (hi : i < length t) (apart : i ≢ g)
    (gap : key_at t g ≡ none) (at : key_at t i ≡ some q)
    (near : dist (length t) (home (length t) q) g < dist (length t) (home (length t) q) i) where
  pub displaced-move_cell : displaced (length t) 0 (move_cell t g i) < displaced (length t) 0 t
  unfolding move_cell key_at offset
  displaced-move_cell =
      let n = length t in
      let (c, ec) = get_elem?_inside t i hi in
      let (d, ed) = get_elem?_inside t g hg in
      let first = displaced-set n 0 t g d c ed in
      let second =
        displaced-set n 0 (set t g c) i c (record c { k = none })
          (ground (arith, get_elem?-set t g i c)) in
      let zero_g : 0 + g ≡ g = omega arith in let zero_i : 0 + i ≡ i = omega arith in ground arith

  pub used-move_cell : used (move_cell t g i) ≡ used t
  unfolding move_cell key_at occupied
  used-move_cell =
      let (c, ec) = get_elem?_inside t i hi in
      let (d, ed) = get_elem?_inside t g hg in
      let first = used-set t g d c ed in
      let second =
        used-set (set t g c) i c (record c { k = none }) (ground (arith, get_elem?-set t g i c)) in
      ground arith
