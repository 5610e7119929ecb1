-- ===== src/PtrHash/Shift.antt =====
-- The loop of ivm_pthash_remove: it moves the gap until no key has the gap on its way from home.
use ivm.Base.{
  ℕ, ◌<◌, ◌≡◌, ◌≢◌, ◌↔◌, sym, ◌∙◌, subst, none, some, List, arith, length, get_elem?, set,
  length-set, get_elem?-set, get_elem?_inside, ◌==◌, if◌then◌else◌, Option-cases, ◌⊎◌, inl, inr,
}
use native.Mathlib.Decide.{ℕ_discrete, dec_lt}
use ivm.Probe.{Cell, key_at, value_at}
use ivm.Probe.Scan.{dist}
use ivm.Probe.Table.{IsPlaced}
use ivm.PtrHash.{home, next_filler, move_cell}
use ivm.PtrHash.Home.{home-lt}
use ivm.PtrHash.Gap.{fills, NextFiller, next_filler-none}

-- Only the gap, which is empty, may lie between a key and its home; `n` is the number of cells.
pub record IsGapped (n : ℕ) (t : List (Cell ℕ ℕ)) (g : ℕ) : Type 0 where
  pub inside : g < n
  pub open_cell : key_at t g ≡ none
  pub reach :
      (j q : ℕ)
      → j < n
      → key_at t j ≡ some q
      → (i : ℕ) → i < n
      → dist n (home n q) i < dist n (home n q) j
      → i ≢ g
      → (r : ℕ) × (key_at t i ≡ some r) × (r ≢ q)

-- The table has the value under the key, in some cell.
abbrev pub Holds : List (Cell ℕ ℕ) → ℕ → ℕ → Type 0
Holds t q v = (j : ℕ) × (key_at t j ≡ some q) × (value_at t j ≡ some v)

pub IsGapped-unique :
    (n : ℕ) (t : List (Cell ℕ ℕ)) (g i j q : ℕ)
    → IsGapped n t g
    → i < n
    → j < n
    → key_at t i ≡ some q
    → key_at t j ≡ some q
    → i ≡ j
IsGapped-unique n t g i j q s hi hj ei ej =
    let h = home-lt n q (omega (arith, s.inside)) in
    elim (dec_lt (dist n (home n q) i) (dist n (home n q) j)) [
      | yes near ↦
          let (r, er, other) = s.reach j q hj ej i hi near (λ e. ground (arith, s.open_cell, e)) in
          absurd (other (ground arith))
      | no far ↦ elim (dec_lt (dist n (home n q) j) (dist n (home n q) i)) [
        | yes near ↦
            let (r, er, other) =
              s.reach i q hi ei j hj near (λ e. ground (arith, s.open_cell, e)) in
            absurd (other (ground arith))
        | no level ↦ ground arith
      ]
    ]

-- Where the gap hides no key from its home, the table is in order.
close :
    (t : List (Cell ℕ ℕ)) (g : ℕ)
    → IsGapped (length t) t g
    → ((j q : ℕ)
        → j < length t
        → key_at t j ≡ some q
        → ¬ (dist (length t) (home (length t) q) g < dist (length t) (home (length t) q) j))
    → IsPlaced (home (length t)) t
close t g s clear j q hj e i hi near = elim (ℕ_discrete i g) [
  | yes met ↦ absurd (clear j q hj e (rw met at near))
  | no past ↦ s.reach j q hj e i hi near past
]

pub close_swept :
    (t : List (Cell ℕ ℕ)) (g : ℕ)
    → IsGapped (length t) t g
    → next_filler t g ≡ none
    → IsPlaced (home (length t)) t
unfolding fills
close_swept t g s e = close t g s (λ j q hj at hidden. ground (
  arith,
  s.open_cell,
  next_filler-none t g s.inside e j hj (λ same. ground (arith, s.open_cell)),
))

past_gap :
    (n h g i j : ℕ)
    → h < n
    → g < n
    → i < n
    → j < n
    → dist n h g < dist n h j
    → dist n g i < dist n g j
    → dist n h i < dist n h j
past_gap n h g i j a b c d e f = ground arith

dist-lt_or :
    (n g i j : ℕ)
    → g < n
    → i < n
    → j < n
    → i ≢ j
    → (dist n g j < dist n g i) ⊎ (dist n g i < dist n g j)
dist-lt_or n g i j a b c d = ground arith

-- Past an empty cell no key can have the gap on its way: the empty cell would lie there too.
pub close_empty :
    (t : List (Cell ℕ ℕ)) (g i : ℕ)
    → (s : IsGapped (length t) t g) → NextFiller t g s.inside i
    → key_at t i ≡ none
    → IsPlaced (home (length t)) t
unfolding fills
close_empty t g i s f e = close t g s λ j q hj at hidden.
    elim (dist-lt_or (length t) g i j s.inside f.within hj (λ same. ground (arith, at, e))) [
      | inl near ↦ ground (arith, f.before j hj (λ same. ground (arith, s.open_cell)) near)
      | inr far ↦
          let (r, er, other) =
            s.reach j q hj at i f.within
              (past_gap (length t) (home (length t) q) g i j
                (home-lt (length t) q (omega (arith, s.inside))) s.inside f.within hj hidden far)
              f.apart in
          ground arith
    ]

-- What one move does to the cells.
module _ (t : List (Cell ℕ ℕ)) (g i : ℕ) (hg : g < length t) (hi : i < length t)
    (apart : i ≢ g) where
  pub length-move_cell : length (move_cell t g i) ≡ length t
  unfolding move_cell
  length-move_cell = elim (Option-cases (get_elem? t i)) [
    | inl e ↦ rw (e, move_cell)
    | inr (c, e) ↦ rw (e, move_cell) (length-set (set t g c) i _ ∙ length-set t g c)
  ]

  move_cell-get :
      (j : ℕ)
      → (key_at (move_cell t g i) j
          ≡ (if i == j then none else if g == j then key_at t i else key_at t j))
        × (i ≢ j → value_at (move_cell t g i) j ≡ (if g == j then value_at t i else value_at t j))
  unfolding move_cell key_at value_at
  move_cell-get j =
      let (c, e) = get_elem?_inside t i hi in
      let first = get_elem?-set t g j c hg in
      let second = get_elem?-set (set t g c) i j (record c { k = none }) (rw length-set hi) in
      (ground arith, λ other. ground arith)

-- A move of a key that has the gap on its way leaves a table with its gap one key further on.
module _ (t : List (Cell ℕ ℕ)) (g i q : ℕ) (s : IsGapped (length t) t g) (hi : i < length t)
    (apart : i ≢ g) (at : key_at t i ≡ some q)
    (near : dist (length t) (home (length t) q) g < dist (length t) (home (length t) q) i) where
  abbrev moved : List (Cell ℕ ℕ)
  moved = move_cell t g i

  get :
      (j : ℕ)
      → (key_at moved j ≡ (if i == j then none else if g == j then key_at t i else key_at t j))
        × (i ≢ j → value_at moved j ≡ (if g == j then value_at t i else value_at t j))
  get = move_cell-get t g i s.inside hi apart

  move_reach :
      (j r : ℕ)
      → j < length t
      → key_at moved j ≡ some r
      → (m : ℕ) → m < length t
      → dist (length t) (home (length t) r) m < dist (length t) (home (length t) r) j
      → m ≢ i
      → (x : ℕ) × (key_at moved m ≡ some x) × (x ≢ r)
  move_reach j r hj e m hm closer other = elim (ℕ_discrete j g) [
    | yes filled ↦
        let qr : q ≡ r = ground (arith, (get j).0) in
        let (x, ex, nx) = s.reach i q hi at m hm (ground arith) (λ same. ground arith) in
        (x, ground (arith, (get m).0), λ same. nx (ground arith))
    | no old ↦
        let there : key_at t j ≡ some r = ground (arith, (get j).0) in
        elim (ℕ_discrete m g) [
          | yes filled ↦ (
            q,
            ground (arith, (get m).0),
            λ same.
                ground (
                  arith,
                  (get j).0,
                  IsGapped-unique (length t) t g i j q s hi hj at (ground arith),
                ),
          )
          | no kept ↦
              let (x, ex, nx) = s.reach j r hj there m hm closer kept in
              (x, ground (arith, (get m).0), nx)
        ]
  ]

  pub move-IsGapped : IsGapped (length moved) moved i
  move-IsGapped =
      subst (λ n. IsGapped n moved i) (sym (length-move_cell t g i s.inside hi apart))
        (record { inside = hi; open_cell = ground (arith, (get i).0); reach = move_reach })

  pub move-Holds : (r v : ℕ) → Holds t r v ↔ Holds moved r v
  move-Holds r v = (there, back)
    where
      there : Holds t r v → Holds moved r v
      there (j, e, val) = elim (ℕ_discrete j i) [
        | yes met ↦ (g, ground (arith, (get g).0), ground (arith, (get g).1 apart))
        | no past ↦ (
          j,
          ground (arith, (get j).0, s.open_cell),
          ground (arith, (get j).1 (λ e. past (sym e)), s.open_cell),
        )
      ]

      back : Holds moved r v → Holds t r v
      back (j, e, val) = elim (ℕ_discrete j g) [
        | yes filled ↦ (i, ground (arith, (get j).0), ground (arith, (get j).0, (get j).1))
        | no old ↦ (j, ground (arith, (get j).0), ground (arith, (get j).0, (get j).1))
      ]
