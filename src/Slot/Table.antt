-- ===== src/Slot/Table.antt =====
-- The invariant of a slot table, and the map from names to objects that it stands for.
use ivm.Base.{
  ℕ, ◌-◌, ◌*◌, ◌≤◌, ◌<◌, ◌≡◌, refl, sym, ◌∙◌, ap, Bool, true, false, Option, none, some, arith,
  length, replicate, length-replicate, bit_and-le, ltb, leb, if◌then◌else◌, Option-cases,
  Bool-cases, inl, inr,
}
use ivm.Hash.{hash_from_string}
use ivm.Probe.{zeroed, home_cell, scan, probe, key_at, value_at, stops_at, lookup_from}
use ivm.Probe.Scan.{Finds, probe-Finds}
use ivm.Probe.Table.{IsPlaced}
use ivm.Probe.Expand.{replicate-IsPlaced, lookup-replicate}
use ivm.Slot.{Str, string_key, SlotTable, State, init, find_slot, object_at, get_slot, get_value}

-- The cell at which the scan for a name starts.
unfoldable pub home_of : Bool → ℕ → Str → ℕ
home_of hashed size k = if hashed then home_cell size (hash_from_string k) else 0

pub home_of-lt : (hashed : Bool) (size : ℕ) (k : Str) → 0 < size → home_of hashed size k < size
unfolding home_of home_cell
home_of-lt true size k h = omega (arith, bit_and-le (hash_from_string k) (size - 1))
home_of-lt false size k h = h

pub home_of-hash : (size : ℕ) → (λ k. home_cell size (hash_from_string k)) ≡ home_of true size
unfolding home_of
home_of-hash size = refl

abbrev pub home : SlotTable → Str → ℕ
home t = home_of t.is_hash (length t.tabl)

-- What the table stores under a name, a deleted slot included.
abbrev pub stored : SlotTable → Str → Option (Option ℕ)
stored t q = lookup_from (home t q) q t.tabl

abbrev pub flat : Option (Option ℕ) → Option ℕ
flat none = none
flat (some v) = v

pub record IsValid (t : SlotTable) : Type 0 where
  pub roomy : 4 ≤ length t.tabl
  pub linear : t.is_hash ≡ false → length t.tabl < 6
  pub placed : IsPlaced (home t) t.tabl

pub inside : {t : SlotTable} → IsValid t → (q : Str) → home t q < length t.tabl
inside v q = home_of-lt _ _ q (omega (arith, v.roomy))

probe_linear : (p : ℕ → Bool) (n : ℕ) → probe p n 0 ≡ scan p 0 n
unfolding probe scan
probe_linear p n =
    let all : n - 0 ≡ n = omega arith in
    rw all (elim (Option-cases (scan p 0 n)) [ inl e ↦ rw e | inr (i, e) ↦ rw e ])

-- Both kinds of table are probed, a linear one from its first cell.
pub find_slot-probe :
    (t : SlotTable) (k : Str)
    → find_slot t k ≡ probe (stops_at k (key_at t.tabl)) (length t.tabl) (home t k)
unfolding find_slot home_of
find_slot-probe t k = elim (Bool-cases t.is_hash) [
  | inl e ↦ rw (e, find_slot)
  | inr e ↦ rw (e, find_slot) (sym (probe_linear _ (length t.tabl)))
]

pub find_slot-Finds :
    (t : SlotTable) (k : Str) (i : ℕ)
    → IsValid t
    → find_slot t k ≡ some i
    → Finds (stops_at k (key_at t.tabl)) (length t.tabl) (home t k) i
find_slot-Finds t k i v e =
    probe-Finds _ (length t.tabl) (home t k) i (inside v k) (sym (find_slot-probe t k) ∙ e)

pub stored-find_slot :
    (t : SlotTable) (k : Str)
    → stored t k ≡ elim (find_slot t k) [ none ↦ none | some i ↦ value_at t.tabl i ]
unfolding lookup_from
stored-find_slot t k = rw find_slot-probe

-- A getter reads what is stored, and nothing of a deleted slot.
pub get_value-stored : (t : SlotTable) (k : Str) → get_value t k ≡ flat (stored t k)
unfolding get_value get_slot object_at
get_value-stored t k = ground (arith, stored-find_slot t k)

fresh-IsValid :
    (t : SlotTable) (n : ℕ)
    → t.tabl ≡ replicate n (zeroed none)
    → 4 ≤ n
    → (t.is_hash ≡ false → n < 6)
    → IsValid t × ((q : Str) → get_value t q ≡ none) × (length t.tabl ≡ n)
fresh-IsValid t n e low high =
    let width : length t.tabl ≡ n = ap length e ∙ length-replicate n (zeroed none) in
    (
      record {
        roomy = omega arith;
        linear = λ linear. omega (arith, high linear);
        placed = rw e (
            replicate-IsPlaced {V = Option ℕ}
              (home_of t.is_hash (length (replicate n (zeroed none)))) n none);
      },
      λ q.
          let empty : stored t q ≡ none =
            rw (width, e)
              (lookup-replicate {V = Option ℕ} (home_of t.is_hash n) n none q
                (home_of-lt t.is_hash n q (omega arith))) in
          get_value-stored t q ∙ ap flat empty,
      width,
    )

-- A new slot table is valid, has no slot, has at least the cells that are asked for, and is a hash
-- table exactly from six cells on.
pub init-IsValid :
    (self size : ℕ) (gen : Bool) (st : State)
    → IsValid (init self size gen st).0
      × ((q : Str) → get_value (init self size gen st).0 q ≡ none)
      × (size ≤ length (init self size gen st).0.tabl)
      × ((init self size gen st).0.is_hash ≡ leb 6 size)
unfolding init
init-IsValid self size gen st =
    let size₁ = if ltb size 4 then 4 else size in
    let (valid, empty, width) =
      fresh-IsValid (init self size gen st).0 (if leb 6 size₁ then size₁ * 2 else size₁) refl
        (ground arith) (λ linear. ground arith) in
    (valid, empty, rw width (ground arith), ground arith)
