-- ===== src/StringPool/Rebuild.antt =====
-- The invariant of a string pool, and the tables that are built from the list of its strings.
use ivm.Base.{
  ℕ, zero, suc, ◌+◌, ◌-◌, ◌*◌, ◌≤◌, ◌<◌, ◌≡◌, ◌↔◌, refl, sym, ◌∙◌, ap, subst, ◌≢◌, ◌⊎◌, Bool-cases,
  Option, none, some, List, [], ◌∷◌, arith, length, length-replicate, get_elem?, replicate,
  bit_and-le, inl, inr,
}
use ivm.Probe.{Cell, zeroed, home_cell, key_at, value_at, is_empty_at, lookup_from}
use ivm.Probe.Table.{IsPlaced}
use ivm.Probe.Count.{used, used-le-length, used-replicate, occupied, key_at-replicate}
use ivm.Probe.Refill.{IsDistinct, is_empty_at-Agrees, refill-Refilled}
use ivm.Probe.Expand.{replicate-IsPlaced, lookup-replicate}
use ivm.Strings.{Str, string_compare, string_compare_iff, string_key}
use ivm.StringPool.{StringPool, raw_hash, home, numbered, rebuild, init, new_t, expand}

pub home-lt : (size : ℕ) (s : Str) → 0 < size → home size s < size
unfolding home home_cell
home-lt size s h = omega (arith, bit_and-le (raw_hash s) (size - 1))

-- The id of a string in a table.
abbrev pub id_of : List (Cell Str ℕ) → Str → Option ℕ
id_of t s = lookup_from (home (length t) s) s t

-- The table `t` has the strings of `lst` under their indices, and no others.
pub record Indexes (t : List (Cell Str ℕ)) (lst : List Str) : Type 0 where
  pub placed : IsPlaced (home (length t)) t
  pub count : used t ≡ length lst
  pub ids : (s : Str) (id : ℕ) → (id_of t s ≡ some id) ↔ (get_elem? lst id ≡ some s)

pub record IsValid (p : StringPool) : Type 0 where
  pub roomy : 0 < length p.table
  pub indexed : Indexes p.table p.lst

-- No string stands twice in the list.
abbrev pub IsUnique : List Str → Type 0
IsUnique lst = (i j : ℕ) (s : Str) → get_elem? lst i ≡ some s → get_elem? lst j ≡ some s → i ≡ j

pub indexed-IsUnique : (t : List (Cell Str ℕ)) (lst : List Str) → Indexes t lst → IsUnique lst
indexed-IsUnique t lst x i j s a b =
    let e = (x.ids s i).1 a in let e' = (x.ids s j).1 b in ground arith

key_at-numbered : (n : ℕ) (lst : List Str) (j : ℕ) → key_at (numbered n lst) j ≡ get_elem? lst j
unfolding key_at numbered
key_at-numbered n [] j = refl
key_at-numbered n (s ∷ lst) zero = refl
key_at-numbered n (s ∷ lst) (suc j) = key_at-numbered (suc n) lst j

value_at-numbered :
    (n : ℕ) (lst : List Str) (j : ℕ) (s : Str)
    → get_elem? lst j ≡ some s
    → value_at (numbered n lst) j ≡ some (n + j)
unfolding value_at numbered
value_at-numbered n [] j s e = ground arith
value_at-numbered n (r ∷ lst) zero s e = ground arith
value_at-numbered n (r ∷ lst) (suc j) s e = ground (arith, value_at-numbered (suc n) lst j s e)

used-numbered : (n : ℕ) (lst : List Str) → used (numbered n lst) ≡ length lst
unfolding used numbered occupied
used-numbered n [] = refl
used-numbered n (s ∷ lst) = ground (arith, used-numbered (suc n) lst)

member_cases :
    (lst : List Str) (s : Str)
    → ((j : ℕ) × (get_elem? lst j ≡ some s)) ⊎ ((j : ℕ) → get_elem? lst j ≢ some s)
member_cases [] s = inr λ j e. ground (arith, e)
member_cases (r ∷ lst) s = elim (Bool-cases (string_compare r s)) [
  | inl same ↦ inl (0, ap some ((string_compare_iff r s).0 same))
  | inr other ↦ elim (member_cases lst s) [
    | inl (j, e) ↦ inl (suc j, e)
    | inr absent ↦
        inr (elim [ zero ↦ λ e. ground (arith, (string_compare_iff r s).1) | suc j ↦ absent j ])
  ]
]

-- A large enough table takes all strings.
pub rebuild-Indexes :
    (size : ℕ) (lst : List Str)
    → IsUnique lst
    → length lst ≤ size
    → 0 < size
    → (u : List (Cell Str ℕ)) × (rebuild size lst ≡ some u) × (length u ≡ size) × Indexes u lst
unfolding rebuild
rebuild-Indexes size lst unique room roomy =
    let blank : List (Cell Str ℕ) = replicate size (zeroed 0) in
    let distinct : IsDistinct (numbered 0 lst) = λ i j q a b.
      unique i j q (sym (key_at-numbered 0 lst i) ∙ a) (sym (key_at-numbered 0 lst j) ∙ b) in
    let (u, run, r) =
      refill-Refilled (λ _. is_empty_at) is_empty_at-Agrees (home size) (numbered 0 lst) blank
        distinct (replicate-IsPlaced (home size) size 0)
        (λ q. rw length-replicate (home-lt size q roomy))
        (rw length-replicate
          (omega (arith, used-replicate Str {V = ℕ} size 0, used-numbered 0 lst)))
        (λ j q at i there. ground (arith, key_at-replicate Str {V = ℕ} size i 0)) in
    let width : length u ≡ size = r.width ∙ length-replicate size (zeroed 0) in
    (
      u,
      run,
      width,
      record {
        placed = subst (λ n. IsPlaced (home n) u) (sym width) r.placed;
        count = omega (arith, r.count, used-replicate Str {V = ℕ} size 0, used-numbered 0 lst);
        ids = λ s id. elim (member_cases lst s) [
          | inl (j, e) ↦
              let at : id_of u s ≡ some j =
                rw width (r.moved s j (key_at-numbered 0 lst j ∙ e))
                ∙ value_at-numbered 0 lst j s e
                ∙ ap some (omega arith) in
              (λ h. ground (arith, at), λ h. at ∙ ap some (unique j id s e h))
          | inr absent ↦
              let at : id_of u s ≡ none = rw width (
                r.kept s (λ j there. absent j (sym (key_at-numbered 0 lst j) ∙ there))
                ∙ lookup-replicate (home size) size 0 s (home-lt size s roomy)) in
              (λ h. ground (arith, at), λ h. absurd (absent id h))
        ];
      },
    )

-- A new pool is valid and empty.
pub init-IsValid : IsValid init × (init.lst ≡ [])
unfolding init
init-IsValid = (
  record {
    roomy = omega (arith, length-replicate 32 (zeroed {K = Str} {V = ℕ} 0));
    indexed = record {
      placed = replicate-IsPlaced (home (length (replicate 32 (zeroed {K = Str} {V = ℕ} 0)))) 32 0;
      count = used-replicate Str {V = ℕ} 32 0;
      ids = λ s id.
          let blank : id_of (replicate 32 (zeroed {K = Str} {V = ℕ} 0)) s ≡ none =
            rw length-replicate
              (lookup-replicate {V = ℕ} (home 32) 32 0 s (home-lt 32 s (omega arith))) in
          (λ h. ground (arith, blank), λ h. ground (arith, h));
    };
  },
  refl,
)

-- A pool that ivm_string_pool_new_t builds from at least one string, all distinct, is valid and
-- gives them their indices as ids.
new_t-IsValid :
    (lst : List Str)
    → IsUnique lst
    → 0 < length lst
    → (p : StringPool) × (new_t lst ≡ some p) × IsValid p × (p.lst ≡ lst)
unfolding new_t
new_t-IsValid lst unique some_string =
    let (u, run, width, x) =
      rebuild-Indexes (length lst * 4) lst unique (omega arith) (omega arith) in
    (
      record { table = u; lst = lst },
      ground (arith, run),
      record { roomy = omega (arith, width); indexed = x },
      refl,
    )

-- _ivm_string_pool_expand succeeds on every valid pool, keeps the strings and their ids, and
-- leaves an empty cell.
pub expand-IsValid :
    (p : StringPool)
    → IsValid p
    → (p' : StringPool) × (expand p ≡ some p')
      × IsValid p'
      × (p'.lst ≡ p.lst)
      × (used p'.table < length p'.table)
unfolding expand
expand-IsValid p v =
    let few : length p.lst ≤ length p.table =
      omega (arith, v.indexed.count, used-le-length p.table) in
    let (u, run, width, x) =
      rebuild-Indexes (length p.table * 2) p.lst (indexed-IsUnique p.table p.lst v.indexed)
        (omega arith) (omega (arith, v.roomy)) in
    (
      record p { table = u },
      ground (arith, run),
      record { roomy = omega (arith, width, v.roomy); indexed = x },
      refl,
      omega (arith, x.count, width, v.roomy),
    )
