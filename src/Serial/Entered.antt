-- ===== src/Serial/Entered.antt =====
-- The list of pools that a list of executables enters, and the pools as they grow.
use mathlib.Core.Option.{some-injective}
use ivm.Base.{
  ℕ, zero, suc, ◌≡◌, ap, sym, ◌∙◌, subst, none, some, List, [], ◌∷◌, ◌++◌, length, get_elem?, ◌==◌,
  Bool-cases, Option-cases, inl, inr, arith, refl,
}
use ivm.StringPool.{StringPool}
use ivm.StringPool.Rebuild.{IsValid}
use ivm.Serial.Program.{find_pool, enter_pool, put_pool}
use ivm.Serial.Restored.{KeepsIds}

-- Pools that are valid, and have grown.
pub record Grown (pools pools' : List ℕ) (store store' : ℕ → StringPool) : Type 0 where
  pub valid : (a : ℕ) → IsValid (store' a)
  pub keeps : (a : ℕ) → KeepsIds (store a).lst (store' a).lst
  pub listed : (i a : ℕ) → get_elem? pools i ≡ some a → get_elem? pools' i ≡ some a

find_pool-at :
    (pool : ℕ) (pools : List ℕ) (i : ℕ)
    → find_pool pool pools ≡ some i
    → get_elem? pools i ≡ some pool
unfolding find_pool
find_pool-at pool [] i e = ground (arith, e)
find_pool-at pool (p ∷ ps) i e = elim (Bool-cases (p == pool)) [
  | inl here ↦
      let first : 0 ≡ i = some-injective _ _ (sym (rw (find_pool, here) refl) ∙ e) in
      subst (λ j. get_elem? (p ∷ ps) j ≡ some pool) first (ap some (ground (arith, here)))
  | inr other ↦ elim (Option-cases (find_pool pool ps)) [
    | inl absent ↦ absurd (none-some i (sym (rw (find_pool, other, absent) refl) ∙ e))
    | inr (j, found) ↦
        let next : suc j ≡ i = some-injective _ _ (sym (rw (find_pool, other, found) refl) ∙ e) in
        subst (λ k. get_elem? (p ∷ ps) k ≡ some pool) next (find_pool-at pool ps j found)
  ]
]
  where
    none-some : (i : ℕ) → none ≡ some i → ⊥
    none-some i e = ground (arith, e)

snoc-last : (pools : List ℕ) (pool : ℕ) → get_elem? (pools ++ pool ∷ []) (length pools) ≡ some pool
snoc-last [] pool = refl
snoc-last (p ∷ ps) pool = snoc-last ps pool

snoc-keeps :
    (pools : List ℕ) (pool i a : ℕ)
    → get_elem? pools i ≡ some a
    → get_elem? (pools ++ pool ∷ []) i ≡ some a
snoc-keeps [] pool i a e = ground (arith, e)
snoc-keeps (p ∷ ps) pool zero a e = e
snoc-keeps (p ∷ ps) pool (suc i) a e = snoc-keeps ps pool i a e

pub put_pool-Grown :
    (pools pools' : List ℕ) (store : ℕ → StringPool) (at : ℕ) (pool : StringPool)
    → ((a : ℕ) → IsValid (store a))
    → IsValid pool
    → KeepsIds (store at).lst pool.lst
    → ((i a : ℕ) → get_elem? pools i ≡ some a → get_elem? pools' i ≡ some a)
    → Grown pools pools' store (put_pool store at pool)
put_pool-Grown pools pools' store at pool valid v keeps listed = record {
  valid =
      λ a. elim (Bool-cases (at == a)) [ inl here ↦ rw here v | inr other ↦ rw other (valid a) ];
  keeps = λ a. elim (Bool-cases (at == a)) [
    | inl here ↦
        let same : at ≡ a = ground (arith, here) in
        rw here (subst (λ b. KeepsIds (store b).lst pool.lst) same keeps)
    | inr other ↦ rw other (λ id s e. e)
  ];
  listed = listed;
}

pub Grown-trans :
    (p q r : List ℕ) (s t u : ℕ → StringPool) → Grown p q s t → Grown q r t u → Grown p r s u
Grown-trans p q r s t u g h = record {
  valid = h.valid;
  keeps = λ a id str e. h.keeps a id str (g.keeps a id str e);
  listed = λ i a e. h.listed i a (g.listed i a e);
}

new_pool :
    (pool : ℕ) (pools : List ℕ)
    → find_pool pool pools ≡ none
    → enter_pool pool pools ≡ (length pools, pools ++ pool ∷ [])
unfolding enter_pool
new_pool pool pools e = ground (arith, e)

old_pool :
    (pool : ℕ) (pools : List ℕ) (id : ℕ)
    → find_pool pool pools ≡ some id
    → enter_pool pool pools ≡ (id, pools)
unfolding enter_pool
old_pool pool pools id e = ground (arith, e)

pub enter_pool-at :
    (pool : ℕ) (pools : List ℕ)
    → get_elem? (enter_pool pool pools).1 (enter_pool pool pools).0 ≡ some pool
enter_pool-at pool pools = elim (Option-cases (find_pool pool pools)) [
  | inl new ↦
      subst (λ x. get_elem? x.1 x.0 ≡ some pool) (sym (new_pool pool pools new))
        (snoc-last pools pool)
  | inr (id, old) ↦
      subst (λ x. get_elem? x.1 x.0 ≡ some pool) (sym (old_pool pool pools id old))
        (find_pool-at pool pools id old)
]

pub enter_pool-keeps :
    (pool : ℕ) (pools : List ℕ) (i a : ℕ)
    → get_elem? pools i ≡ some a
    → get_elem? (enter_pool pool pools).1 i ≡ some a
enter_pool-keeps pool pools i a e = elim (Option-cases (find_pool pool pools)) [
  | inl new ↦
      subst (λ x. get_elem? x.1 i ≡ some a) (sym (new_pool pool pools new))
        (snoc-keeps pools pool i a e)
  | inr (id, old) ↦ subst (λ x. get_elem? x.1 i ≡ some a) (sym (old_pool pool pools id old)) e
]
