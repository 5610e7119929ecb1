-- ===== src/Context/Declare.antt =====
-- Setting a variable of the innermost context, which gets its slot table with its first variable.
use ivm.Base.{
  ℕ, zero, suc, Bool, Option, none, some, List, [], ◌∷◌, get_elem?, if◌then◌else◌, ◌≡◌, ◌≢◌, refl,
  sym, ◌∙◌, ap, ◌⊎◌, inl, inr, arith, Option-cases,
}
use mathlib.Core.Option.{some-injective}
use ivm.Strings.{string_compare_iff}
use ivm.Slot.{Str, SlotTable, State, get_value, init, string_compare}
use ivm.Slot.Table.{IsValid, init-IsValid}
use ivm.Slot.Set.{set_slot-Sets}
use ivm.Context.{Context, put, context_get_slot, search, init_slots, set_own, context_set_slot}
use ivm.Context.Search.{IsValidChain, Assigned, put-cases, put-at, put-Written, Written-Assigned}

-- No context of the chain points to `self`.
unfoldable pub IsUnused : ℕ → List Context → Type 0
IsUnused self chain =
    (j : ℕ) (ctx : Context) (a : ℕ) → get_elem? chain j ≡ some ctx → ctx.slots ≡ some a → a ≢ self

search-unused :
    (store : ℕ → SlotTable) (self : ℕ) (t : SlotTable) (chain : List Context) (q : Str)
    → IsUnused self chain
    → search (put store self t) chain q ≡ search store chain q
unfolding search context_get_slot IsUnused
search-unused store self t [] q unused = refl
search-unused store self t (ctx ∷ prev) q unused =
    let rest = search-unused store self t prev q (λ j. unused (suc j)) in
    elim (Option-cases ctx.slots) [
      | inl null ↦ ground (arith, null, rest)
      | inr (a, at) ↦ elim (put-cases store self t a) [
        | inl (here, new) ↦ absurd (unused 0 ctx a refl at here)
        | inr kept ↦ ground (arith, at, rest, ap (λ u. get_value u q) kept)
      ]
    ]

abbrev at : ℕ → Bool → Context
at a g = record { slots = some a; gen = g }

set_own-Assigned :
    (store : ℕ → SlotTable) (st : State) (a : ℕ) (g : Bool) (prev : List Context) (k : Str) (v : ℕ)
    → IsValid (store a)
    → (store' : ℕ → SlotTable) × (st' : State) × (set_own store st (at a g) k (some v)
        ≡ some (at a g, store', st'))
      × Assigned store (at a g ∷ prev) k v store'
unfolding set_own search context_get_slot
set_own-Assigned store st a g prev k v valid =
    let (o, run, s) = set_slot-Sets (store a) st k (some v) valid in
    let now : get_value o.table k ≡ some v =
      ground (arith, s.reads k, (string_compare_iff k k).1 refl) in
    let stored : get_value (put store a o.table a) k ≡ some v =
      ap (λ t. get_value t k) (put-at store a o.table) ∙ now in
    (
      put store a o.table,
      o.state,
      ap
          (λ r. elim r as (λ _. Option (Context × (ℕ → SlotTable) × State)) [
            | none ↦ none
            | some out ↦ some (at a g, put store a out.table, out.state)
          ])
          run,
      Written-Assigned store (put store a o.table) (at a g ∷ prev) k v
          (put-Written store a k v o.table s)
          (ap
            (λ r. elim r as (λ _. Option ℕ) [
              | none ↦ search (put store a o.table) prev k
              | some found ↦ some found
            ])
            stored),
    )

-- How setting a variable of the context `ctx` on the chain `prev` ends.
pub record Declared (store : ℕ → SlotTable) (ctx : Context) (prev : List Context) (k : Str) (v : ℕ)
    (ctx' : Context) (store' : ℕ → SlotTable) : Type 0 where
  pub valid : IsValidChain store' (ctx' ∷ prev)
  pub reads :
      (q : Str)
      → search store' (ctx' ∷ prev) q
        ≡ (if string_compare k q then some v else search store (ctx ∷ prev) q)

-- The chain whose innermost context has just got its table.
fresh-search :
    (self : ℕ) (store : ℕ → SlotTable) (st : State) (g : Bool) (prev : List Context) (q : Str)
    → IsUnused self prev
    → search (put store self (init self 0 g st).0) (at self g ∷ prev) q ≡ search store prev q
unfolding search context_get_slot
fresh-search self store st g prev q unused =
    let t = (init self 0 g st).0 in
    let nothing : get_value (put store self t self) q ≡ none =
      ap (λ u. get_value u q) (put-at store self t) ∙ (init-IsValid self 0 g st).1 q in
    ap
      (λ r. elim r as (λ _. Option ℕ) [
        | none ↦ search (put store self t) prev q
        | some found ↦ some found
      ])
      nothing
    ∙ search-unused store self t prev q unused

put-IsValid :
    (store : ℕ → SlotTable) (a : ℕ) (t : SlotTable) (b : ℕ)
    → IsValid t
    → ((b ≡ a) ⊎ IsValid (store b))
    → IsValid (put store a t b)
put-IsValid store a t b new old = elim (put-cases store a t b) [
  | inl (_, e) ↦ rw e new
  | inr kept ↦ elim old [ inl e ↦ rw (e, put-at store a t) new | inr there ↦ rw kept there ]
]

fresh-IsValidChain :
    (self : ℕ) (store : ℕ → SlotTable) (t : SlotTable) (g h : Bool) (prev : List Context)
    → IsValid t
    → IsValidChain store (record { slots = none; gen = h } ∷ prev)
    → IsValidChain (put store self t) (at self g ∷ prev)
unfolding IsValidChain
fresh-IsValidChain self store t g h prev new valid zero ctx a e here =
    let first : at self g ≡ ctx = some-injective _ _ e in
    let there : self ≡ a = some-injective _ _ (ap (λ c. c.slots) first ∙ here) in
    put-IsValid store self t a new (inl (sym there))
fresh-IsValidChain self store t g h prev new valid (suc j) ctx a e here =
    put-IsValid store self t a new (inr (valid (suc j) ctx a e here))

set_slot_of :
    (self : ℕ) (store : ℕ → SlotTable) (st : State) (slots : Option ℕ) (g : Bool)
    (prev : List Context) (k : Str) (v : ℕ)
    → IsValidChain store (record { slots = slots; gen = g } ∷ prev)
    → IsUnused self prev
    → (ctx' : Context) × (store' : ℕ → SlotTable) × (st' : State) × (context_set_slot self store st
          (record { slots = slots; gen = g })
          k
          (some v)
        ≡ some (ctx', store', st'))
      × Declared store (record { slots = slots; gen = g }) prev k v ctx' store'
unfolding context_set_slot init_slots IsValidChain search context_get_slot
set_slot_of self store st (some a) g prev k v valid unused =
    let (store', st', run, s) =
      set_own-Assigned store st a g prev k v (valid 0 (at a g) a refl refl) in
    (
      at a g,
      store',
      st',
      run,
      record { valid = λ j c b e here. s.valid b (valid j c b e here); reads = s.reads },
    )
set_slot_of self store st none g prev k v valid unused =
    let t = (init self 0 g st).0 in
    let new = (init-IsValid self 0 g st).0 in
    let (store', st', run, s) =
      set_own-Assigned (put store self t) (init self 0 g st).1 self g prev k v
        (put-IsValid store self t self new (inl refl)) in
    (
      at self g,
      store',
      st',
      run,
      record {
        valid = λ j c b e here.
            s.valid b (fresh-IsValidChain self store t g g prev new valid j c b e here);
        reads = λ q. rw (← fresh-search self store st g prev q unused) (s.reads q);
      },
    )

-- ivm_context_setSlot with an object ends on every context of a chain with valid slot tables,
-- whether the context has its table already or gets a new one at an address that no outer context
-- points to; then a search from this context finds the object for the name and the same as before
-- for all other names, and the tables of the chain are valid.
pub context_set_slot-Declared :
    (self : ℕ) (store : ℕ → SlotTable) (st : State) (ctx : Context) (prev : List Context) (k : Str)
    (v : ℕ)
    → IsValidChain store (ctx ∷ prev)
    → IsUnused self prev
    → (ctx' : Context) × (store' : ℕ → SlotTable) × (st' : State) × (context_set_slot self store st
          ctx k
          (some v)
        ≡ some (ctx', store', st'))
      × Declared store ctx prev k v ctx' store'
context_set_slot-Declared self store st ctx prev k v valid unused =
    set_slot_of self store st ctx.slots ctx.gen prev k v valid unused
