-- ===== src/Context/Search.antt =====
-- Assignment along a chain of contexts: it is the innermost binding that a search finds and a
-- setter changes.
use ivm.Base.{
  ℕ, suc, Bool, true, false, none, some, List, [], ◌∷◌, get_elem?, ◌==◌, if◌then◌else◌, ◌≡◌, refl,
  sym, ◌∙◌, ◌⊎◌, inl, inr, arith, Bool-cases, Option-cases, fun_ext, ap,
}
use ivm.Strings.{string_compare_iff}
use ivm.Slot.{Str, SlotTable, State, get_value, string_compare}
use ivm.Slot.Table.{IsValid}
use ivm.Slot.Set.{Sets}
use ivm.Slot.Empty.{set_exist_slot-Sets}
use ivm.Context.{Context, put, context_get_slot, context_set_exist_slot, search, search_and_set}

-- The table of every context of the chain is valid.
unfoldable pub IsValidChain : (ℕ → SlotTable) → List Context → Type 0
IsValidChain store chain =
    (j : ℕ) (ctx : Context) (a : ℕ)
    → get_elem? chain j ≡ some ctx
    → ctx.slots ≡ some a
    → IsValid (store a)

-- Memory in which one table has been set.
pub record Written (store : ℕ → SlotTable) (k : Str) (v : ℕ) (store' : ℕ → SlotTable) : Type 0 where
  pub valid : (a : ℕ) → IsValid (store a) → IsValid (store' a)
  pub others :
      (a : ℕ) (q : Str)
      → string_compare k q ≡ false
      → get_value (store' a) q ≡ get_value (store a) q
  pub own :
      (a : ℕ) → (get_value (store' a) k ≡ get_value (store a) k) ⊎ (get_value (store' a) k ≡ some v)

pub put-cases :
    (store : ℕ → SlotTable) (a : ℕ) (t : SlotTable) (b : ℕ)
    → ((b ≡ a) × (put store a t b ≡ t)) ⊎ (put store a t b ≡ store b)
unfolding put
put-cases store a t b = elim (Bool-cases (b == a)) [
  | inl e ↦ inl (ground (arith, e), ground (arith, e))
  | inr e ↦ inr (ground (arith, e))
]

pub put-Written :
    (store : ℕ → SlotTable) (a : ℕ) (k : Str) (v : ℕ) (t : SlotTable)
    → Sets (store a) k (some v) t
    → Written store k v (put store a t)
put-Written store a k v t s = record {
  valid = λ b old. elim (put-cases store a t b) [
    | inl (_, new) ↦ rw new s.valid
    | inr kept ↦ rw kept old
  ];
  others = λ b q e. elim (put-cases store a t b) [
    | inl (here, new) ↦ rw (new, here) (ground (arith, s.reads q, e))
    | inr kept ↦ rw kept refl
  ];
  own = λ b. elim (put-cases store a t b) [
    | inl (here, new) ↦ inr (rw new (ground (arith, s.reads k, (string_compare_iff k k).1 refl)))
    | inr kept ↦ inl (rw kept refl)
  ];
}

search-others :
    (store store' : ℕ → SlotTable) (chain : List Context) (k : Str) (v : ℕ)
    → Written store k v store'
    → (q : Str) → string_compare k q ≡ false
    → search store' chain q ≡ search store chain q
unfolding search context_get_slot
search-others store store' [] k v w q e = refl
search-others store store' (ctx ∷ prev) k v w q e =
    let rest = search-others store store' prev k v w q e in
    elim (Option-cases ctx.slots) [
      | inl null ↦ ground (arith, null, rest)
      | inr (a, at) ↦ ground (arith, at, rest, w.others a q e)
    ]

-- A context without the name hides nothing of it.
search_behind :
    (store store' : ℕ → SlotTable) (ctx : Context) (prev : List Context) (k : Str) (v : ℕ)
    → Written store k v store'
    → context_get_slot store ctx k ≡ none
    → search store' prev k ≡ some v
    → search store' (ctx ∷ prev) k ≡ some v
unfolding search context_get_slot
search_behind store store' ctx prev k v w missed found = elim (Option-cases ctx.slots) [
  | inl null ↦ ground (arith, null, found)
  | inr (a, at) ↦ elim (w.own a) [
    | inl same ↦ ground (arith, at, same, missed, found)
    | inr set ↦ ground (arith, at, set)
  ]
]

-- How an assignment of `v` to the innermost binding of `k` ends.
pub record Assigned (store : ℕ → SlotTable) (chain : List Context) (k : Str) (v : ℕ)
    (store' : ℕ → SlotTable) : Type 0 where
  pub valid : (a : ℕ) → IsValid (store a) → IsValid (store' a)
  pub reads :
      (q : Str)
      → search store' chain q ≡ (if string_compare k q then some v else search store chain q)

put-same : (store : ℕ → SlotTable) (a : ℕ) → put store a (store a) ≡ store
put-same store a = fun_ext (λ b. elim (put-cases store a (store a) b) [
  | inl (here, new) ↦ new ∙ ap store (sym here)
  | inr kept ↦ kept
])

pub put-at : (store : ℕ → SlotTable) (a : ℕ) (t : SlotTable) → put store a t a ≡ t
unfolding put
put-at store a t = ground arith

pub Written-Assigned :
    (store store' : ℕ → SlotTable) (chain : List Context) (k : Str) (v : ℕ)
    → Written store k v store'
    → search store' chain k ≡ some v
    → Assigned store chain k v store'
Written-Assigned store store' chain k v w found = record {
  valid = w.valid;
  reads = λ q. elim (Bool-cases (string_compare k q)) [
    | inl e ↦ rw (e, ← (string_compare_iff k q).0 e) found
    | inr e ↦ rw e (search-others store store' chain k v w q e)
  ];
}

-- The setter of one context.
context_set_exist_slot-Written :
    (store : ℕ → SlotTable) (st : State) (ctx : Context) (k : Str) (v : ℕ)
    → ((a : ℕ) → ctx.slots ≡ some a → IsValid (store a))
    → ((store' : ℕ → SlotTable) × (st' : State) × (x : ℕ) × (context_set_exist_slot store st ctx k
            (some v)
          ≡ (true, store', st'))
        × (context_get_slot store ctx k ≡ some x)
        × (context_get_slot store' ctx k ≡ some v)
        × Written store k v store')
      ⊎ ((context_set_exist_slot store st ctx k (some v) ≡ (false, store, st))
          × (context_get_slot store ctx k ≡ none))
unfolding context_set_exist_slot context_get_slot
context_set_exist_slot-Written store st ctx k v valid = elim (Option-cases ctx.slots) [
  | inl null ↦ inr (ground (arith, null), ground (arith, null))
  | inr (a, at) ↦ elim (set_exist_slot-Sets (store a) st k (some v) (valid a at)) [
    | inl (x, t, st', held, run, s) ↦ inl (
      put store a t,
      st',
      x,
      rw (at, run) refl,
      rw at held,
      rw (at, put-at store a t) (ground (arith, s.reads k, (string_compare_iff k k).1 refl)),
      put-Written store a k v t s,
    )
    | inr (missed, run) ↦ inr (rw (at, run, put-same store a) refl, rw at missed)
  ]
]

search_and_set-Written :
    (store : ℕ → SlotTable) (st : State) (chain : List Context) (k : Str) (v : ℕ)
    → IsValidChain store chain
    → ((store' : ℕ → SlotTable) × (st' : State) × (x : ℕ) × (search_and_set store st chain k
            (some v)
          ≡ (true, store', st'))
        × (search store chain k ≡ some x)
        × (search store' chain k ≡ some v)
        × Written store k v store')
      ⊎ ((search_and_set store st chain k (some v) ≡ (false, store, st))
          × (search store chain k ≡ none))
unfolding search_and_set search IsValidChain
search_and_set-Written store st [] k v valid = inr (refl, refl)
search_and_set-Written store st (ctx ∷ prev) k v valid =
    let after : Bool × (ℕ → SlotTable) × State → Bool × (ℕ → SlotTable) × State = (λ r. elim r.0 [
      | true ↦ (true, r.1, r.2)
      | false ↦ search_and_set r.1 r.2 prev k (some v)
    ]) in
    let one = context_set_exist_slot-Written store st ctx k v (λ a. valid 0 ctx a refl) in
    let rest = search_and_set-Written store st prev k v (λ j. valid (suc j)) in
    elim one [
      | inl (store', st', x, run, held, now, w) ↦
          inl (store', st', x, ap after run, rw (search, held) refl, rw (search, now) refl, w)
      | inr (run, missed) ↦ elim rest [
        | inl (store', st', x, runs, held, now, w) ↦ inl (
          store',
          st',
          x,
          ap after run ∙ runs,
          rw (search, missed) held,
          search_behind store store' ctx prev k v w missed now,
          w,
        )
        | inr (runs, none_there) ↦ inr (ap after run ∙ runs, rw (search, missed) none_there)
      ]
    ]

-- On a chain of contexts with valid slot tables, which may share tables,
-- ivm_context_searchAndSetExistSlot with an object either changes nothing and answers false, where
-- ivm_context_search finds no object for the name; or it answers true, after which
-- ivm_context_search from the innermost context finds the new object for the name and the same as
-- before for all other names, and valid tables stay valid.
pub search_and_set-Assigned :
    (store : ℕ → SlotTable) (st : State) (chain : List Context) (k : Str) (v : ℕ)
    → IsValidChain store chain
    → ((store' : ℕ → SlotTable) × (st' : State) × (x : ℕ) × (search store chain k ≡ some x)
        × (search_and_set store st chain k (some v) ≡ (true, store', st'))
        × Assigned store chain k v store')
      ⊎ ((search store chain k ≡ none)
          × (search_and_set store st chain k (some v) ≡ (false, store, st)))
search_and_set-Assigned store st chain k v valid =
    elim (search_and_set-Written store st chain k v valid) [
      | inl (store', st', x, run, held, now, w) ↦
          inl (store', st', x, held, run, Written-Assigned store store' chain k v w now)
      | inr (run, missed) ↦ inr (missed, run)
    ]
