-- ===== src/Pool/Hold.antt =====
-- What a pool holds: regions of its heap that are free or in use, no two of which share a byte.
use mathlib.Core.List.{map, map-append}
use ivm.Base.{
  ℕ, ◌*◌, ◌≤◌, ◌<◌, ◌≡◌, refl, ap, sym, ◌∙◌, subst, some, List, [], ◌∷◌, ◌++◌, take, inl, inr, ◌⊎◌,
  arith,
}
use ivm.Heap.{Region, Heap}
use ivm.Heap.Blocks.{IsLive, AreApart}
use ivm.Heap.Blocks
use ivm.Heap.Alloc.{Allocated}
use ivm.Heap.Cycle.{init-IsValid, reset-IsValid}
use ivm.PtrList
use ivm.PtrList.{PtrList}
use ivm.PtrList.Memory
use ivm.PtrList.Memory.{items, length-realloc}
use ivm.PtrList.Ends.{push-items}
use ivm.Pool.{Pool, pool_init, pool_dump, pool_dump_all}

AreApart-sym : (q r : Region) → AreApart q r → AreApart r q
AreApart-sym q r (inl other) = inl (λ e. other (sym e))
AreApart-sym q r (inr (inl before)) = inr (inr before)
AreApart-sym q r (inr (inr behind)) = inr (inl behind)

abbrev pub All : (Region → Type 0) → List Region → Type 0
All P [] = Unit {0}
All P (r ∷ rs) = P r × All P rs

All-map :
    (P Q : Region → Type 0) (rs : List Region) → ((r : Region) → P r → Q r) → All P rs → All Q rs
All-map P Q [] f h = tt
All-map P Q (r ∷ rs) f (h, hs) = (f r h, All-map P Q rs f hs)

All-snoc :
    (P : Region → Type 0) (rs : List Region) (r : Region) → All P rs → P r → All P (rs ++ r ∷ [])
All-snoc P [] r h p = (p, tt)
All-snoc P (q ∷ rs) r (h, hs) p = (h, All-snoc P rs r hs p)

-- No two regions share a byte.
abbrev pub AllApart : List Region → Type 0
AllApart [] = Unit {0}
AllApart (r ∷ rs) = All (AreApart r) rs × AllApart rs

AllApart-snoc :
    (rs : List Region) (r : Region)
    → AllApart rs
    → All (λ q. AreApart q r) rs
    → AllApart (rs ++ r ∷ [])
AllApart-snoc [] r h p = (tt, tt)
AllApart-snoc (q ∷ rs) r (h, hs) (p, ps) =
    (All-snoc (AreApart q) rs r h p, AllApart-snoc rs r hs ps)

-- An element of `esize` bytes.
pub record IsElement (heap : Heap) (esize : ℕ) (r : Region) : Type 0 where
  pub live : IsLive heap r
  pub large : esize ≤ r.len

-- The pool has the free elements `free`, and the elements for which `Used` holds are in use.
pub record Holds (address : Region → ℕ) (pool : Pool) (free : List Region) (Used : Region → Type 0)
    : Type 0 where
  pub heap_valid : Blocks.IsValid pool.heap
  pub list_valid : Memory.IsValid pool.freed
  pub listed : items pool.freed ≡ map address free
  pub free_elements : All (IsElement pool.heap pool.esize) free
  pub used_elements : (q : Region) → Used q → IsElement pool.heap pool.esize q
  pub free_apart : AllApart free
  pub free_used : (q : Region) → Used q → All (AreApart q) free
  pub used_apart : (q r : Region) → Used q → Used r → (q ≡ r) ⊎ AreApart q r

-- ivm_ptpool_dump of an element in use keeps a pool whose free and used elements are live, large
-- enough and share no byte: the element becomes the last free one, and those in use are the
-- others.
pub pool_dump-Holds :
    (address : Region → ℕ) (junk : ℕ → ℕ) (pool : Pool) (free : List Region)
    (Used : Region → Type 0) (r : Region)
    → Holds address pool free Used
    → Used r
    → (pool' : Pool) × (pool_dump junk pool (address r) ≡ some pool')
      × Holds address pool' (free ++ r ∷ []) (λ q. Used q × AreApart q r)
unfolding pool_dump
pool_dump-Holds address junk pool free Used r h used =
    let (freed, run, valid, more) = push-items junk pool.freed (address r) h.list_valid in
    (
      record pool { freed = freed },
      rw (pool_dump, run) refl,
      record {
        heap_valid = h.heap_valid;
        list_valid = valid;
        listed =
            more ∙ ap (λ l. l ++ address r ∷ []) h.listed ∙ sym (map-append address free (r ∷ []));
        free_elements = All-snoc _ free r h.free_elements (h.used_elements r used);
        used_elements = λ q (u, _). h.used_elements q u;
        free_apart = AllApart-snoc free r h.free_apart (
            All-map (AreApart r) (λ q. AreApart q r) free (λ q. AreApart-sym r q)
              (h.free_used r used));
        free_used = λ q (u, apart). All-snoc (AreApart q) free r (h.free_used q u) apart;
        used_apart = λ p q (u, _) (w, _). h.used_apart p q u w;
      },
    )

-- What an allocation hands out.
pub record Taken (address : Region → ℕ) (pool pool' : Pool) (Used : Region → Type 0) (r : Region)
    : Type 0 where
  pub rest : List Region
  pub large : pool.esize ≤ r.len
  pub apart : (q : Region) → Used q → AreApart q r
  pub holds : Holds address pool' rest (λ q. Used q ⊎ (q ≡ r))

-- A new element joins those in use.
add_used :
    (Used : Region → Type 0) (r : Region)
    → ((q s : Region) → Used q → Used s → (q ≡ s) ⊎ AreApart q s)
    → ((q : Region) → Used q → AreApart q r)
    → (q s : Region) → (Used q) ⊎ (q ≡ r)
    → (Used s) ⊎ (s ≡ r)
    → (q ≡ s) ⊎ AreApart q s
add_used Used r old new q s (inl u) (inl w) = old q s u w
add_used Used r old new q s (inl u) (inr e) = inr (subst (AreApart q) (sym e) (new q u))
add_used Used r old new q s (inr e) (inl w) =
    inr (subst (λ p. AreApart p s) (sym e) (AreApart-sym s r (new s w)))
add_used Used r old new q s (inr e) (inr f) = inl (e ∙ sym f)

-- A new element is handed out where none is free.
pub heap-Taken :
    (address : Region → ℕ) (pool : Pool) (Used : Region → Type 0) (r : Region) (heap : Heap)
    → Holds address pool [] Used
    → Allocated pool.heap pool.esize r heap
    → Taken address pool (record pool { heap = heap }) Used r
heap-Taken address pool Used r heap h a = record {
  rest = [];
  large = a.enough;
  apart = λ q u. a.apart q (h.used_elements q u).live;
  holds = record {
    heap_valid = a.valid;
    list_valid = h.list_valid;
    listed = h.listed;
    free_elements = tt;
    used_elements = λ q used. elim used [
      | inl u ↦
          let element = h.used_elements q u in
          record { live = a.kept q element.live; large = element.large }
      | inr e ↦
          subst (IsElement heap pool.esize) (sym e) (record { live = a.live; large = a.enough })
    ];
    free_apart = tt;
    free_used = λ q u. tt;
    used_apart = add_used Used r h.used_apart (λ q u. a.apart q (h.used_elements q u).live);
  };
}

-- A new pool for at least one element holds nothing.
pub pool_init-Holds :
    (address : Region → ℕ) (junk : ℕ → ℕ) (next ecount esize : ℕ)
    → 0 < ecount
    → Holds address (pool_init junk next ecount esize) [] (λ _. ⊥)
unfolding pool_init PtrList.init take
pool_init-Holds address junk next ecount esize some_room = record {
  heap_valid = init-IsValid next (ecount * esize);
  list_valid = record {
    sized = length-realloc junk ecount [];
    fits = omega arith;
    roomy = some_room;
  };
  listed = refl;
  free_elements = tt;
  used_elements = λ q u. absurd u;
  free_apart = tt;
  free_used = λ q u. absurd u;
  used_apart = λ q r u w. absurd u;
}

-- A pool whose elements are all given back holds nothing.
pool_dump_all-Holds :
    (address : Region → ℕ) (pool : Pool) (free : List Region) (Used : Region → Type 0)
    → Holds address pool free Used
    → Holds address (pool_dump_all pool) [] (λ _. ⊥)
unfolding pool_dump_all take
pool_dump_all-Holds address pool free Used h = record {
  heap_valid = (reset-IsValid pool.heap h.heap_valid).0;
  list_valid = record {
    sized = h.list_valid.sized;
    fits = omega arith;
    roomy = h.list_valid.roomy;
  };
  listed = refl;
  free_elements = tt;
  used_elements = λ q u. absurd u;
  free_apart = tt;
  free_used = λ q u. absurd u;
  used_apart = λ q r u w. absurd u;
}
