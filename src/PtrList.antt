-- ===== src/PtrList.antt =====
-- std/list.h and std/list.c: the list of pointers (ivm_ptlist_t). `lst` is the allocated memory, a
-- pointer is a number and NULL is 0. Memory that is allocated holds anything: `junk` gives what.
-- A read or a write outside the memory is a fault, which is none.
pub mod Memory
pub mod Ends
pub mod Insert
pub mod Search
pub mod Reverse
use ivm.Base.{
  ℕ, zero, suc, ◌+◌, ◌-◌, ◌*◌, Bool, true, false, Option, none, some, List, [], ◌∷◌, ◌++◌, length,
  get_elem?, set, take, drop, replicate, ltb, leb, ◌==◌, if◌then◌else◌,
}

pub record PtrList : Type 0 where
  pub alloc : ℕ
  pub cur : ℕ
  pub lst : List ℕ

-- STD_REALLOC to `n` cells: the old cells stay as far as there is room.
unfoldable pub realloc : (ℕ → ℕ) → ℕ → List ℕ → List ℕ
realloc junk zero cells = []
realloc junk (suc n) [] = junk n ∷ realloc junk n []
realloc junk (suc n) (c ∷ cells) = c ∷ realloc junk n cells

-- `lst[i] = p`
unfoldable pub store : List ℕ → ℕ → ℕ → Option (List ℕ)
store cells i p = if ltb i (length cells) then some (set cells i p) else none

-- ivm_ptlist_init_c
unfoldable pub init : (ℕ → ℕ) → ℕ → PtrList
init junk size = record { alloc = size; cur = 0; lst = realloc junk size [] }

-- ivm_ptlist_init_t, of `size` pointers at `items`.
unfoldable pub init_t : List ℕ → PtrList
init_t items = record { alloc = length items; cur = length items; lst = items }

-- ivm_ptlist_inc
unfoldable pub inc : (ℕ → ℕ) → PtrList → PtrList
inc junk l = record l { alloc = l.alloc * 2; lst = realloc junk (l.alloc * 2) l.lst }

-- ivm_ptlist_incTo
unfoldable pub inc_to : (ℕ → ℕ) → PtrList → ℕ → PtrList
inc_to junk l size =
    if ltb l.alloc size then record l { alloc = size; lst = realloc junk size l.lst } else l

-- ivm_ptlist_push: the index of the new element, and the list.
unfoldable pub push : (ℕ → ℕ) → PtrList → ℕ → Option (ℕ × PtrList)
push junk l p =
    let l₁ = if leb l.alloc l.cur then inc junk l else l in
    elim (store l₁.lst l₁.cur p) [
      | none ↦ none
      | some cells ↦ some (l₁.cur, record l₁ { lst = cells; cur = suc l₁.cur })
    ]

-- STD_MEMMOVE by one cell, of `n` cells at the start of the memory.
unfoldable pub move_right : List ℕ → ℕ → Option (List ℕ)
move_right cells n =
    if leb (length cells) n then none else some (take 1 cells ++ take n cells ++ drop (suc n) cells)

-- ivm_ptlist_pushFront
unfoldable pub push_front : (ℕ → ℕ) → PtrList → ℕ → Option (ℕ × PtrList)
push_front junk l p =
    let l₁ = if leb l.alloc l.cur then inc junk l else l in
    elim (move_right l₁.lst l₁.cur) [
      | none ↦ none
      | some moved ↦ elim (store moved 0 p) [
        | none ↦ none
        | some cells ↦ some (l₁.cur, record l₁ { lst = cells; cur = suc l₁.cur })
      ]
    ]

-- ivm_ptlist_pop: the last pointer, NULL of an empty list.
unfoldable pub pop : PtrList → Option (ℕ × PtrList)
pop l = if l.cur == 0 then some (0, l) else elim (get_elem? l.lst (l.cur - 1)) [
  | none ↦ none
  | some p ↦ some (p, record l { cur = l.cur - 1 })
]

-- ivm_ptlist_compact
unfoldable pub compact : (ℕ → ℕ) → PtrList → PtrList
compact junk l = record l { alloc = l.cur; lst = realloc junk l.cur l.lst }

-- STD_INIT of `n` cells from cell `i` on.
unfoldable pub clear : List ℕ → ℕ → ℕ → Option (List ℕ)
clear cells i zero = some cells
clear cells i (suc n) = elim (store cells i 0) [
  | none ↦ none
  | some cells' ↦ clear cells' (suc i) n
]

-- ivm_ptlist_insert
unfoldable pub insert : (ℕ → ℕ) → PtrList → ℕ → ℕ → Option PtrList
insert junk l i p =
    let room = inc_to junk l (suc i) in
    let grown : Option PtrList = elim (clear room.lst l.cur (i - l.cur)) [
      | none ↦ none
      | some cells ↦ some (record room { lst = cells; cur = suc i })
    ] in
    elim (if leb l.cur i then grown else some l) [
      | none ↦ none
      | some l₁ ↦ elim (store l₁.lst i p) [
        | none ↦ none
        | some cells ↦ some (record l₁ { lst = cells })
      ]
    ]

-- The loop of ivm_ptlist_indexOf_c: the index of the first element that `comp` finds equal, of
-- `n` elements from `i` on; none is -1, and a read outside the memory is not equal to anything.
unfoldable pub index_loop : (ℕ → Bool) → List ℕ → ℕ → ℕ → Option ℕ
index_loop same cells i zero = none
index_loop same cells i (suc n) =
    let rest = index_loop same cells (suc i) n in
    elim (get_elem? cells i) [ none ↦ none | some p ↦ if same p then some i else rest ]

-- ivm_ptlist_indexOf_c
unfoldable pub index_of : PtrList → ℕ → (ℕ → ℕ → Bool) → Option ℕ
index_of l ptr same = index_loop (λ p. same p ptr) l.lst 0 l.cur

-- ivm_ptlist_find
unfoldable pub find : PtrList → ℕ → Option ℕ
find l ptr = index_loop (λ p. p == ptr) l.lst 0 l.cur

-- `while (end > lst)` of ivm_ptlist_reverse_c, with `lo` and `hi` one past `end`.
unfoldable pub reverse_loop : ℕ → List ℕ → ℕ → ℕ → Option (List ℕ)
reverse_loop zero cells lo hi = none
reverse_loop (suc fuel) cells lo hi =
    let next : Option (List ℕ) = elim (get_elem? cells lo) as (λ _. Option (List ℕ)) [
      | none ↦ none
      | some a ↦ elim (get_elem? cells (hi - 1)) as (λ _. Option (List ℕ)) [
        | none ↦ none
        | some b ↦ reverse_loop fuel (set (set cells lo b) (hi - 1) a) (suc lo) (hi - 1)
      ]
    ] in
    if ltb (suc lo) hi then next else some cells

-- ivm_ptlist_reverse
unfoldable pub reverse : PtrList → Option PtrList
reverse l = elim (reverse_loop (suc l.cur) l.lst 0 l.cur) [
  | none ↦ none
  | some cells ↦ some (record l { lst = cells })
]
