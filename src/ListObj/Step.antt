-- ===== src/ListObj/Step.antt =====
-- vm/listobj.c: every so many elements of a list.
use native.Mathlib.Nat.{mul-le-mul_right, suc-mul}
use ivm.Base.{
  ℕ, zero, suc, ◌+◌, ◌*◌, ◌<◌, ◌≤◌, ◌≡◌, refl, ap, sym, ◌∙◌, false, some, List, length, length-set,
  get_elem?, get_elem?-set, get_elem?_inside, set, ltb, ◌==◌, Bool-cases, inl, inr, arith,
}
use ivm.Range.Ints.{pos}
use ivm.PtrList.Memory.{store_inside}
use ivm.ListObj.{ListObj, list_get, step_loop, list_step}
use ivm.ListObj.Index.{IsValid}

-- The loop has stopped with `n` elements.
record Stopped (step size n : ℕ) (orig lst lst' : List ℕ) : Type 0 where
  width : length lst' ≡ length lst
  fewer : n ≤ size
  past : size ≤ n * step
  elements : (k : ℕ) → k < n → (get_elem? lst' k ≡ get_elem? orig (k * step)) × (k * step < size)

step_loop-Stopped :
    (fuel step size i j : ℕ) (orig lst : List ℕ)
    → 0 < step
    → size ≤ length lst
    → j ≡ i * step
    → i ≤ j
    → i ≤ size
    → size < i + fuel
    → ((m : ℕ) → j ≤ m → get_elem? lst m ≡ get_elem? orig m)
    → ((k : ℕ) → k < i → (get_elem? lst k ≡ get_elem? orig (k * step)) × (k * step < size))
    → (n : ℕ) × (lst' : List ℕ) × (step_loop fuel step size i j lst ≡ some (n, lst'))
      × Stopped step size n orig lst lst'
unfolding step_loop
step_loop-Stopped zero step size i j orig lst more inside at before small fuels old done =
    absurd (omega arith)
step_loop-Stopped (suc fuel) step size i j orig lst more inside at before small fuels old done =
    elim (Bool-cases (ltb j size)) [
      | inr end ↦ (
        i,
        lst,
        rw (step_loop, end) refl,
        record { width = refl; fewer = small; past = ground (arith, end, at); elements = done },
      )
      | inl on ↦
          let low : j < size = ground (arith, on) in
          let (obj, there) = get_elem?_inside lst j (omega arith) in
          let room : i < length lst = omega arith in
          let write = λ (m : ℕ). get_elem?-set lst i m obj room in
          let next : j + step ≡ suc i * step = ap (λ n. n + step) at ∙ sym (suc-mul i step) in
          let (n, lst', run, x) =
            step_loop-Stopped fuel step size (suc i) (j + step) orig (set lst i obj) more
              (omega (arith, inside, length-set lst i obj)) next (omega arith) (omega arith)
              (omega arith) (λ m h. ground (arith, write m, old m))
              (λ k h. elim (Bool-cases (i == k)) [
                | inl here ↦
                    let i-k : i ≡ k = ground (arith, here) in
                    let from : j ≡ k * step = at ∙ ap (λ n. n * step) i-k in
                    (
                      ground (arith, write k, here, there)
                          ∙ sym there
                          ∙ old j (omega arith)
                          ∙ ap (get_elem? orig) from,
                      omega (arith, from, low),
                    )
                | inr other ↦
                    let (same, inside_) = done k (ground (arith, other, h)) in
                    (ground (arith, write k, other) ∙ same, inside_)
              ]) in
          (
            n,
            lst',
            rw (step_loop, on, there, store_inside lst i obj room) run,
            record {
              width = x.width ∙ length-set lst i obj;
              fewer = x.fewer;
              past = x.past;
              elements = x.elements;
            },
          )
    ]

-- Every `step`-th element of a list.
pub record Stepped (l : ListObj) (step : ℕ) (l' : ListObj) : Type 0 where
  pub valid : IsValid l'
  pub elements : (k : ℕ) → list_get l' (pos k) ≡ list_get l (pos (k * step))

-- ivm_list_object_step by a step of at least 1 ends on every list whose elements lie in its
-- memory, without an access outside it; element k is then the old element k times the step, and
-- NULL where there was none.
pub list_step-Stepped :
    (l : ListObj) (step : ℕ)
    → IsValid l
    → 0 < step
    → (l' : ListObj) × (list_step l step ≡ some l') × Stepped l step l'
unfolding list_step list_get
list_step-Stepped l step v more =
    let some_step : (step == 0) ≡ false = ground (arith, more) in
    elim (Bool-cases (step == 1)) [
      | inl one ↦
          let one_ : step ≡ 1 = ground (arith, one) in
          (
            l,
            rw (list_step, some_step, one) refl,
            record {
              valid = v;
              elements = λ k.
                  let same : k ≡ k * step = omega (arith, ap (λ n. k * n) one_) in
                  ap (λ n. list_get l (pos n)) same;
            },
          )
      | inr many ↦
          let (n, lst, run, x) =
            step_loop-Stopped (suc l.size) step l.size 0 0 l.lst l.lst more
              (omega (arith, v.sized, v.fits)) (omega arith) (omega arith) (omega arith)
              (omega arith) (λ m h. refl) (λ k h. absurd (omega arith)) in
          (
            record l { size = n; lst = lst },
            rw (list_step, some_step, many, run) refl,
            record {
              valid = record { sized = x.width ∙ v.sized; fits = omega (arith, x.fewer, v.fits) };
              elements = λ k. elim (Bool-cases (ltb k n)) [
                | inl low ↦
                    let (same, inside) = x.elements k (ground (arith, low)) in
                    ground (arith, low, same, inside)
                | inr high ↦
                    let beyond : n * step ≤ k * step =
                      mul-le-mul_right step (ground (arith, high)) in
                    ground (arith, high, beyond, x.past)
              ];
            },
          )
    ]
