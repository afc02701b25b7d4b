-- ===== src/Ring/Refine.antt =====
-- The operations of the ring buffer on its contents: it behaves as an unbounded list.
use native.Mathlib.Nat.{mod-eq_of_lt, mod-add-mod}
use dvactor.Base.{
  ℕ, suc, ◌+◌, ◌-◌, ◌%◌, ◌≤◌, ◌<◌, ◌≡◌, inl, inr, ap, ap₂, sym, ◌∙◌, Bool, true, false, List, [],
  ◌∷◌, ◌++◌, get_or, set, arith, ◌==◌, Bool-cases, get_or-set_self, get_or-set_ne,
}
use dvactor.Ring.{RingBuffer, is_empty, is_full, grow, write_tail, push, pop, peek}
use dvactor.Ring.Inv.{IsValid, tail_in, grow-IsValid, write_tail-IsValid}
use dvactor.Ring.Contents.{
  collect, collect-ext, collect-snoc, collect-shift, place, slot, contents, place_ne,
}
use dvactor.Ring.Grow.{contents-grow}

-- Taking the oldest of a list; the zero value and `false` if there is none.
unfoldable pub dequeue {ℓ} : {A : Type ℓ} → A → List A → A × Bool × List A
dequeue z [] = (z, false, [])
dequeue z (x ∷ xs) = (x, true, xs)

module _ {ℓ} {A : Type ℓ} where
  -- Writing at the tail puts the value behind the contents.
  pub contents-write_tail :
      {rb : RingBuffer A} (x : A)
      → IsValid rb
      → rb.count < rb.size
      → contents (write_tail rb x) ≡ contents rb ++ (x ∷ [])
  unfolding write_tail
  contents-write_tail {rb} x v h =
      ap (collect written 0) (let e : rb.count + 1 ≡ suc rb.count = omega arith in e)
      ∙ collect-snoc written 0 rb.count
      ∙ ap₂ (λ l a. l ++ (a ∷ [])) (collect-ext written (slot rb) 0 rb.count old) new
    where
      written : ℕ → A
      written k = get_or (set rb.buffer rb.tail x) (place rb k) rb.zero_value

      old : (k : ℕ) → 0 ≤ k → k < 0 + rb.count → written k ≡ slot rb k
      old k lo hi =
          get_or-set_ne rb.buffer rb.tail (place rb k) x rb.zero_value
            (λ e. place_ne k rb.count v (omega arith) h (sym e ∙ v.tail_at))

      new : written (0 + rb.count) ≡ x
      new =
          ap written (let e : 0 + rb.count ≡ rb.count = omega arith in e)
          ∙ ap (λ j. get_or (set rb.buffer rb.tail x) j rb.zero_value) (sym v.tail_at)
          ∙ get_or-set_self rb.buffer rb.tail x rb.zero_value (omega (arith, tail_in v, v.storage))

  -- `Push` keeps the buffer valid and adds its value behind the contents, full or not.
  pub push_refines :
      {rb : RingBuffer A} (x : A)
      → IsValid rb
      → IsValid (push rb x) × (contents (push rb x) ≡ contents rb ++ (x ∷ []))
  unfolding push is_full grow
  push_refines {rb} x v = elim (Bool-cases (rb.count == rb.size)) [
    | inl e ↦ rw e (
      write_tail-IsValid x (grow-IsValid v) (grown e),
      contents-write_tail x (grow-IsValid v) (grown e) ∙ ap (λ l. l ++ (x ∷ [])) (contents-grow v),
    )
    | inr e ↦ rw e (
      write_tail-IsValid x v (ground (arith, v.count_in)),
      contents-write_tail x v (ground (arith, v.count_in)),
    )
  ]
    where
      grown : (rb.count == rb.size) ≡ true → (grow rb).count < (grow rb).size
      grown e = ground (arith, v.positive)

  pub contents-empty : (rb : RingBuffer A) → rb.count ≡ 0 → contents rb ≡ []
  contents-empty rb e = ap (collect (slot rb) 0) e

  place_head : {rb : RingBuffer A} → IsValid rb → place rb 0 ≡ rb.head
  place_head {rb} v =
      mod-eq_of_lt {n = rb.head + 0} (omega (arith, v.head_in))
      ∙ (let e : rb.head + 0 ≡ rb.head = omega arith in e)

  -- The buffer after `Pop` took an element.
  abbrev popped : RingBuffer A → RingBuffer A
  popped rb = record rb {
    buffer = set rb.buffer rb.head rb.zero_value;
    head = (rb.head + 1) % rb.size;
    count = rb.count - 1;
  }

  contents-popped :
      {rb : RingBuffer A}
      → IsValid rb
      → 0 < rb.count
      → contents rb ≡ get_or rb.buffer rb.head rb.zero_value ∷ contents (popped rb)
  contents-popped {rb} v h =
      ap (collect (slot rb) 0) (let e : rb.count ≡ suc (rb.count - 1) = omega arith in e)
      ∙ ap₂ ◌∷◌ (ap (λ j. get_or rb.buffer j rb.zero_value) (place_head v)) (
          collect-shift (slot rb) 0 (rb.count - 1)
          ∙ collect-ext (λ k. slot rb (suc k)) (slot (popped rb)) 0 (rb.count - 1) same)
    where
      at : (k : ℕ) → place rb (suc k) ≡ place (popped rb) k
      at k = rw mod-add-mod (ap (λ j. j % rb.size) (omega arith))

      same : (k : ℕ) → 0 ≤ k → k < 0 + (rb.count - 1) → slot rb (suc k) ≡ slot (popped rb) k
      same k lo hi =
          sym (
            get_or-set_ne rb.buffer rb.head (place rb (suc k)) rb.zero_value rb.zero_value (λ e.
              place_ne 0 (suc k) v (omega arith) (omega (arith, v.count_in)) (place_head v ∙ e)))
          ∙ ap (λ j. get_or (set rb.buffer rb.head rb.zero_value) j rb.zero_value) (at k)

  -- On a valid buffer, `Pop` gives the oldest element and leaves the rest, or gives the zero value
  -- and `false` if the buffer is empty.
  pub pop_refines :
      {rb : RingBuffer A}
      → IsValid rb
      → let (a, ok, rb') = pop rb in (a, ok, contents rb') ≡ dequeue rb.zero_value (contents rb)
  unfolding pop is_empty dequeue
  pop_refines {rb} v = elim (Bool-cases (rb.count == 0)) [
    | inl e ↦ rw (e, contents-empty rb (ground arith))
    | inr e ↦ rw (e, contents-popped v (ground arith))
  ]

  -- `Peek` gives what `Pop` would give.
  pub peek-pop : (rb : RingBuffer A) → peek rb ≡ ((pop rb).0, (pop rb).1)
  unfolding pop peek is_empty
  peek-pop rb = ground arith
