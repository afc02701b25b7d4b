-- ===== src/Ring/Batch.antt =====
-- The operations of the ring buffer on many elements, on its contents.
use dvactor.Base.{
  ℕ, zero, suc, ◌+◌, ◌-◌, ◌≤◌, ◌<◌, ◌≡◌, inl, inr, refl, ap, ap₂, sym, ◌∙◌, List, [], ◌∷◌, ◌++◌,
  length, get_or, set, arith, ltb, ◌==◌, Bool-cases, get_or-set_ne, append-nil, append_assoc,
}
use dvactor.Ring.{
  RingBuffer, is_empty, grow, write_tail, reserve, write_all, push_batch, pop_loop, pop_all,
  get_all, get_all_loop,
}
use dvactor.Ring.Inv.{IsValid, grow-IsValid, write_tail-IsValid, pop_all-IsValid, count-pop_all}
use dvactor.Ring.Contents.{collect, slot, place, contents, place_ne}
use dvactor.Ring.Grow.{contents-grow}
use dvactor.Ring.Refine.{contents-write_tail, contents-empty}

module _ {ℓ} {A : Type ℓ} where
  -- What the growing loop of `PushBatch` leaves: the same contents, and room for `n` more.
  record HasRoom (rb out : RingBuffer A) (n : ℕ) : Type ℓ where
    valid : IsValid out
    same : contents out ≡ contents rb
    room : out.count + n ≤ out.size

  reserve-HasRoom :
      (fuel n : ℕ) {rb : RingBuffer A}
      → IsValid rb
      → n ≤ rb.size - rb.count + fuel
      → HasRoom rb (reserve fuel n rb) n
  unfolding reserve grow
  reserve-HasRoom zero n v h = record { valid = v; same = refl; room = omega (arith, v.count_in) }
  reserve-HasRoom (suc fuel) n {rb} v h = elim (Bool-cases (ltb (rb.size - rb.count) n)) [
    | inl e ↦
        let more = reserve-HasRoom fuel n (grow-IsValid v) (bigger v h) in
        rw (e, reserve)
          (record { valid = more.valid; same = more.same ∙ contents-grow v; room = more.room })
    | inr e ↦ rw (e, reserve) (record { valid = v; same = refl; room = ground (arith, v.count_in) })
  ]
    where
      bigger :
          IsValid rb
          → n ≤ rb.size - rb.count + suc fuel
          → n ≤ (grow rb).size - (grow rb).count + fuel
      bigger w k = omega (arith, w.positive, w.count_in)

  write_all-lem :
      {rb : RingBuffer A} (xs : List A)
      → IsValid rb
      → rb.count + length xs ≤ rb.size
      → IsValid (write_all rb xs) × (contents (write_all rb xs) ≡ contents rb ++ xs)
  unfolding write_all write_tail
  write_all-lem {rb} [] v h = (v, sym (append-nil (contents rb)))
  write_all-lem {rb} (x ∷ xs) v h =
      let more =
        write_all-lem {rb = write_tail rb x} xs (write_tail-IsValid x v (omega arith))
          (more_room h) in
      (
        more.0,
        more.1
            ∙ ap (λ l. l ++ xs) (contents-write_tail x v (omega arith))
            ∙ append_assoc (contents rb) (x ∷ []) xs,
      )
    where
      more_room :
          rb.count + suc (length xs) ≤ rb.size
          → (write_tail rb x).count + length xs ≤ (write_tail rb x).size
      more_room k = omega arith

  -- On a valid buffer `PushBatch` grows as often as it must, keeps the buffer valid, and adds all its values behind
  -- the contents, in order.
  pub push_batch_refines :
      {rb : RingBuffer A} (xs : List A)
      → IsValid rb
      → IsValid (push_batch rb xs) × (contents (push_batch rb xs) ≡ contents rb ++ xs)
  unfolding push_batch
  push_batch_refines {rb} [] v = (v, sym (append-nil (contents rb)))
  push_batch_refines {rb} (x ∷ xs) v =
      let n = length (x ∷ xs) in
      let grown = reserve-HasRoom n n v (omega arith) in
      let written = write_all-lem (x ∷ xs) grown.valid grown.room in
      (written.0, written.1 ∙ ap (λ l. l ++ (x ∷ xs)) grown.same)

  pop_loop-collect :
      {rb : RingBuffer A} (n i : ℕ) (slots : List A)
      → IsValid rb
      → i + n ≤ rb.size
      → ((k : ℕ) → i ≤ k → k < i + n → get_or slots (place rb k) rb.zero_value ≡ slot rb k)
      → pop_loop rb n i slots ≡ collect (slot rb) i n
  unfolding pop_loop
  pop_loop-collect zero i slots v h same = refl
  pop_loop-collect {rb} (suc n) i slots v h same = ap₂ ◌∷◌ (same i (omega arith) (omega arith)) (
      pop_loop-collect n (i + 1) (set slots (place rb i) rb.zero_value) v (omega arith) rest
      ∙ ap (λ j. collect (slot rb) j n) (let e : i + 1 ≡ suc i = omega arith in e))
    where
      rest :
          (k : ℕ)
          → i + 1 ≤ k
          → k < i + 1 + n
          → get_or (set slots (place rb i) rb.zero_value) (place rb k) rb.zero_value ≡ slot rb k
      rest k lo hi =
          get_or-set_ne slots (place rb i) (place rb k) rb.zero_value rb.zero_value
            (place_ne i k v (omega arith) (omega arith))
          ∙ same k (omega arith) (omega arith)

  pop_all-value : {rb : RingBuffer A} → IsValid rb → (pop_all rb).0 ≡ contents rb
  unfolding pop_all is_empty
  pop_all-value {rb} v = elim (Bool-cases (rb.count == 0)) [
    | inl e ↦ rw e (sym (contents-empty rb (ground arith)))
    | inr e ↦
        rw e (pop_loop-collect rb.count 0 rb.buffer v (omega (arith, v.count_in)) (λ k lo hi. refl))
  ]

  -- `PopAll` on a valid buffer returns the contents, oldest first, and leaves a valid empty buffer.
  pub pop_all_refines :
      {rb : RingBuffer A}
      → IsValid rb
      → ((pop_all rb).0 ≡ contents rb) × (contents (pop_all rb).1 ≡ []) × IsValid (pop_all rb).1
  pop_all_refines {rb} v =
      (pop_all-value v, contents-empty (pop_all rb).1 (count-pop_all rb), pop_all-IsValid v)

  get_all_loop-collect : (rb : RingBuffer A) (n i : ℕ) → get_all_loop rb n i ≡ collect (slot rb) i n
  unfolding get_all_loop
  get_all_loop-collect rb zero i = refl
  get_all_loop-collect rb (suc n) i =
      ap (λ l. slot rb i ∷ l)
        (get_all_loop-collect rb n (i + 1)
          ∙ ap (λ j. collect (slot rb) j n) (let e : i + 1 ≡ suc i = omega arith in e))

  pub get_all-contents : (rb : RingBuffer A) → get_all rb ≡ contents rb
  unfolding get_all is_empty
  get_all-contents rb = elim (Bool-cases (rb.count == 0)) [
    | inl e ↦ rw e (sym (contents-empty rb (ground arith)))
    | inr e ↦ rw e (get_all_loop-collect rb rb.count 0)
  ]
