-- ===== src/Ring/Inv.antt =====
-- The representation invariant of the ring buffer: every index lies in the slice.
use dvactor.Base.{
  ℕ, zero, suc, ◌+◌, ◌-◌, ◌*◌, ◌%◌, ◌≤◌, ◌<◌, ◌≡◌, refl, List, [], ◌∷◌, length, set, take, drop,
  slice, copy, replicate, arith, length-set, length-append, length-take, length-drop, length-copy,
  length-replicate, ap, ◌∙◌, inl, inr, Bool-cases, ltb, returns, ◌==◌,
}
use native.Mathlib.Nat.{mod-eq_of_lt, mod-add-mod, mod-lt}
use dvactor.Ring.{
  pos, RingBuffer, fresh, new_ring_buffer, is_empty, is_full, copy_two, grow, write_tail, push,
  reserve, write_all, push_batch, pop, pop_all, clear_loop,
}

pub record IsValid {ℓ} {A : Type ℓ} (rb : RingBuffer A) : Type 0 where
  pub storage : length rb.buffer ≡ rb.size
  pub positive : 0 < rb.size
  pub head_in : rb.head < rb.size
  pub count_in : rb.count ≤ rb.size
  pub tail_at : rb.tail ≡ (rb.head + rb.count) % rb.size

module _ {ℓ} {A : Type ℓ} where
  pub tail_in : {rb : RingBuffer A} → IsValid rb → rb.tail < rb.size
  tail_in {rb} v = rw (v.tail_at) (mod-lt (rb.head + rb.count) v.positive)

  pub fresh-IsValid : (z : A) (n : ℕ) → 0 < n → IsValid (fresh z n)
  unfolding fresh
  fresh-IsValid z n h = omega (arith, length-replicate n z, mod-eq_of_lt {n = 0} {m = n} h)

  -- `NewRingBuffer` makes a valid empty buffer of every positive size.
  pub new_ring_buffer-IsValid :
      (z : A) (n : ℕ)
      → (rb : RingBuffer A) × (new_ring_buffer z (pos (suc n)) ≡ returns rb)
        × IsValid rb
        × (rb.count ≡ 0)
  unfolding new_ring_buffer
  new_ring_buffer-IsValid z n = (fresh z (suc n), refl, fresh-IsValid z (suc n) (omega arith), refl)

  pub length-copy_two : (dst front back : List A) → length (copy_two dst front back) ≡ length dst
  length-copy_two dst front back = omega (
    arith,
    length-append (take (length front) (copy dst front))
        (copy (drop (length front) (copy dst front)) back),
    length-take (length front) (copy dst front),
    length-drop (length front) (copy dst front),
    length-copy (drop (length front) (copy dst front)) back,
    length-copy dst front,
  )

  pub length-grow : (rb : RingBuffer A) → length (grow rb).buffer ≡ rb.size * 2
  unfolding grow
  length-grow rb = elim (Bool-cases (ltb rb.head rb.tail)) [
    | inl e ↦ rw e (length-copy blank (slice rb.buffer rb.head rb.tail) ∙ length-replicate _ _)
    | inr e ↦ rw e (
        length-copy_two blank (slice rb.buffer rb.head rb.size) (slice rb.buffer 0 rb.tail)
        ∙ length-replicate _ _)
  ]
    where
      blank : List A
      blank = replicate (rb.size * 2) rb.zero_value

  pub grow-IsValid : {rb : RingBuffer A} → IsValid rb → IsValid (grow rb)
  unfolding grow
  grow-IsValid {rb} v = record {
    storage = length-grow rb;
    positive = omega arith;
    head_in = omega arith;
    count_in = omega arith;
    tail_at =
        let at : rb.count ≡ (0 + rb.count) % (rb.size * 2) =
          omega (arith, mod-eq_of_lt {n = 0 + rb.count} {m = rb.size * 2} (omega arith)) in
        at;
  }

  pub write_tail-IsValid :
      {rb : RingBuffer A} (x : A) → IsValid rb → rb.count < rb.size → IsValid (write_tail rb x)
  unfolding write_tail
  write_tail-IsValid {rb} x v h = record {
    storage = length-set rb.buffer rb.tail x ∙ v.storage;
    positive = v.positive;
    head_in = v.head_in;
    count_in = omega arith;
    tail_at = rw (v.tail_at, mod-add-mod) (ap (λ k. k % rb.size) (omega arith));
  }

  pub pop-IsValid : {rb : RingBuffer A} → IsValid rb → IsValid (pop rb).2
  unfolding pop is_empty
  pop-IsValid {rb} v = elim (Bool-cases (rb.count == 0)) [
    | inl e ↦ rw e v
    | inr e ↦ rw e (record {
      storage = length-set rb.buffer rb.head rb.zero_value ∙ v.storage;
      positive = v.positive;
      head_in = mod-lt (rb.head + 1) (v.positive);
      count_in = omega (arith, v.count_in);
      tail_at =
          v.tail_at
          ∙ rw mod-add-mod
              (ap (λ k. k % rb.size) (let c : 0 < rb.count = ground arith in omega arith));
    })
  ]

  pub length-clear_loop :
      (rb : RingBuffer A) (n i : ℕ) (slots : List A)
      → length (clear_loop rb n i slots) ≡ length slots
  unfolding clear_loop
  length-clear_loop rb zero i slots = refl
  length-clear_loop rb (suc n) i slots =
      length-clear_loop rb n (i + 1) (set slots ((rb.head + i) % rb.size) rb.zero_value)
      ∙ length-set slots ((rb.head + i) % rb.size) rb.zero_value

  pub pop_all-IsValid : {rb : RingBuffer A} → IsValid rb → IsValid (pop_all rb).1
  unfolding pop_all is_empty
  pop_all-IsValid {rb} v = elim (Bool-cases (rb.count == 0)) [
    | inl e ↦ rw e v
    | inr e ↦ rw e (record {
      storage = length-clear_loop rb rb.count 0 rb.buffer ∙ v.storage;
      positive = v.positive;
      head_in = v.positive;
      count_in = omega arith;
      tail_at = omega (arith, mod-eq_of_lt {n = 0} {m = rb.size} v.positive);
    })
  ]

  -- How many elements each operation leaves.
  pub count-push : (rb : RingBuffer A) (x : A) → (push rb x).count ≡ rb.count + 1
  unfolding push is_full write_tail grow
  count-push rb x = ground arith

  count-reserve : (fuel n : ℕ) (rb : RingBuffer A) → (reserve fuel n rb).count ≡ rb.count
  unfolding reserve grow
  count-reserve zero n rb = refl
  count-reserve (suc fuel) n rb = elim (Bool-cases (ltb (rb.size - rb.count) n)) [
    | inl e ↦ rw (e, reserve) (count-reserve fuel n (grow rb))
    | inr e ↦ rw (e, reserve)
  ]

  count-write_all :
      (rb : RingBuffer A) (xs : List A) → (write_all rb xs).count ≡ rb.count + length xs
  unfolding write_all write_tail
  count-write_all rb [] = omega arith
  count-write_all rb (x ∷ xs) = omega (arith, count-write_all (write_tail rb x) xs)

  pub count-push_batch :
      (rb : RingBuffer A) (xs : List A) → (push_batch rb xs).count ≡ rb.count + length xs
  unfolding push_batch
  count-push_batch rb [] = omega arith
  count-push_batch rb (x ∷ xs) =
      let n = length (x ∷ xs) in
      count-write_all (reserve n n rb) (x ∷ xs) ∙ ap (λ c. c + n) (count-reserve n n rb)

  pub count-pop : (rb : RingBuffer A) → (pop rb).2.count ≡ rb.count - 1
  unfolding pop is_empty
  count-pop rb = ground arith

  pub count-pop_all : (rb : RingBuffer A) → (pop_all rb).1.count ≡ 0
  unfolding pop_all is_empty
  count-pop_all rb = ground arith
