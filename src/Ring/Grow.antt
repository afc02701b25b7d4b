-- ===== src/Ring/Grow.antt =====
-- Growing the ring buffer: the copied slots hold the same elements.
use native.Mathlib.Nat.{mod-eq_of_lt}
use native.Mathlib.Decide.{dec_lt}
use dvactor.Base.{
  ℕ, ◌+◌, ◌-◌, ◌*◌, ◌≤◌, ◌<◌, ◌≡◌, ap, sym, ◌∙◌, List, length, get_or, take, drop, slice, copy,
  replicate, arith, length-replicate, length-take, length-drop, length-copy, get_or-copy_in,
  get_or-take, get_or-append_left, get_or-append_right, lt→ltb, le→ltb, length-slice, get_or-slice,
}
use dvactor.Ring.{RingBuffer, copy_two, grow}
use dvactor.Ring.Inv.{IsValid, tail_in}
use dvactor.Ring.Contents.{collect-ext, place, slot, contents, place_cases, tail_ahead, tail_behind}

module _ {ℓ} {A : Type ℓ} where
  -- `copy_two` puts the front part first and the back part behind it.
  get_or-copy_two_front :
      (dst front back : List A) (k : ℕ) (d : A)
      → length front ≤ length dst
      → k < length front
      → get_or (copy_two dst front back) k d ≡ get_or front k d
  get_or-copy_two_front dst front back k d fits h =
      get_or-append_left (take (length front) (copy dst front)) _ k d
        (omega (arith, length-take (length front) (copy dst front), length-copy dst front))
      ∙ get_or-take (length front) (copy dst front) k d h
      ∙ get_or-copy_in dst front k d h (omega arith)

  get_or-copy_two_back :
      (dst front back : List A) (k : ℕ) (d : A)
      → length front + length back ≤ length dst
      → length front ≤ k
      → k < length front + length back
      → get_or (copy_two dst front back) k d ≡ get_or back (k - length front) d
  get_or-copy_two_back dst front back k d fits lo hi =
      get_or-append_right (take (length front) (copy dst front)) _ k d (omega (arith, n))
      ∙ ap (λ j. get_or (copy (drop (length front) (copy dst front)) back) (k - j) d) n
      ∙ get_or-copy_in (drop (length front) (copy dst front)) back (k - length front) d
          (omega arith)
          (omega (arith, length-drop (length front) (copy dst front), length-copy dst front))
    where
      n : length (take (length front) (copy dst front)) ≡ length front
      n = omega (arith, length-take (length front) (copy dst front), length-copy dst front)

  -- The `k`-th slot after growing, by the three ways that it is copied.
  grown_ahead :
      {rb : RingBuffer A} (k : ℕ)
      → IsValid rb
      → k < rb.count
      → rb.head < rb.tail
      → get_or (grow rb).buffer k rb.zero_value ≡ slot rb k
  unfolding grow
  grown_ahead {rb} k v h t = rw (lt→ltb rb.head rb.tail t) (
      get_or-copy_in (replicate (rb.size * 2) rb.zero_value) (slice rb.buffer rb.head rb.tail) k
        rb.zero_value (omega (arith, ahead, n))
        (omega (arith, ahead, tail_in v, length-replicate (rb.size * 2) rb.zero_value))
      ∙ get_or-slice rb.buffer rb.head rb.tail k rb.zero_value (omega (arith, ahead))
      ∙ ap (λ j. get_or rb.buffer j rb.zero_value) at)
    where
      ahead : rb.tail ≡ rb.head + rb.count
      ahead = tail_ahead v t

      n : length (slice rb.buffer rb.head rb.tail) ≡ rb.tail - rb.head
      n = length-slice rb.buffer rb.head rb.tail (omega (arith, tail_in v, v.storage))

      at : rb.head + k ≡ place rb k
      at = sym (mod-eq_of_lt (omega (arith, ahead, tail_in v)))

  grown_front :
      {rb : RingBuffer A} (k : ℕ)
      → IsValid rb
      → rb.tail ≤ rb.head
      → rb.head + k < rb.size
      → get_or (grow rb).buffer k rb.zero_value ≡ slot rb k
  unfolding grow
  grown_front {rb} k v t h = rw (le→ltb rb.head rb.tail t) (
      get_or-copy_two_front blank front (slice rb.buffer 0 rb.tail) k rb.zero_value
        (omega (arith, n, length-replicate (rb.size * 2) rb.zero_value)) (omega (arith, n))
      ∙ get_or-slice rb.buffer rb.head rb.size k rb.zero_value (omega arith)
      ∙ ap (λ j. get_or rb.buffer j rb.zero_value) (sym (mod-eq_of_lt h)))
    where
      blank : List A
      blank = replicate (rb.size * 2) rb.zero_value

      front : List A
      front = slice rb.buffer rb.head rb.size

      n : length front ≡ rb.size - rb.head
      n = length-slice rb.buffer rb.head rb.size (omega (arith, v.storage))

  grown_back :
      {rb : RingBuffer A} (k : ℕ)
      → IsValid rb
      → k < rb.count
      → rb.tail ≤ rb.head
      → rb.size ≤ rb.head + k
      → get_or (grow rb).buffer k rb.zero_value ≡ slot rb k
  unfolding grow
  grown_back {rb} k v c t h = rw (le→ltb rb.head rb.tail t) (
      get_or-copy_two_back blank front back k rb.zero_value
        (omega (arith, n, m, tail_in v, length-replicate (rb.size * 2) rb.zero_value))
        (omega (arith, n)) (omega (arith, n, m, v.head_in, tail_behind v t (omega arith)))
      ∙ get_or-slice rb.buffer 0 rb.tail (k - length front) rb.zero_value
          (omega (arith, n, v.head_in, tail_behind v t (omega arith)))
      ∙ ap (λ j. get_or rb.buffer j rb.zero_value) at)
    where
      blank : List A
      blank = replicate (rb.size * 2) rb.zero_value

      front : List A
      front = slice rb.buffer rb.head rb.size

      back : List A
      back = slice rb.buffer 0 rb.tail

      n : length front ≡ rb.size - rb.head
      n = length-slice rb.buffer rb.head rb.size (omega (arith, v.storage))

      m : length back ≡ rb.tail - 0
      m = length-slice rb.buffer 0 rb.tail (omega (arith, tail_in v, v.storage))

      at : 0 + (k - length front) ≡ place rb k
      at = omega (arith, n, v.head_in, place_cases k v (omega (arith, v.count_in)))

  slot-grow : {rb : RingBuffer A} (k : ℕ) → IsValid rb → k < rb.count → slot (grow rb) k ≡ slot rb k
  unfolding grow
  slot-grow {rb} k v h =
      ap (λ j. get_or (grow rb).buffer j rb.zero_value) first ∙ elim (dec_lt rb.head rb.tail) [
        | yes t ↦ grown_ahead k v h t
        | no t ↦ elim (dec_lt (rb.head + k) rb.size) [
          | yes p ↦ grown_front k v (omega arith) p
          | no p ↦ grown_back k v h (omega arith) (omega arith)
        ]
      ]
    where
      first : place (grow rb) k ≡ k
      first =
          mod-eq_of_lt {n = 0 + k} (omega (arith, v.count_in))
          ∙ (let e : 0 + k ≡ k = omega arith in e)

  -- Growing moves the elements and keeps them.
  pub contents-grow : {rb : RingBuffer A} → IsValid rb → contents (grow rb) ≡ contents rb
  unfolding grow
  contents-grow {rb} v =
      collect-ext (slot (grow rb)) (slot rb) 0 rb.count (λ k lo hi. slot-grow k v (omega arith))
