-- ===== src/Ring.antt =====
-- engine/queue/imp/ring/ring_buffer.go: the growing ring buffer. A method returns the new buffer
-- beside its result. Go's `int` fields are natural numbers: `Ring.Inv` keeps each below the length
-- of the slice, which fits an `int`.
pub mod Inv
pub mod Contents
pub mod Grow
pub mod Refine
pub mod Batch
pub mod Calls
mod Tests
use dvactor.Base.{
  ℕ, zero, suc, ◌+◌, ◌-◌, ◌*◌, ◌%◌, Bool, true, false, List, [], ◌∷◌, ◌++◌, length, get_or, set,
  take, drop, slice, copy, replicate, ltb, ◌==◌, if◌then◌else◌, Outcome, returns, panics,
}

-- Go's signed `int`, where the sign is tested: `negsuc n` is -(n + 1).
pub data ℤ : Type 0 where
  pos : ℕ → ℤ
  negsuc : ℕ → ℤ

pub record RingBuffer {ℓ} (A : Type ℓ) : Type ℓ where
  pub buffer : List A
  pub size : ℕ
  pub head : ℕ
  pub tail : ℕ
  pub count : ℕ
  pub zero_value : A

module _ {ℓ} {A : Type ℓ} where
  pub fresh : A → ℕ → RingBuffer A
  fresh z size = record {
    buffer = replicate size z;
    size = size;
    head = 0;
    tail = 0;
    count = 0;
    zero_value = z;
  }

  -- The first argument is the zero value of the element type.
  unfoldable pub new_ring_buffer : A → ℤ → Outcome (RingBuffer A)
  unfolding fresh
  new_ring_buffer z (negsuc n) = panics
  new_ring_buffer z (pos zero) = panics
  new_ring_buffer z (pos (suc n)) = returns (fresh z (suc n))

  pub is_empty : RingBuffer A → Bool
  is_empty rb = rb.count == 0

  pub is_full : RingBuffer A → Bool
  is_full rb = rb.count == rb.size

  -- `copy(dst, front)` and `copy(dst[n:], back)` for `n` elements of `front`.
  abbrev pub copy_two : List A → List A → List A → List A
  copy_two dst front back =
      let n = length front in take n (copy dst front) ++ copy (drop n (copy dst front)) back

  -- The block that `Push` and `PushBatch` both run: twice the size, the elements moved to the front.
  pub grow : RingBuffer A → RingBuffer A
  grow rb =
      let new_size = rb.size * 2 in
      let new_buffer = replicate new_size rb.zero_value in
      record rb {
        buffer =
            if ltb rb.head rb.tail
            then copy new_buffer (slice rb.buffer rb.head rb.tail)
            else copy_two new_buffer (slice rb.buffer rb.head rb.size) (slice rb.buffer 0 rb.tail);
        size = new_size;
        head = 0;
        tail = rb.count;
      }

  -- The last three lines of `Push`, the body of the loop of `PushBatch`.
  unfoldable pub write_tail : RingBuffer A → A → RingBuffer A
  write_tail rb value = record rb {
    buffer = set rb.buffer rb.tail value;
    tail = (rb.tail + 1) % rb.size;
    count = rb.count + 1;
  }

  unfoldable pub push : RingBuffer A → A → RingBuffer A
  unfolding is_full
  push rb value = write_tail (if is_full rb then grow rb else rb) value

  -- `for rb.size-rb.count < n { ... }`, on fuel.
  pub reserve : ℕ → ℕ → RingBuffer A → RingBuffer A
  reserve zero n rb = rb
  reserve (suc fuel) n rb = elim (ltb (rb.size - rb.count) n) [
    | true ↦ reserve fuel n (grow rb)
    | false ↦ rb
  ]

  pub write_all : RingBuffer A → List A → RingBuffer A
  write_all rb [] = rb
  write_all rb (value ∷ values) = write_all (write_tail rb value) values

  -- Every growth makes one more place at least, so as many rounds as values are enough.
  pub push_batch : RingBuffer A → List A → RingBuffer A
  push_batch rb [] = rb
  push_batch rb (value ∷ values) =
      let n = length (value ∷ values) in write_all (reserve n n rb) (value ∷ values)

  unfoldable pub pop : RingBuffer A → A × Bool × RingBuffer A
  unfolding is_empty
  pop rb = if is_empty rb then (rb.zero_value, false, rb) else (
    get_or rb.buffer rb.head rb.zero_value,
    true,
    record rb {
      buffer = set rb.buffer rb.head rb.zero_value;
      head = (rb.head + 1) % rb.size;
      count = rb.count - 1;
    },
  )

  -- The rounds left, the index `i`, and the slots so far; each slot is read, then cleared.
  pub pop_loop : RingBuffer A → ℕ → ℕ → List A → List A
  pop_loop rb zero i slots = []
  pop_loop rb (suc n) i slots =
      let index = (rb.head + i) % rb.size in
      get_or slots index rb.zero_value ∷ pop_loop rb n (i + 1) (set slots index rb.zero_value)

  pub clear_loop : RingBuffer A → ℕ → ℕ → List A → List A
  clear_loop rb zero i slots = slots
  clear_loop rb (suc n) i slots =
      clear_loop rb n (i + 1) (set slots ((rb.head + i) % rb.size) rb.zero_value)

  -- The loop's result and the slots that it leaves.
  pub pop_all : RingBuffer A → List A × RingBuffer A
  unfolding is_empty
  pop_all rb = if is_empty rb then ([], rb) else (
    pop_loop rb rb.count 0 rb.buffer,
    record rb { buffer = clear_loop rb rb.count 0 rb.buffer; head = 0; tail = 0; count = 0 },
  )

  pub peek : RingBuffer A → A × Bool
  unfolding is_empty
  peek rb =
      if is_empty rb then (rb.zero_value, false) else (get_or rb.buffer rb.head rb.zero_value, true)

  pub clear : RingBuffer A → RingBuffer A
  clear rb = record rb { head = 0; tail = 0; count = 0 }

  pub get_all_loop : RingBuffer A → ℕ → ℕ → List A
  get_all_loop rb zero i = []
  get_all_loop rb (suc n) i =
      get_or rb.buffer ((rb.head + i) % rb.size) rb.zero_value ∷ get_all_loop rb n (i + 1)

  pub get_all : RingBuffer A → List A
  unfolding is_empty
  get_all rb = if is_empty rb then [] else get_all_loop rb rb.count 0
