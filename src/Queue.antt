-- ===== src/Queue.antt =====
-- engine/queue/imp/ring/queue.go, ringImp.go and engine/queue/queue.go: a closable unbounded queue
-- over the ring buffer. Each method runs under the queue's mutex, so it is one step on the state;
-- a `Receive` that waits on the condition variable leaves the state as it is.
pub mod Channel
pub mod Refine
pub mod Wait
pub mod Laws
mod Tests
use dvactor.Base.{
  ℕ, Bool, true, false, not, ◌&&◌, Option, none, some, List, [], length, ltb, ◌==◌, if◌then◌else◌,
  Outcome, returns, panics, ◌>>=◌,
}
use dvactor.Ring.{ℤ, RingBuffer, new_ring_buffer}
use dvactor.Ring

-- `notified` says that `notifyClose` is closed.
pub record Queue {ℓ} (A : Type ℓ) : Type ℓ where
  pub buffer : RingBuffer A
  pub notified : Bool
  pub closed : Bool
  pub zero_value : A

-- The call on the condition variable that follows a critical section.
pub data Wake : Type 0 where
  nobody signal broadcast : Wake

-- Which wake-up `BatchSend` makes for `l` values.
abbrev pub wake_for : ℕ → Wake
wake_for l = if ltb 1 l then broadcast else if ltb 0 l then signal else nobody

module _ {ℓ} {A : Type ℓ} where
  unfoldable pub new_queue : A → ℤ → Outcome (Queue A)
  new_queue z base_buffer_count = do
    buffer ← new_ring_buffer z base_buffer_count
    returns (record { buffer = buffer; notified = false; closed = false; zero_value = z })

  unfoldable pub send : Queue A → A → Bool × Wake × Queue A
  send ch value =
      if ch.closed
      then (false, nobody, ch)
      else (true, signal, record ch { buffer = Ring.push ch.buffer value })

  pub batch_send : Queue A → List A → Bool × Wake × Queue A
  batch_send ch values =
      if ch.closed
      then (false, nobody, ch)
      else (true, wake_for (length values), record ch { buffer = Ring.push_batch ch.buffer values })

  -- The test of the waiting loop.
  abbrev pub must_wait : Queue A → Bool
  must_wait ch = ch.buffer.count == 0 && not ch.closed

  -- `none` where the loop goes to `Wait`.
  unfoldable pub receive : Queue A → Option (A × Bool × Queue A)
  receive ch =
      if must_wait ch
      then none
      else if ch.buffer.count == 0 && ch.closed
      then some (ch.zero_value, false, ch)
      else let (value, _, rest) = Ring.pop ch.buffer in
        some (value, true, record ch { buffer = rest })

  pub receive_batch : Queue A → Option (List A × Bool × Queue A)
  receive_batch ch =
      if must_wait ch
      then none
      else if ch.buffer.count == 0 && ch.closed
      then some ([], false, ch)
      else let (result, rest) = Ring.pop_all ch.buffer in
        some (result, true, record ch { buffer = rest })

  pub try_receive : Queue A → A × Bool × Queue A
  try_receive ch =
      if ch.buffer.count == 0
      then (ch.zero_value, false, ch)
      else let (value, _, rest) = Ring.pop ch.buffer in (value, true, record ch { buffer = rest })

  pub try_receive_batch : Queue A → List A × Bool × Queue A
  try_receive_batch ch =
      if ch.buffer.count == 0
      then (if ch.closed then ([], false, ch) else ([], true, ch))
      else let (result, rest) = Ring.pop_all ch.buffer in
        (result, true, record ch { buffer = rest })

  -- `close(ch.notifyClose)` panics on a closed channel.
  close_channel : Queue A → Outcome (Queue A)
  close_channel ch = if ch.notified then panics else returns (record ch { notified = true })

  unfoldable pub close : Queue A → Outcome (Wake × Queue A)
  unfolding close_channel
  close ch =
      if ch.closed
      then returns (nobody, ch)
      else (close_channel (record ch { closed = true }) >>= λ c. returns (broadcast, c))

  pub len : Queue A → ℕ
  len ch = ch.buffer.count

  pub is_closed : Queue A → Bool
  is_closed ch = ch.closed

-- `QQueue` puts an error in place of `false`.
pub data Error : Type 0 where
  closed_error : Error

module _ {ℓ} {A : Type ℓ} where
  unfoldable pub enqueue : Queue A → A → Option Error × Wake × Queue A
  unfolding send
  enqueue q value =
      let (sent, wake, q') = send q value in (if sent then none else some closed_error, wake, q')

  unfoldable pub dequeue : Queue A → Option (A × Bool × Queue A)
  unfolding receive
  dequeue q = receive q

  unfoldable pub is_close : Queue A → Bool
  unfolding is_closed
  is_close q = is_closed q
