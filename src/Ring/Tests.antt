-- ===== src/Ring/Tests.antt =====
-- Runs of the ring buffer, and the theorems at concrete inputs.
use dvactor.Base.{ℕ, ◌≡◌, refl, true, false, List, [], ◌∷◌, returns}
use dvactor.Ring.{RingBuffer, pos, new_ring_buffer, push, grow, write_tail}
use dvactor.Ring.Refine.{dequeue}
use dvactor.Ring.Calls.{
  Call, pushes, pushes_batch, pops, peeks, gets_all, asks_count, clears, Reply, done, value, values,
  number, serve_all, call_all, call, new_ring_buffer_refines,
}

-- 7, 8 and 9 round the end of three full slots.
abbrev wrapped : RingBuffer ℕ
wrapped = record {
  buffer = 8 ∷ 9 ∷ 7 ∷ [];
  size = 3;
  head = 2;
  tail = 2;
  count = 3;
  zero_value = 0;
}

push_grows : (push wrapped 4).buffer ≡ 7 ∷ 8 ∷ 9 ∷ 4 ∷ 0 ∷ 0 ∷ []
unfolding push write_tail grow
push_grows = refl

-- Pushing past the size, looking, taking, dropping.
abbrev calls : List (Call ℕ)
calls =
    pushes 7
    ∷ pushes_batch (8 ∷ 9 ∷ 4 ∷ [])
    ∷ peeks
    ∷ pops
    ∷ gets_all
    ∷ clears
    ∷ pops
    ∷ asks_count
    ∷ []

abbrev replies : List (Reply ℕ)
replies =
    done
    ∷ done
    ∷ value 7 true
    ∷ value 7 true
    ∷ values (8 ∷ 9 ∷ 4 ∷ [])
    ∷ done
    ∷ value 0 false
    ∷ number 0
    ∷ []

new_ring_buffer_refines_example :
    (rb : RingBuffer ℕ) × (new_ring_buffer 0 (pos 2) ≡ returns rb) × (serve_all rb calls ≡ replies)
unfolding call_all call dequeue
new_ring_buffer_refines_example = new_ring_buffer_refines 0 1 calls
