-- ===== src/Queue/Tests.antt =====
-- Runs of the queue, and the theorems at concrete inputs.
use dvactor.Base.{ℕ, ◌≡◌, refl, false, List, [], ◌∷◌, returns, ◌>>=◌, arith}
use dvactor.Ring.{pos}
use dvactor.Queue.{new_queue, receive}
use dvactor.Queue.Channel.{
  Call, sends, batch_sends, receives, receives_batch, tries, closes, asks_len, run,
}
use dvactor.Queue.Refine.{serve_all, serve_all_refines}
use dvactor.Queue.Wait.{Shared, received_one, Reach, here, further, sleeper_has_nothing}

abbrev script : List (Call ℕ)
script =
    receives
    ∷ sends 7
    ∷ batch_sends (8 ∷ 9 ∷ [])
    ∷ receives
    ∷ asks_len
    ∷ closes
    ∷ sends 4
    ∷ receives_batch
    ∷ receives
    ∷ tries
    ∷ []

serve_all_refines_example :
    (new_queue 0 (pos 2) >>= λ q. serve_all q script)
    ≡ returns (run 0 (record { items = []; closed = false }) script)
serve_all_refines_example = serve_all_refines 0 1 script

abbrev idle : Shared ℕ
idle = record {
  queue = record {
    buffer = record {
      buffer = 0 ∷ 0 ∷ [];
      size = 2;
      head = 0;
      tail = 0;
      count = 0;
      zero_value = 0;
    };
    notified = false;
    closed = false;
    zero_value = 0;
  };
  sleeping = 0;
  woken = 0;
  signals = 0;
  broadcasts = 0;
}

abbrev asleep : Shared ℕ
asleep = record idle { sleeping = 1 }

falls_asleep : Reach idle asleep
unfolding receive
falls_asleep = further here (received_one idle)

sleeper_has_nothing_example : (asleep.queue.buffer.count ≡ 0) × (asleep.queue.closed ≡ false)
sleeper_has_nothing_example =
    sleeper_has_nothing {s = idle} {t = asleep} refl falls_asleep (omega arith) refl refl refl
