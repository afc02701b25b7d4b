-- ===== src/Conn.antt =====
-- engine/net/connect/socket/conn.go: a connection, with its queue of data to send, the goroutine
-- that reads and the goroutine that writes. Any goroutine may take any step at any time, and any
-- goroutine of the program may call `SendData` and `Disconnect`.
pub mod Sound
pub mod Silence
pub mod Deliver
pub mod Flush
pub mod Broken
pub mod Samples
mod Tests
use dvactor.Base.{
  ℕ, ◌+◌, ◌≡◌, ◌≢◌, Bool, true, false, Option, none, some, List, [], ◌∷◌, ◌++◌, Outcome, returns,
  ◌>>=◌,
}
use dvactor.Ring.{pos}
use dvactor.Packet.{Bytes}
use dvactor.Queue.{Queue, new_queue, close, is_close, enqueue, dequeue, Error}

-- Where `receiverRun` stands.
pub data Receiver : Type 0 where
  reading : Receiver  -- before `Read`
  handling : Receiver  -- in `onDataFunc`
  failed : Receiver  -- after an error, before `IsClose`
  closing : Receiver  -- before `Disconnect`
  telling : Receiver  -- before `onDisconnectFunc`
  finished : Receiver

-- Where `senderRun` stands: before `Dequeue`, with bytes left to write, or returned. What a write
-- error leaves unwritten is kept for the record.
pub data Sender : Type 0 where
  taking : Sender
  writing : Bytes → Sender
  ended : Bytes → Sender

-- `ConnSocket`. The last four fields are for the record: the data that `SendData` accepted, the
-- bytes that the socket took, what was handed to `onDataFunc`, and the calls of `onDisconnectFunc`.
pub record Conn : Type 0 where
  pub queue : Queue Bytes
  pub receiver : Receiver
  pub sender : Sender
  pub shut : Bool
  pub accepted : List Bytes
  pub written : Bytes
  pub received : List Bytes
  pub told : ℕ

-- `newConn`, and the two goroutines started.
unfoldable pub new_conn : Outcome Conn
new_conn = do
  queue ← new_queue [] (pos 32)
  returns (record {
    queue = queue;
    receiver = reading;
    sender = taking;
    shut = false;
    accepted = [];
    written = [];
    received = [];
    told = 0;
  })

abbrev pub note : Option Error → Bytes → List Bytes → List Bytes
note none bytes sent = sent ++ (bytes ∷ [])
note (some error) bytes sent = sent

unfoldable pub send_data : Conn → Bytes → Option Error × Conn
send_data c bytes =
    let (error, _, queue) = enqueue c.queue bytes in
    (error, record c { queue = queue; accepted = note error bytes c.accepted })

unfoldable pub disconnect : Conn → Outcome Conn
disconnect c = close c.queue >>= λ r. returns (record c { queue = r.1 })

-- `senderRun` after `Dequeue`: with `false` it closes the socket and returns.
unfoldable pub dequeued : Conn → Bytes × Bool × Queue Bytes → Conn
dequeued c (bytes, false, queue) = record c { queue = queue; sender = ended []; shut = true }
dequeued c (bytes, true, queue) = record c { queue = queue; sender = writing bytes }

-- `receiverRun` after an error: it returns on a closed queue, and closes it otherwise.
unfoldable pub checked : Conn → Bool → Conn
checked c true = record c { receiver = finished }
checked c false = record c { receiver = closing }

pub data Step (c : Conn) : Conn → Type 0 where
  sent : (bytes : Bytes) → Step c (send_data c bytes).1
  disconnected : {d : Conn} → disconnect c ≡ returns d → Step c d
  took :
      {r : Bytes × Bool × Queue Bytes}
      → c.sender ≡ taking
      → dequeue c.queue ≡ some r
      → Step c (dequeued c r)
  -- `Write` takes the first bytes of the message; without an error the loop goes on with the rest.
  wrote :
      (a b : Bytes)
      → c.sender ≡ writing (a ++ b)
      → a ≢ []
      → Step c (record c { sender = writing b; written = c.written ++ a })
  write_failed :
      (a b : Bytes)
      → c.sender ≡ writing (a ++ b)
      → Step c (record c { sender = ended b; written = c.written ++ a })
  wrote_all : c.sender ≡ writing [] → Step c (record c { sender = taking })
  read :
      (bytes : Bytes)
      → c.receiver ≡ reading
      → Step c (record c { receiver = handling; received = c.received ++ (bytes ∷ []) })
  read_failed : c.receiver ≡ reading → Step c (record c { receiver = failed })
  handled : c.receiver ≡ handling → Step c (record c { receiver = reading })
  handle_failed : c.receiver ≡ handling → Step c (record c { receiver = failed })
  looked : c.receiver ≡ failed → Step c (checked c (is_close c.queue))
  closed :
      {d : Conn}
      → c.receiver ≡ closing
      → disconnect c ≡ returns d
      → Step c (record d { receiver = telling })
  tells : c.receiver ≡ telling → Step c (record c { receiver = finished; told = c.told + 1 })

pub data Reach (c : Conn) : Conn → Type 0 where
  here : Reach c c
  further : {d e : Conn} → Reach c d → Step d e → Reach c e
