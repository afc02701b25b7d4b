-- ===== src/Conn/Samples.antt =====
-- A connection at work: a frame is sent, the connection is closed from this side, and the sender
-- writes the frame in two parts.
use dvactor.Base.{◌≡◌, refl, true, false, [], ◌∷◌, replicate, returns}
use dvactor.Packet.{Bytes}
use dvactor.Ring.{new_ring_buffer}
use dvactor.Queue.{Queue, new_queue}
use dvactor.Conn.{Conn, reading, taking, writing, new_conn}

abbrev pub hi_frame : Bytes
hi_frame = 0 ∷ 0 ∷ 0 ∷ 2 ∷ 1 ∷ b'h' ∷ b'i' ∷ []

abbrev pub empty_slots : Queue Bytes
empty_slots = record {
  buffer = record {
    buffer = replicate 32 [];
    size = 32;
    head = 0;
    tail = 0;
    count = 0;
    zero_value = [];
  };
  notified = false;
  closed = false;
  zero_value = [];
}

abbrev pub start : Conn
start = record {
  queue = empty_slots;
  receiver = reading;
  sender = taking;
  shut = false;
  accepted = [];
  written = [];
  received = [];
  told = 0;
}

pub starts : new_conn ≡ returns start
unfolding new_conn new_queue new_ring_buffer
starts = refl

-- One frame is in the queue, and the queue is closed.
abbrev pub hung_up : Conn
hung_up = record start {
  queue = record {
    buffer = record {
      buffer = hi_frame ∷ replicate 31 [];
      size = 32;
      head = 0;
      tail = 1;
      count = 1;
      zero_value = [];
    };
    notified = true;
    closed = true;
    zero_value = [];
  };
  accepted = hi_frame ∷ [];
}

-- Three bytes of it are written.
abbrev pub half_written : Conn
half_written = record start {
  queue = record {
    buffer = record {
      buffer = replicate 32 [];
      size = 32;
      head = 1;
      tail = 1;
      count = 0;
      zero_value = [];
    };
    notified = true;
    closed = true;
    zero_value = [];
  };
  accepted = hi_frame ∷ [];
  sender = writing (2 ∷ 1 ∷ b'h' ∷ b'i' ∷ []);
  written = 0 ∷ 0 ∷ 0 ∷ [];
}
