-- ===== src/Packet.antt =====
-- engine/net/connect/packet.go: the frames of the wire protocol, and the loop of client.go and
-- server.go that cuts the received bytes into frames.
pub mod Header
pub mod Cut
pub mod Stream
pub mod Prefix
mod Tests
use dvactor.Base.{
  ℕ, zero, suc, ◌+◌, ◌*◌, ◌/◌, ◌%◌, ◌^◌, Option, none, some, List, [], ◌∷◌, ◌++◌, length, get_or,
  drop, slice, ltb, leb, if◌then◌else◌, Outcome, returns, panics,
}

abbrev pub Bytes : Type 0
Bytes = List ℕ

-- A message id and its payload.
abbrev pub Frame : Type 0
Frame = ℕ × Bytes

abbrev pub packet_header_size : ℕ
packet_header_size = 5

abbrev pub max_msg_id : ℕ
max_msg_id = 0xff

-- `uint32` arithmetic.
abbrev pub u32 : ℕ → ℕ
u32 x = x % 2 ^ 32

-- `binary.BigEndian.PutUint32` and `Uint32`
abbrev pub put_uint32 : ℕ → Bytes
put_uint32 v = (v / 2 ^ 24 % 256) ∷ (v / 2 ^ 16 % 256) ∷ (v / 2 ^ 8 % 256) ∷ (v % 256) ∷ []

abbrev pub uint32 : Bytes → ℕ
uint32 b = get_or b 0 0 * 2 ^ 24 + get_or b 1 0 * 2 ^ 16 + get_or b 2 0 * 2 ^ 8 + get_or b 3 0

-- `none` is the error for an id that does not fit one byte.
unfoldable pub pack_message : ℕ → Bytes → Option Bytes
pack_message msg_id bytes =
    if ltb max_msg_id msg_id
    then none
    else some (put_uint32 (u32 (length bytes)) ++ ((msg_id % 256) ∷ bytes))

-- `PacketSplitter` holds the bytes not yet cut.
unfoldable pub append : Bytes → Bytes → Bytes
append buf bytes = buf ++ bytes

-- The frame, if one is complete, and the bytes left. `p.buf[5:msgLen]` panics if `msgLen < 5`.
unfoldable pub next : Bytes → Outcome (Option Frame × Bytes)
next buf =
    let l = u32 (length buf) in
    let msg_len = u32 (uint32 buf + packet_header_size) in
    if ltb l packet_header_size
    then returns (none, buf)
    else if ltb l msg_len
    then returns (none, buf)
    else if leb packet_header_size msg_len
    then returns (some (get_or buf 4 0, slice buf packet_header_size msg_len), drop msg_len buf)
    else panics

-- How the receiving loop stops: it waits for more bytes, or `next` panicked. Fuel is the model's.
pub data Stop : Type 0 where
  waiting : Bytes → Stop
  crashed : Stop
  out_of_fuel : Stop

-- The frames handed to `onMessage`, in order, and how the loop stopped.
pub record Drained : Type 0 where
  pub frames : List Frame
  pub stop : Stop

abbrev pub deliver : List Frame → Drained → Drained
deliver fs d = record { frames = fs ++ d.frames; stop = d.stop }

-- `for { ... splitter.Next() ... }`; the error of `onMessage` is dropped.
unfoldable pub drain : ℕ → Bytes → Drained
drain zero buf = record { frames = []; stop = out_of_fuel }
drain (suc fuel) buf = elim (next buf) [
  | panics ↦ record { frames = []; stop = crashed }
  | returns (none, rest) ↦ record { frames = []; stop = waiting rest }
  | returns (some f, rest) ↦ deliver (f ∷ []) (drain fuel rest)
]

-- Each round takes five bytes at least.
unfoldable pub cut : Bytes → Drained
cut buf = drain (suc (length buf)) buf

-- The callback on received bytes: append them, then cut what is complete.
unfoldable pub on_data : Bytes → Bytes → Drained
on_data buf bytes = cut (append buf bytes)

unfoldable pub read_into : List Frame → Stop → Bytes → Drained
read_into fs (waiting rest) chunk = deliver fs (on_data rest chunk)
read_into fs crashed chunk = record { frames = fs; stop = crashed }
read_into fs out_of_fuel chunk = record { frames = fs; stop = out_of_fuel }

-- A connection starts with an empty buffer.
abbrev pub connected : Drained
connected = record { frames = []; stop = waiting [] }

-- The reads of one connection in order; after a panic nothing more is received.
pub receive : Drained → List Bytes → Drained
receive d [] = d
receive d (chunk ∷ chunks) = receive (read_into d.frames d.stop chunk) chunks
