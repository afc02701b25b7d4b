-- ===== src/Packet/Prefix.antt =====
-- Reading the first part of a stream of packed messages.
use mathlib.Core.List.{flatten}
use dvactor.Base.{
  ◌<◌, ◌^◌, ◌≡◌, refl, ap, sym, ◌∙◌, List, [], ◌∷◌, ◌++◌, length, append-nil, append_assoc,
}
use dvactor.Packet.{
  Bytes, Frame, Stop, waiting, crashed, out_of_fuel, Drained, read_into, on_data, deliver,
  connected, receive,
}
use dvactor.Packet.Stream.{Packed, receive-Packed}

pub flatten-snoc : (xs : List Bytes) (x : Bytes) → flatten (xs ++ (x ∷ [])) ≡ flatten xs ++ x
unfolding flatten
flatten-snoc [] x = append-nil x
flatten-snoc (y ∷ xs) x = rw (flatten-snoc xs x) (sym (append_assoc y (flatten xs) x))

pub receive-snoc :
    (d : Drained) (chunks : List Bytes) (more : Bytes)
    → receive d (chunks ++ (more ∷ []))
      ≡ read_into (receive d chunks).frames (receive d chunks).stop more
unfolding receive
receive-snoc d [] more = refl
receive-snoc d (chunk ∷ chunks) more = receive-snoc (read_into d.frames d.stop chunk) chunks more

-- The loop waits after `d`, and has handed over the first of the messages `fs`.
pub record Begins (fs : List Frame) (d : Drained) : Type 0 where
  pub left : List Frame
  pub rest : Bytes
  pub first : fs ≡ d.frames ++ left
  pub waits : d.stop ≡ waiting rest

read_into-Begins :
    (got : List Frame) (stop : Stop) (more : Bytes) {fs : List Frame}
    → read_into got stop more ≡ record { frames = fs; stop = waiting [] }
    → Begins fs (record { frames = got; stop = stop })
unfolding read_into
read_into-Begins got (waiting rest) more e = record {
  left = (on_data rest more).frames;
  rest = rest;
  first = sym (ap (λ (d : Drained). d.frames) e);
  waits = refl;
}
read_into-Begins got crashed more e = cc (ap (λ (d : Drained). d.stop) e)
read_into-Begins got out_of_fuel more e = cc (ap (λ (d : Drained). d.stop) e)

-- Of a stream of packed messages, shorter than 2^32 bytes, only the first part has come: then the
-- loop has handed over the first of the messages, in order, and waits.
pub receive-Begins :
    {fs : List Frame} {pkts : List Bytes} (chunks : List Bytes) (more : Bytes)
    → Packed fs pkts
    → flatten chunks ++ more ≡ flatten pkts
    → length (flatten pkts) < 2 ^ 32
    → Begins fs (receive connected chunks)
receive-Begins chunks more p e h =
    let whole = flatten-snoc chunks more ∙ e in
    read_into-Begins (receive connected chunks).frames (receive connected chunks).stop more (
      sym (receive-snoc connected chunks more)
      ∙ receive-Packed (chunks ++ (more ∷ [])) p whole (rw whole h))

pub receive_next :
    (fs : List Frame) (rest chunk : Bytes) (chunks : List Bytes)
    → receive (record { frames = fs; stop = waiting rest }) (chunk ∷ chunks)
      ≡ receive (deliver fs (on_data rest chunk)) chunks
unfolding receive read_into
receive_next fs rest chunk chunks = refl

pub receive_nothing : (d : Drained) → receive d [] ≡ d
unfolding receive
receive_nothing d = refl
