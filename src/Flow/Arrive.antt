-- ===== src/Flow/Arrive.antt =====
-- Envelopes that `Send` reports as sent arrive.
use mathlib.Core.List.{flatten, map}
use dvactor.Base.{ℕ, ◌^◌, ◌<◌, ◌≡◌, sym, ap, ◌∙◌, true, List, ◌++◌, All, length, Outcome, returns}
use dvactor.Packet.{Bytes, Drained, waiting, connected, receive}
use dvactor.Vactor.{Vactor, Envelope, Protobuf}
use dvactor.System.{System}
use dvactor.System.Registry.{IsConsistent}
use dvactor.Conn.{Conn, new_conn}
use dvactor.Net.Talk.{sent_messages_arrive}
use dvactor.Errors.{ok}
use dvactor.Wire.{Pkg}
use dvactor.Wire.Encode.{to_pkg}
use dvactor.Wire.RoundTrip.{EnvelopeFits}
use dvactor.Wire.Link.{Codec, IsFull, Handled}
use dvactor.Flow.{Flow, handled}
use dvactor.Flow.Carry.{arrives, Flow-Carried, handled-append}

module _ (v : Vactor) (pb : Protobuf) (co : Codec) (s r : System v pb)
    (agree : IsConsistent v pb s r) where
  open pb use {P}

  -- From `Send` to the other system: on a new connection over which envelopes and registrations go,
  -- fewer than 2^32 bytes in all, whose envelopes have ids that fit, responses with no error or one
  -- whose code fits and is not the success code, and packages with no nil element in a list, if the
  -- peer, with an agreeing registry, has read what the socket took, in reads of any sizes, then its
  -- loop waits for more, and `OnMessage` has routed the first of the envelopes that `Send` reported
  -- as sent, in order, each as it was sent (a batch without the messages that cannot be wrapped); and
  -- all of them once the sender has closed the socket.
  pub envelopes_arrive :
      (link : ℕ) {c d : Conn} (es : List (Envelope P)) (chunks : List Bytes)
      → new_conn ≡ returns c
      → Flow v pb co s link c es d
      → All (EnvelopeFits v pb s r agree) es
      → All (λ e. (p : Pkg) → to_pkg v pb s e ≡ ok p → IsFull p) es
      → length (flatten d.accepted) < 2 ^ 32
      → flatten chunks ≡ d.written
      → ((rest : Bytes) × ((receive connected chunks).stop ≡ waiting rest))
        × ((left : List (Outcome (Handled v pb co r))) × (handled v pb co r
                  (receive connected chunks).frames
                ++ left
              ≡ map (arrives v pb co s r agree) es))
        × (d.shut ≡ true
            → handled v pb co r (receive connected chunks).frames
              ≡ map (arrives v pb co s r agree) es)
  envelopes_arrive link {c} es chunks n f fits full h k =
      let (fs, t, carried) = Flow-Carried v pb co s r agree link c es f fits full in
      let (b, whole) = sent_messages_arrive chunks n t h k in
      let got = (receive connected chunks).frames in
      (
        (b.rest, b.waits),
        (
          handled v pb co r b.left,
          sym (handled-append v pb co r got b.left)
              ∙ ap (handled v pb co r) (sym b.first)
              ∙ carried,
        ),
        λ shut. ap (λ (z : Drained). handled v pb co r z.frames) (whole shut) ∙ carried,
      )
