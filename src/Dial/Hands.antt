-- ===== src/Dial/Hands.antt =====
-- What a client hands over, and how often it says that its connection began and ended.
use dvactor.Base.{
  ℕ, ◌+◌, ◌≤◌, ◌≡◌, ap, sym, ◌∙◌, none, some, List, [], ◌++◌, if◌then◌else◌, arith, append-nil,
}
use dvactor.Packet.{
  read_into, Bytes, Frame, Drained, Stop, waiting, crashed, out_of_fuel, on_data, receive,
}
use dvactor.Packet
use dvactor.Packet.Prefix.{receive-snoc, receive_nothing}
use dvactor.Dial.{
  NetClient, Event, connected, disconnected, Place, dialing, receiving, returned, Connector,
  new_connector, dialed, go_receiver, go_sender, call_back, Step, dials, starts_receiver,
  starts_sender, calls_back, receives, ends_told, ends_silently, sender_ends, Reach, here, further,
}
use dvactor.Dial.Events.{messages, begun, ended, Adds, es-Adds, drained, received-Reads}

-- Whether `onConnectFunc` is to come, and whether the receiver is.
abbrev uncalled : Place → ℕ
uncalled (returned o) = 0
uncalled _ = 1

abbrev unstarted : Place → ℕ
unstarted dialing = 1
unstarted receiving = 1
unstarted _ = 0

record IsHeard (c : Connector) : Type 0 where
  heard :
      receive Packet.connected c.reads
      ≡ record { frames = messages c.events; stop = waiting c.client.splitter }
  once_begun : begun c.events + uncalled c.place ≤ 1
  once_ended : ended c.events + (if c.receiver then 1 else 0) + unstarted c.place ≤ 1

-- Calls without a message change nothing of what was handed over.
more-heard :
    {c : Connector} {more : List Event}
    → IsHeard c
    → Adds c.events more
    → messages more ≡ []
    → receive Packet.connected c.reads
      ≡ record { frames = messages (c.events ++ more); stop = waiting c.client.splitter }
more-heard {c} v a e =
    v.heard
    ∙ ap (λ fs. drained fs (waiting c.client.splitter))
        (sym (a.handing ∙ ap (λ l. messages c.events ++ l) e ∙ append-nil (messages c.events)))

Step-IsHeard : {c d : Connector} → Step c d → IsHeard c → IsHeard d
unfolding dialed go_receiver go_sender call_back connected disconnected read_into
Step-IsHeard {c} (dials (some err) p) v = record {
  heard = v.heard;
  once_begun = omega (arith, v.once_begun, ap uncalled p);
  once_ended = omega (arith, v.once_ended, ap unstarted p);
}
Step-IsHeard {c} (dials none p) v = record {
  heard = v.heard;
  once_begun = omega (arith, v.once_begun, ap uncalled p);
  once_ended = omega (arith, v.once_ended, ap unstarted p);
}
Step-IsHeard {c} (starts_receiver p) v = record {
  heard = v.heard;
  once_begun = omega (arith, v.once_begun, ap uncalled p);
  once_ended = ground (arith, v.once_ended, ap unstarted p);
}
Step-IsHeard {c} (starts_sender p) v = record {
  heard = v.heard;
  once_begun = omega (arith, v.once_begun, ap uncalled p);
  once_ended = omega (arith, v.once_ended, ap unstarted p);
}
Step-IsHeard {c} (calls_back p) v =
    let a = es-Adds c.events (connected c.client) in
    record {
      heard = more-heard v a (ground (arith));
      once_begun = ground (arith, v.once_begun, ap uncalled p, a.beginning);
      once_ended = ground (arith, v.once_ended, ap unstarted p, a.ending);
    }
Step-IsHeard {c} (receives bytes {r} on e) v =
    let m = received-Reads c.client bytes e in
    let a = es-Adds c.events r.0 in
    record {
      heard =
          receive-snoc Packet.connected c.reads bytes
          ∙ ap (λ (d : Drained). read_into d.frames d.stop bytes) v.heard
          ∙ ap (λ (d : Drained). drained (messages c.events ++ d.frames) d.stop) m.cuts
          ∙ ap (λ fs. drained fs (waiting r.1.splitter)) (sym a.handing);
      once_begun = omega (arith, v.once_begun, a.beginning, m.no_begin);
      once_ended = omega (arith, v.once_ended, a.ending, m.no_end);
    }
Step-IsHeard {c} (ends_told on) v =
    let a = es-Adds c.events (disconnected c.client) in
    record {
      heard = more-heard v a (ground (arith));
      once_begun = ground (arith, v.once_begun, a.beginning);
      once_ended = ground (arith, v.once_ended, a.ending, on);
    }
Step-IsHeard {c} (ends_silently on) v = record {
  heard = v.heard;
  once_begun = v.once_begun;
  once_ended = ground (arith, v.once_ended, on);
}
Step-IsHeard {c} (sender_ends on) v = record {
  heard = v.heard;
  once_begun = v.once_begun;
  once_ended = v.once_ended;
}

Reach-IsHeard : {c d : Connector} → Reach c d → IsHeard c → IsHeard d
Reach-IsHeard here v = v
Reach-IsHeard (further r st) v = Step-IsHeard st (Reach-IsHeard r v)

-- On a client with an empty splitter, whatever the goroutines of its connection do from `Connect`
-- on, unless they panic: its messages are those that the receiving loop makes of what was read, in
-- order, and the splitter holds the rest; and `onConnect` and `onDisconnect` are called once at
-- most.
pub client_hands :
    (cl : NetClient) {c : Connector}
    → cl.splitter ≡ []
    → Reach (new_connector cl) c
    → (receive Packet.connected c.reads
        ≡ record { frames = messages c.events; stop = waiting c.client.splitter })
      × (begun c.events ≤ 1)
      × (ended c.events ≤ 1)
client_hands cl e r =
    let v = Reach-IsHeard r (record {
      heard = receive_nothing Packet.connected ∙ ap (λ buf. drained [] (waiting buf)) (sym e);
      once_begun = omega arith;
      once_ended = omega arith;
    }) in
    (v.heard, omega (arith, v.once_begun), omega (arith, v.once_ended))
