-- ===== src/Cluster/Client.antt =====
-- cluster_client.go, with `Connect` and `Disconnect` of engine/net/client/client.go: the goroutine
-- that keeps a connection to another system, and the receivers of its connections, which call
-- `OnDisconnect` and `OnMessage`. A connection is told by the number of clients made before it.
pub mod Right
pub mod Always
pub mod Holds
pub mod Shown
pub mod Withdraws
mod Tests
use dvactor.Base.{
  ℕ, ◌+◌, ◌-◌, ◌<◌, ◌≡◌, ◌⊎◌, Bool, true, false, Option, none, some, Outcome, if◌then◌else◌, ◌==◌,
}
use dvactor.Packet.{Bytes}
use dvactor.Vactor.{Vactor, Protobuf}
use dvactor.System.{System}
use dvactor.Wire.{register_system_rsp}
use dvactor.Wire.Link.{Codec, Handled, on_message as net_message}
use dvactor.Cluster.{Registration, add_one, sub_one}

-- Where the goroutine stands: at the top of the loop, before `Connect`, before `SendMessage`, at the
-- `select`, before `info.cli` is set, before the counter is raised, at `<-c.disconnectChan`, before
-- `info.cli` is reset, and before the counter is lowered. The sleeps change nothing.
pub data Place : Type 0 where
  top dialing registering waiting storing raising ready resetting lowering : Place

-- A connection: not made, open, lost with `OnDisconnect` still to be called, closed by
-- `Disconnect`, or ended. The end of one that `Disconnect` closed is not reported.
pub data Phase : Type 0 where
  unmade up lost closed over : Phase

-- `clusterClient` with the fields of `clusterNet` that it writes. `disconnect_chan` tells whether
-- the channel holds its one value. `others` is what other goroutines have added to the counter.
pub record Client : Type 0 where
  pub place : Place
  pub cli : Option ℕ
  pub disconnect_chan : Bool
  pub register_chan : Option Bool
  pub info_cli : Option ℕ
  pub connected : ℕ
  pub made : ℕ
  pub phase : ℕ → Phase
  pub others : ℕ

unfoldable pub new_cluster_client : Client
new_cluster_client = record {
  place = top;
  cli = none;
  disconnect_chan = false;
  register_chan = none;
  info_cli = none;
  connected = 0;
  made = 0;
  phase = λ k. unmade;
  others = 0;
}

abbrev pub move : ℕ → Phase → (ℕ → Phase) → ℕ → Phase
move k p phase j = if j == k then p else phase j

-- `Disconnect` of an open connection; a lost one has its queue closed already.
abbrev pub close : Phase → Phase
close up = closed
close p = p

-- The top of the loop: the channel is emptied, and `c.cli` is a new client.
unfoldable pub dial : Client → Client
dial c = record c { place = dialing; cli = some c.made; disconnect_chan = false; made = c.made + 1 }

unfoldable pub dialed : ℕ → Bool → Client → Client
dialed k true c = record c { place = registering; phase = move k up c.phase }
dialed k false c = record c { place = top }

-- `c.cli.Disconnect()`, and the next round.
abbrev pub give_up : ℕ → Client → Client
give_up k c = record c { place = top; phase = move k (close (c.phase k)) c.phase }

unfoldable pub requested : ℕ → Bool → Client → Client
requested k true c = record c { place = waiting }
requested k false c = give_up k c

-- The `select`: a reply, or the end of a connection.
unfoldable pub answered : ℕ → Bool → Client → Client
answered k true c = record c { place = storing; register_chan = none }
answered k false c = give_up k (record c { register_chan = none })

abbrev pub dropped : Client → Client
dropped c = record c { place = top; disconnect_chan = false }

abbrev pub stored : Client → Client
stored c = record c { place = raising; info_cli = c.cli }

abbrev pub raised : Client → Client
raised c = record c { place = ready; connected = add_one c.connected }

abbrev pub noticed : Client → Client
noticed c = record c { place = resetting; disconnect_chan = false }

unfoldable pub reset : Client → Client
reset c = record c { place = lowering; info_cli = none; cli = none }

abbrev pub lowered : Client → Client
lowered c = record c { place = top; connected = sub_one c.connected }

-- `OnDisconnect`, called by the receiver of a connection that is lost.
unfoldable pub on_disconnect : ℕ → Client → Client
on_disconnect k c = record c { disconnect_chan = true; phase = move k over c.phase }

-- What `OnMessage` does: it sends on `registerResponseChan`, or it is `clusterNet.OnMessage`.
pub data Act (H : Type 0) : Type 0 where
  answers : Bool → Act H
  hands : H → Act H

abbrev pub is_success : Option ℕ → Bool
is_success none = false
is_success (some code) = code == 0

module _ (v : Vactor) (pb : Protobuf) (c : Codec) (g : Registration) (s : System v pb) where
  unfoldable pub on_message : ℕ → Bytes → Act (Outcome (Handled v pb c s))
  on_message msg_id bytes =
      if msg_id == register_system_rsp
      then answers (is_success (g.unmarshal_rsp bytes))
      else hands (net_message v pb c s msg_id bytes)

  -- The goroutine, the receivers, and the other goroutines that count, in any order. A send on a
  -- full channel waits, so it is no step.
  pub data Step (w : Client) : Client → Type 0 where
    dials : w.place ≡ top → Step w (dial w)
    dial_ends : (k : ℕ) (ok : Bool) → w.place ≡ dialing → w.cli ≡ some k → Step w (dialed k ok w)
    requests :
        (k : ℕ) (ok : Bool) → w.place ≡ registering → w.cli ≡ some k → Step w (requested k ok w)
    takes_reply :
        (k : ℕ) (success : Bool)
        → w.place ≡ waiting
        → w.cli ≡ some k
        → w.register_chan ≡ some success
        → Step w (answered k success w)
    takes_end : w.place ≡ waiting → w.disconnect_chan ≡ true → Step w (dropped w)
    stores : w.place ≡ storing → Step w (stored w)
    raises : w.place ≡ raising → Step w (raised w)
    notices : w.place ≡ ready → w.disconnect_chan ≡ true → Step w (noticed w)
    resets : w.place ≡ resetting → Step w (reset w)
    lowers : w.place ≡ lowering → Step w (lowered w)
    receives :
        (k msg_id : ℕ) (bytes : Bytes) (success : Bool)
        → (w.phase k ≡ up) ⊎ (w.phase k ≡ closed)
        → on_message msg_id bytes ≡ answers success
        → w.register_chan ≡ none
        → Step w (record w { register_chan = some success })
    loses : (k : ℕ) → w.phase k ≡ up → Step w (record w { phase = move k lost w.phase })
    reports : (k : ℕ) → w.phase k ≡ lost → w.disconnect_chan ≡ false → Step w (on_disconnect k w)
    ends : (k : ℕ) → w.phase k ≡ closed → Step w (record w { phase = move k over w.phase })
    another_up : Step w (record w { connected = add_one w.connected; others = w.others + 1 })
    another_down :
        0 < w.others → Step w (record w { connected = sub_one w.connected; others = w.others - 1 })

  pub data Reach (w : Client) : Client → Type 0 where
    here : Reach w w
    further : {x y : Client} → Reach w x → Step x y → Reach w y
