-- ===== src/Cluster/Client/Always.antt =====
-- What holds of the client at every moment.
use dvactor.Base.{ℕ, ◌+◌, ◌-◌, ◌≡◌, refl, ap, sym, Bool, true, false, Option, none, some, arith}
use dvactor.Vactor.{Vactor, Protobuf}
use dvactor.System.{System}
use dvactor.Wire.Link.{Codec}
use dvactor.Cluster.{Registration, add_one, sub_one}
use dvactor.Cluster.Client.{
  top, dialing, registering, waiting, storing, raising, ready, resetting, lowering, Phase, up, lost,
  over, Client, new_cluster_client, move, close, dial, dialed, give_up, requested, answered, reset,
  on_disconnect, Step, dials, dial_ends, requests, takes_reply, takes_end, stores, raises, notices,
  resets, lowers, receives, loses, reports, ends, another_up, another_down, Reach, here, further,
}
use dvactor.Cluster.Client.Right.{
  weight, shown, watching, watched, IsRight, move_here, receiver-IsRight, away-IsRight, on-IsRight,
  tail-IsRight, other-IsRight,
}

dialed-IsRight :
    (w : Client) (k : ℕ) (ok : Bool)
    → w.place ≡ dialing
    → w.cli ≡ some k
    → IsRight w
    → IsRight (dialed k ok w)
unfolding dialed
dialed-IsRight w k true h c r = record {
  counted = rw h at r.counted;
  given = rw h at r.given;
  live = λ _. record {
    number = k;
    mine = c;
    seen = ap (λ (p : Phase). watched p w.disconnect_chan) (move_here k up w.phase);
  };
}
dialed-IsRight w k false h c r =
    away-IsRight w top w.disconnect_chan w.register_chan w.made w.cli w.phase (ap weight (sym h))
      (rw h refl) refl r

give_up-IsRight :
    (w : Client) (k : ℕ) (reply : Option Bool)
    → weight w.place ≡ 0
    → shown w.place w.cli ≡ none
    → IsRight w
    → IsRight (give_up k (record w { register_chan = reply }))
give_up-IsRight w k reply z n r =
    away-IsRight w top w.disconnect_chan reply w.made w.cli (move k (close (w.phase k)) w.phase)
      (sym z) (sym n) refl r

requested-IsRight :
    (w : Client) (k : ℕ) (ok : Bool)
    → w.place ≡ registering
    → IsRight w
    → IsRight (requested k ok w)
unfolding requested
requested-IsRight w k true h r =
    on-IsRight w waiting w.register_chan w.connected w.info_cli (ap watching h) (ap weight h)
      (λ e. omega (arith, e)) (rw h at r.given) r
requested-IsRight w k false h r = give_up-IsRight w k w.register_chan (ap weight h) (rw h refl) r

answered-IsRight :
    (w : Client) (k : ℕ) (ok : Bool) → w.place ≡ waiting → IsRight w → IsRight (answered k ok w)
unfolding answered
answered-IsRight w k true h r =
    on-IsRight w storing none w.connected w.info_cli (ap watching h) (ap weight h)
      (λ e. omega (arith, e)) (rw h at r.given) r
answered-IsRight w k false h r = give_up-IsRight w k none (ap weight h) (rw h refl) r

module _ {v : Vactor} {pb : Protobuf} {c : Codec} {g : Registration} {s : System v pb} where
  pub Step-IsRight : {w x : Client} → Step v pb c g s w x → IsRight w → IsRight x
  unfolding dial reset on_disconnect
  Step-IsRight {w} (dials h) r =
      away-IsRight w dialing false w.register_chan (w.made + 1) (some w.made) w.phase
        (ap weight (sym h)) (rw h refl) refl r
  Step-IsRight {w} (dial_ends k ok h e) r = dialed-IsRight w k ok h e r
  Step-IsRight {w} (requests k ok h e) r = requested-IsRight w k ok h r
  Step-IsRight {w} (takes_reply k ok h e f) r = answered-IsRight w k ok h r
  Step-IsRight {w} (takes_end h e) r =
      away-IsRight w top false w.register_chan w.made w.cli w.phase (ap weight (sym h)) (rw h refl)
        refl r
  Step-IsRight {w} (stores h) r =
      on-IsRight w raising w.register_chan w.connected w.cli (ap watching h) (ap weight h)
        (λ e. omega (arith, e)) refl r
  Step-IsRight {w} (raises h) r =
      on-IsRight w ready w.register_chan (add_one w.connected) w.info_cli (ap watching h)
        (ap weight h) (λ e. omega (arith, e)) (rw h at r.given) r
  Step-IsRight {w} (notices h e) r =
      away-IsRight w resetting false w.register_chan w.made w.cli w.phase (ap weight (sym h))
        (rw h refl) refl r
  Step-IsRight {w} (resets h) r =
      tail-IsRight w lowering none w.connected 1 w.others (λ e. rw h at e) refl refl refl r
  Step-IsRight {w} (lowers h) r = record {
    counted = omega (arith, r.counted, ap weight h);
    given = rw h at r.given;
    live = λ t. cc;
  }
  Step-IsRight {w} (receives k msg_id bytes ok h e f) r =
      other-IsRight w (some ok) w.connected w.others r.counted r
  Step-IsRight {w} (loses k h) r =
      receiver-IsRight w k lost w.disconnect_chan w.register_chan (λ _. refl) (λ e. e) r
  Step-IsRight {w} (reports k h e) r =
      receiver-IsRight w k over true w.register_chan (λ _. refl) (λ _. refl) r
  Step-IsRight {w} (ends k h) r =
      receiver-IsRight w k over w.disconnect_chan w.register_chan (λ e. absurd (cc (rw h at e)))
        (λ e. e) r
  Step-IsRight {w} another_up r =
      other-IsRight w w.register_chan (add_one w.connected) (w.others + 1)
        (omega (arith, r.counted)) r
  Step-IsRight {w} (another_down h) r =
      other-IsRight w w.register_chan (sub_one w.connected) (w.others - 1)
        (omega (arith, r.counted, h)) r

  pub Reach-IsRight : {w x : Client} → IsRight w → Reach v pb c g s w x → IsRight x
  Reach-IsRight r here = r
  Reach-IsRight r (further p st) = Step-IsRight st (Reach-IsRight r p)

pub new_cluster_client-IsRight : IsRight new_cluster_client
unfolding new_cluster_client
new_cluster_client-IsRight = record { counted = refl; given = refl; live = λ h. cc }
