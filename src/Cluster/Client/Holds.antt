-- ===== src/Cluster/Client/Holds.antt =====
-- From `NewNetClient` on until `info.cli` is reset, `c.cli` is a client.
use dvactor.Base.{◌≡◌, refl, ap, Bool, true, false, Option, none, some}
use dvactor.Vactor.{Vactor, Protobuf}
use dvactor.System.{System}
use dvactor.Wire.Link.{Codec}
use dvactor.Cluster.{Registration}
use dvactor.Cluster.Client.{
  Place, top, lowering, Client, new_cluster_client, dial, dialed, requested, answered, reset,
  on_disconnect, Step, dials, dial_ends, requests, takes_reply, takes_end, stores, raises, notices,
  resets, lowers, receives, loses, reports, ends, another_up, another_down, Reach, here, further,
}

abbrev pub is_some {ℓ} : {A : Type ℓ} → Option A → Bool
is_some none = false
is_some (some a) = true

-- The places between making the client and dropping it; at `top` a client of an earlier round may
-- still be there.
abbrev pub keeps_client : Place → Bool
keeps_client top = false
keeps_client lowering = false
keeps_client _ = true

abbrev pub HasClient : Client → Type 0
HasClient w = keeps_client w.place ≡ true → is_some w.cli ≡ true

module _ {v : Vactor} {pb : Protobuf} {c : Codec} {g : Registration} {s : System v pb} where
  Step-HasClient : {w x : Client} → Step v pb c g s w x → HasClient w → HasClient x
  unfolding dial dialed requested answered reset on_disconnect
  Step-HasClient (dials p) h = λ e. refl
  Step-HasClient (dial_ends k true p f) h = λ e. ap is_some f
  Step-HasClient (dial_ends k false p f) h = λ e. cc
  Step-HasClient (requests k true p f) h = λ e. ap is_some f
  Step-HasClient (requests k false p f) h = λ e. cc
  Step-HasClient (takes_reply k true p f r) h = λ e. ap is_some f
  Step-HasClient (takes_reply k false p f r) h = λ e. cc
  Step-HasClient (takes_end p f) h = λ e. cc
  Step-HasClient (stores p) h = λ e. h (ap keeps_client p)
  Step-HasClient (raises p) h = λ e. h (ap keeps_client p)
  Step-HasClient (notices p f) h = λ e. h (ap keeps_client p)
  Step-HasClient (resets p) h = λ e. cc
  Step-HasClient (lowers p) h = λ e. cc
  Step-HasClient (receives k msg_id bytes success p f r) h = h
  Step-HasClient (loses k p) h = h
  Step-HasClient (reports k p f) h = h
  Step-HasClient (ends k p) h = h
  Step-HasClient another_up h = h
  Step-HasClient (another_down p) h = h

  pub Reach-HasClient : {w x : Client} → Reach v pb c g s w x → HasClient w → HasClient x
  Reach-HasClient here h = h
  Reach-HasClient (further p st) h = Step-HasClient st (Reach-HasClient p h)

pub new_cluster_client-HasClient : HasClient new_cluster_client
unfolding new_cluster_client
new_cluster_client-HasClient = λ e. cc
