-- ===== src/Cluster/Server/World.antt =====
-- The server and its connections: the receivers of the connections take steps in any order.
use dvactor.Base.{ℕ, ◌+◌, ◌-◌, ◌<◌, ◌≡◌, ◌⊎◌, returns, if◌then◌else◌, ◌==◌}
use dvactor.Packet.{Bytes}
use dvactor.Vactor.{Vactor, Protobuf}
use dvactor.System.{System}
use dvactor.Wire.Link.{Codec}
use dvactor.Cluster.{Registration, add_one, sub_one}
use dvactor.Cluster.Server.{Server, Done, on_message, on_disconnect}

-- A connection of the server: not accepted yet, open, closed by this side (`s.Close()`), or ended.
pub data Phase : Type 0 where
  unknown up closing gone : Phase

-- `others` is what this process and its clients have added to the counter.
pub record World : Type 0 where
  pub server : Server
  pub phase : ℕ → Phase
  pub others : ℕ

abbrev pub move : ℕ → Phase → (ℕ → Phase) → ℕ → Phase
move session p f other = if other == session then p else f other

-- The server after a message: `s.Close()` follows an error.
unfoldable pub settle : {P : Type 0} → ℕ → Done P → World → World
settle session d w = record w {
  server = d.server;
  phase = if d.failed then move session closing w.phase else w.phase;
}

module _ (v : Vactor) (pb : Protobuf) (c : Codec) (g : Registration) (s : System v pb) where
  open pb use {P}

  -- The receivers of the connections, in any order. A connection that this side closed is read on
  -- until the read fails, and its end is not reported.
  pub data Step (w : World) : World → Type 0 where
    accepted :
        (session : ℕ)
        → w.phase session ≡ unknown
        → Step w (record w { phase = move session up w.phase })
    received :
        (session msg_id : ℕ) (bytes : Bytes) {d : Done P}
        → (w.phase session ≡ up) ⊎ (w.phase session ≡ closing)
        → on_message v pb c g s session msg_id bytes w.server ≡ returns d
        → Step w (settle session d w)
    lost :
        (session : ℕ)
        → w.phase session ≡ up
        → Step w (record w {
          server = on_disconnect session w.server;
          phase = move session gone w.phase;
        })
    ended :
        (session : ℕ)
        → w.phase session ≡ closing
        → Step w (record w { phase = move session gone w.phase })
    another_up : Step w (record w {
      server = record w.server { connected = add_one w.server.connected };
      others = w.others + 1;
    })
    another_down :
        0 < w.others
        → Step w (record w {
          server = record w.server { connected = sub_one w.server.connected };
          others = w.others - 1;
        })

  pub data Reach (w : World) : World → Type 0 where
    here : Reach w w
    further : {x y : World} → Reach w x → Step x y → Reach w y
