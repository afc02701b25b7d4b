-- ===== src/Cluster/Server/Tests.antt =====
-- System 1 waits for system 2; the connections are sessions 40 and 41.
use dvactor.Base.{
  ℕ, ◌+◌, ◌%◌, ◌^◌, ◌≡◌, refl, inl, false, none, some, [], ◌∷◌, returns, arith, if◌then◌else◌, ◌==◌,
}
use dvactor.Base.Maps.{lookup, nat_eq}
use dvactor.Wire.Link.{Infos, scan, new_cluster_net, on_message as net_message}
use dvactor.Cluster.Server.{Server, refuse, register, on_disconnect, on_message}
use dvactor.Cluster.Server.World.{
  World, unknown, up, move, settle, accepted, received, ended, Reach, here, further,
}
use dvactor.Cluster.Server.Count.{registered}
use dvactor.Cluster.Server.Held.{Holds, locked_out}
use dvactor.Cluster.Server.Tally.{fresh_server, fresh_world, server_counts, on_disconnect-register}
use dvactor.Fixtures.{types, numbers, blank, no_pkgs, one_byte}

abbrev table : Infos
table =
    (1, record { passive = false; session = none; cli = none })
    ∷ (2, record { passive = false; session = none; cli = none })
    ∷ []

table_made : new_cluster_net 1 (1 ∷ 2 ∷ []) ≡ table
unfolding new_cluster_net scan
table_made = refl

-- System 2 has registered over session 40.
abbrev joined : Server
joined = record {
  infos =
      (1, record { passive = false; session = none; cli = none })
      ∷ (2, record { passive = false; session = some 40; cli = none })
      ∷ [];
  bound = (40, 2) ∷ [];
  connected = 1;
}

joins :
    on_message types numbers no_pkgs one_byte blank 40 10 (2 ∷ []) (fresh_server table)
    ≡ returns (record {
      failed = false;
      server = joined;
      sends = record { link = 40; msg_id = 11; body = 0 ∷ [] } ∷ [];
      routes = none;
    })
unfolding on_message
joins = refl

-- The server has accepted both connections.
abbrev both_up : World
both_up = record {
  server = joined;
  phase = λ session. if session == 40 then up else if session == 41 then up else unknown;
  others = 0;
}

joined-Holds : Holds 2 40 joined
joined-Holds = record {
  info = record { passive = false; session = some 40; cli = none };
  there = refl;
  mine = refl;
}

-- A package that cannot be unpacked.
fails : on_message types numbers no_pkgs one_byte blank 40 1 [] joined ≡ returns (refuse joined)
unfolding on_message net_message
fails = refl

locked_out_example : register {P = ℕ} (some (0 ∷ [])) 41 2 joined ≡ refuse joined
unfolding settle
locked_out_example =
    locked_out types numbers no_pkgs one_byte blank 2 40 1 41 [] (some (0 ∷ [])) both_up
      joined-Holds fails refl (further here (ended 40 refl))

on_disconnect-register_example :
    on_disconnect 40 (register {P = ℕ} (some (0 ∷ [])) 40 2 (fresh_server table)).server
    ≡ fresh_server table
on_disconnect-register_example =
    on_disconnect-register ℕ 40 2 (0 ∷ []) (record { passive = false; session = none; cli = none })
      (fresh_server table) refl refl refl refl (omega arith)

abbrev one_joined : World
one_joined = record { server = joined; phase = move 40 up (λ session. unknown); others = 0 }

joining : Reach types numbers no_pkgs one_byte blank (fresh_world 1 (1 ∷ 2 ∷ [])) one_joined
unfolding on_message new_cluster_net scan settle
joining = further (further here (accepted 40 refl)) (received 40 10 (2 ∷ []) (inl refl) refl)

server_counts_example :
    (one_joined.server.connected ≡ (0 + registered joined.infos) % 2 ^ 32)
    × ((session id : ℕ) → lookup session joined.bound ≡ some id → Holds id session joined)
server_counts_example = server_counts types numbers no_pkgs one_byte blank 1 (1 ∷ 2 ∷ []) joining
