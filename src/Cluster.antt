-- ===== src/Cluster.antt =====
-- cluster_server.go, cluster_client.go and `clusterNet.start` of cluster_net.go: how the systems of
-- a cluster find each other.
pub mod Server
pub mod Client
pub mod Start
use dvactor.Base.{ℕ, ◌+◌, ◌-◌, ◌%◌, ◌^◌, Option}
use dvactor.Packet.{Bytes}

-- `proto.Marshal` and `proto.Unmarshal` of `PkgRegisterSystemReq`, which holds a system id, and of
-- `PkgRegisterSystemRsp`, which holds an error code.
pub record Registration : Type 0 where
  pub marshal_req : ℕ → Option Bytes
  pub unmarshal_req : Bytes → Option ℕ
  pub marshal_rsp : ℕ → Option Bytes
  pub unmarshal_rsp : Bytes → Option ℕ

-- `atomic.AddInt32` of 1 and of -1 on `connectedSystemCount`, as a pattern of 32 bits.
abbrev pub add_one : ℕ → ℕ
add_one n = (n + 1) % 2 ^ 32

abbrev pub sub_one : ℕ → ℕ
sub_one n = (n + 2 ^ 32 - 1) % 2 ^ 32
