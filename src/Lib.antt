-- ===== src/Lib.antt =====
-- dvactor joins actor systems (github.com/kofplayer/vactor) of several processes into a cluster. An
-- envelope that an actor sends goes to `Router` (router.go), which hands it to the local system, to
-- a proxy actor, or to `clusterNet.Send` (cluster_net.go). `Send` wraps its messages by their
-- registered types (system.go), packs it into a protobuf package, and sends the package over the
-- connection to the other system as a frame (engine/net/connect/packet.go). There the receiving loop
-- cuts the frames, and `OnMessage` unpacks the envelope and routes it locally. Watching a remote
-- actor goes through one proxy actor for each watched actor (watch_proxy.go), and a request from
-- outside the actors through one for each receiver (request_proxy.go). The connections send from a
-- queue (engine/queue) over a ring buffer.
--
-- Files:
-- Base: shared names, Boolean tests, lists over the native numbers (Base/Lists), Go's panics as an
--   outcome (Base/Panics), Go's maps as association lists with unique keys (Base/Maps).
-- Vactor: the types of the vactor library that the code reads and writes. Constants and the widths
--   of the id types are parameters; so are the protobuf messages and `proto.Marshal`.
-- Errors: error.go and the two conversions of error codes.
-- Packet: engine/net/connect/packet.go and the loop of engine/net/client/client.go and
--   engine/net/server/server.go (`SetOnData`). Packet/Header: one frame; Packet/Cut: the loop over
--   split reads; Packet/Stream: packing and receiving together;
--   Packet/Prefix: a stream that has not arrived whole.
-- Ring: engine/queue/imp/ring/ring_buffer.go. Ring/Inv: validity; Ring/Contents: the elements as a
--   list; Ring/Grow, Ring/Refine, Ring/Batch: the operations on that list; Ring/Calls: sequences of
--   calls.
-- Queue: engine/queue/imp/ring/queue.go, ringImp.go and engine/queue/queue.go. Queue/Channel: the
--   channel that it promises to be; Queue/Refine: that it is one; Queue/Laws: its calls one by one;
--   Queue/Wait: the condition variable.
-- System: system.go, the registry of message types. System/Registry: wrapping and unwrapping.
-- Wire: protocol/cluster.proto and the reference conversions of cluster_net.go. Wire/Encode: the
--   switch of `Send`; Wire/Decode: the switch of `OnMessage`; Wire/RoundTrip: one after the other;
--   Wire/Link: the table of systems, `Send`, `doSend` and `OnMessage`; Wire/Sending: what `Send` hands
--   to a link; Wire/Silent: responses without a message; Wire/Passive: which of two systems connects;
--   Wire/Samples: data of the tests.
-- Router: router.go and the names of the proxies. Router/Place: where actors live; Router/Names:
--   names of proxies; Router/Groups: `Router.Router`; Router/Groups/Grouped: its map of
--   groups; Router/Groups/Reach: whom an envelope reaches.
-- WatchProxy: watch_proxy.go. WatchProxy/Upstream: its watches of the remote actor, by
--   its maps; WatchProxy/Watched: by who is subscribed; WatchProxy/Sets:
--   its maps as sets; WatchProxy/Subscribers: who is subscribed, said without the maps, and that the
--   maps hold those; WatchProxy/Notify: who gets a notification; WatchProxy/Lifetime: its stop interval.
-- RequestProxy: request_proxy.go. RequestProxy/Answers: the way of a request and its response.
-- Conn: engine/net/connect/socket/conn.go, a connection with its queue, its receiver and its sender.
--   Conn/Sound: what always holds; Conn/Deliver: sending and the peer's loop together; Conn/Silence:
--   when the end of a connection is reported; Conn/Flush: closing writes what was accepted;
--   Conn/Broken: what a write error leaves; Conn/Samples: data of the tests.
-- Net: the callbacks of engine/net/server/server.go and `SendMessage` of it and of
--   engine/net/client/client.go. Net/Own and Net/Apart: what one connection makes of the calls of all;
--   Net/Found: the sessions of the manager; Net/Talk: messages from `SendMessage` to the peer's loop.
-- Accept: engine/net/connect/socket/acceptor.go in front of the server of Net. Accept/Phases: the life
--   of a connection in the calls to the server; Accept/Order and Accept/Steps: what always holds of
--   them; Accept/Serving: the sessions of the connections that are read.
-- Dial: `Connect` of engine/net/client/client.go and engine/net/connect/socket/connector.go.
--   Dial/Events: its calls, counted; Dial/Hands: what the client hands over.
-- Flow: `Send` on one system, a connection, and the receiving loop and `OnMessage` on the other, put
--   together. Flow/Carry: what the connection carries; Flow/Arrive: what arrives.
-- Session: engine/net/session. Session/Ids: the ids that the manager gives out.
-- Cluster: cluster_server.go, cluster_client.go and `clusterNet.start`. Cluster/Server: registration
--   and its end; Cluster/Server/World: the connections of the server; Cluster/Server/Keeps, Held,
--   Count and Tally: what a message leaves, who stays registered, and the counter. Cluster/Client: the
--   goroutine that keeps a connection; Cluster/Client/Right, Always and Holds: what always
--   holds; Cluster/Client/Shown: what it shows of its connection; Cluster/Client/Withdraws: how it
--   stops showing it. Cluster/Start: which systems are dialled,
--   the wait, and `Start` of system.go over both.
-- Fixtures: concrete parameters for the tests.
--
-- State and effects: a method that changes its receiver returns the new state; calls on other
-- objects (sends, context calls, wake-ups) are values in the result, in the order of the code. A nil
-- pointer and a failed type assertion are the outcome `panics`. Pointers and channels are told by
-- their addresses.
--
-- Bounds and fuel: fixed-width integers wrap by `% 2 ^ w` where the code converts or computes in
-- them; `int` lengths are unbounded. The receiving loop runs on fuel, one more than the length of
-- the buffer, since each round takes five bytes at least. Growing for a batch has as many rounds as
-- the batch has values, since each growth makes room for one more at least. Printing a number of 32
-- bits has more rounds than it has digits.
--
-- Parameters: `proto.Marshal` and `proto.Unmarshal`, of messages and of packages, satisfy the round
-- trip of protobuf; those of the two registration packages are functions with no law. Whether a link
-- takes a message, which queues accept, and the order in which Go visits a map are functions.
--
-- Concurrency: the goroutines of a connection, of the session manager, of the server and of a client
-- are step relations, and a theorem on every reached state holds for every order of their steps. A
-- step is what the code does between two points at which other goroutines can act: a critical
-- section, an atomic operation, a send or a receive on a channel, or a call of the network.
--
-- The actor library is taken to call the callback of `RequestAsync` once at most and to make a channel
-- of capacity 1 for each request; package net is taken to give a new connection with each `Accept`.
--
-- Not modelled: the calls of package net themselves, addresses and keep-alive, setters of the server
-- and of the connections, logging but for the timeout of `Start`, generated accessors
-- (protocol/cluster.pb.go), examples and tests. The sets of a watch proxy keep one fixed order of
-- their elements.
pub mod Base
pub mod Packet
pub mod Vactor
pub mod Errors
pub mod System
pub mod Wire
pub mod Router
pub mod WatchProxy
pub mod RequestProxy
pub mod Ring
pub mod Queue
pub mod Conn
pub mod Net
pub mod Accept
pub mod Dial
pub mod Flow
pub mod Session
pub mod Cluster
pub mod Fixtures
