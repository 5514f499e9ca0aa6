-- ===== src/Lib.antt =====
-- ws-tunnel: a reverse tunnel over WebSocket. A server listens on ports for its nodes and forwards
-- each connection, as one multiplexed stream, to the node's client, which dials a local service.
--
-- The parts, and the files that model them:
--   Protocol (internal/protocol): what goes over a stream. Io is `byteReader` and the readers below
--     it, as lists of the answers that a reader will give; Varint the variable-length numbers of
--     encoding/binary; Header is stream.go (`WriteStreamHeader`, `ReadStreamHeader`, `ReadAck`,
--     `AckResult`), Frame is frame.go (`FrameWriter`, `FrameReader`) with the loops of io.Copy,
--     Message is the pushed `NodeConfig` of message.go with `Equal`, and Control is `Message`.
--   Config (internal/config): `Load`, `NodeConfig`, `PortsOf`, `NodeByKey`, `SortedPorts` of config.go
--     in Config, its strings in Config/Text, and `DiffConfig` of diff.go in Config/Diff.
--   Server (internal/server): Stats is `NodeStats`, Session is `NodeSession` with its data channels
--     and its queue, Registry is `Registry` (all of registry.go); Handshake is `handleWS`,
--     `authenticate`, `serveControl` and `serveData` of server.go up to the welcome; Contact is
--     `controlReadLoop` and `pingLoop` of server.go; Listener is the `listenerManager`, Listener/Run
--     the goroutine of a listener with `stop`, and Forward is `forward` (all of listener.go). Plane is
--     `Server` of server.go with `serveControl`, `applyReload`, `rebindEndpoints`, `pushConfig`,
--     `drainNode` and `shutdown`; Status is `buildStatus` and Metrics is `handleMetrics` of status.go.
--   Client (internal/client): Client is `handleStream` of client.go with the state it uses,
--     Session is `runSession` and `controlLoop`, Supervisor is `supervisor`, Backoff the delays of
--     `Run` (and of the server's `run`).
--   Connection: `forward` and `handleStream` at the two ends of one stream, and, in
--     Connection/Control, the control plane and `runSession` at the two ends of a control channel.
--   Prelude: shared tests, lists, maps, sets and integers. Files named Examples apply the theorems to
--     concrete values; Config/Sample is the configuration that they use.
--
-- State and operations. A struct is a record and a pointer a number; a map is an association list
-- whose order stands for the order of a `range`. One hold of a mutex is one function, and
-- Server/Session/Steps is the relation of what goroutines do between such holds, in any order. In
-- Server/Plane/Steps a reload and the end of a drain are one step each, and the coming and going of
-- a control channel may be one step or its parts, with other steps between; the results on runs are
-- about those in which channels come and go undivided, and Server/Plane/Overlap is about a reload
-- between the parts. A write to a transport is a parameter `write`, a stream that is read is a
-- `Source`, in chunks of any size; the dial of a local service and `time.ParseDuration` are
-- parameters, and a YAML document is what it decodes to. `ConstantTimeCompare` is equality.
--
-- Numbers. Counters are natural numbers (int64 in the source; no run comes near 2^63), durations are
-- nanoseconds, an `int` that is parsed is bounded by 2^63, and a port on the wire is taken modulo
-- 2^64. The loop of io.Copy runs on fuel: one more than the weight of the source (its bytes and its
-- chunks) is enough on any stream; a varint has ten groups, and `itoa` fuel for 19 digits.
--
-- Not modelled: net/http, the websocket, smux, fsnotify and YAML libraries, JSON, logging, clocks; in
-- Status, times of last contact, round-trip times and the rates (floating point); the set-up of data
-- channels behind their handshake; the client's own status page; the commands.
pub mod Prelude
pub mod Protocol
pub mod Config
pub mod Server
pub mod Client
pub mod Connection
