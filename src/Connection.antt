-- ===== src/Connection.antt =====
-- One external connection through both ends: `forward` of internal/server/listener.go and
-- `handleStream` of internal/client/client.go over one smux stream.
pub mod Examples
pub mod Control
use ws_tunnel.Prelude.{
  ℕ, ◌+◌, ◌<◌, ◌≤◌, ◌≡◌, refl, true, false, Bool, Option, none, some, List, [], ◌∷◌, ◌++◌, arith,
  Str, str_eq, nat_eq, length, append_assoc, append-nil, ◌∙◌, All,
}
use ws_tunnel.Prelude.Dict.{lookup}
use ws_tunnel.Config.{Config, PortSpec, node_config}
use ws_tunnel.Config.Valid.{IsValid}
use ws_tunnel.Protocol.Io.{Error, Source, bytes}
use ws_tunnel.Protocol.Header.{stream_header, ack_ok}
use ws_tunnel.Protocol.Frame.{frame_eof}
use ws_tunnel.Protocol.Frame.Write.{frames, Accepts}
use ws_tunnel.Protocol.Frame.Read.{concat, Fits}
use ws_tunnel.Protocol.Message.{NodeConfig}
use ws_tunnel.Server.Stats.{NodeStats}
use ws_tunnel.Server.Forward.{Forwarded, forward}
use ws_tunnel.Server.Forward.Laws.{forward_sent, forward_ok}
use ws_tunnel.Client.{Client, Served, timeout_of, handle_stream}
use ws_tunnel.Client.Tunnel.{handle_stream-Delivers}

-- Let `cfg` be a valid configuration, `n` what it pushes to a node, and `spec` the entry of one of
-- that node's ports; let the client hold `n` and not drain, the local service accept the dial
-- within the pushed timeout, and both sides of the stream take every write, having taken nothing
-- yet. Let the copies use buffers of a
-- positive size, the connection send `request` the local service `reply`, no read longer than 1 MiB,
-- and let each end's stream deliver, in any chunks, exactly what the other end wrote. Then the
-- client dials exactly the configured remote address, the local service gets exactly the bytes
-- of `request` and the connection exactly those of `reply`; the server's statistics count one `ok`
-- and the bytes of both directions.
pub forward-handle_stream :
    {W : Type 0} (write : List ℕ → W → Option Error × W) (sent : W → List ℕ) (dial : Str → ℕ → Bool)
    (k : ℕ) (cfg : Config) (node : Str) (n : NodeConfig) (port : ℕ) (spec : PortSpec) (c : Client)
    (w w' : W) (s : NodeStats) (request reply : List (List ℕ)) (to_client to_server : Source)
    → IsValid cfg
    → node_config cfg node ≡ some n
    → lookup port cfg.ports ≡ some spec
    → spec.node ≡ node
    → c.cfg ≡ some n
    → c.draining ≡ false
    → dial spec.remote (timeout_of (some n)) ≡ true
    → Accepts write sent
    → sent w ≡ []
    → sent w' ≡ []
    → 0 < k
    → All Fits request
    → All Fits reply
    → bytes to_client ≡ sent (forward write k port request true (some to_server) w s).w
    → bytes to_server ≡ sent (handle_stream write dial k reply to_client w' c).w
    → let f = forward write k port request true (some to_server) w s in
      let h = handle_stream write dial k reply to_client w' c in
      (h.dialed ≡ some spec.remote)
      × (h.delivered ≡ some (concat request))
      × (f.to_conn ≡ some (concat reply))
      × (f.stats ≡ record s {
        result_ok = s.result_ok + 1;
        bytes_in = s.bytes_in + length (concat request);
        bytes_out = s.bytes_out + length (concat reply);
      })
forward-handle_stream write sent dial k cfg node n port spec c w w' s request reply to_client
      to_server v pushed l own held live dialed accepts fresh fresh' hk fits fits' there back =
    let up = forward_sent write sent accepts k port request to_server w s in
    let (d, b, o, _) =
      handle_stream-Delivers write sent accepts dial k reply cfg n to_client w' c node port spec
        request [] v pushed l own held live dialed hk fits (there ∙ up ∙ ground (arith, fresh)) in
    let (conn, stats) =
      forward_ok write sent accepts k port request to_server w s reply [] hk fits'
        (back ∙ o ∙ ground (arith, fresh')) in
    (d, b, conn, stats)
