-- ===== src/Server/Plane/Sample.antt =====
-- A server with the sample configuration to which the client of its node has come, for examples.
use ws_tunnel.Prelude.{
  subst, sym, ℕ, ◌≡◌, refl, Bool, true, false, none, some, [], Str, str_eq, nat_eq, str_beq,
}
use ws_tunnel.Prelude.Dict.{lookup, insert}
use ws_tunnel.Protocol.Header.{codes}
use ws_tunnel.Protocol.Control.{Message}
use ws_tunnel.Config.{node_config, ports_for, ports_of, specs_of}
use ws_tunnel.Config.Text.{itoa, itoa_digits}
use ws_tunnel.Config.Valid.{IsValid}
use ws_tunnel.Config.Sample.{sample-IsValid, sample, sample_node, sample_push}
use ws_tunnel.Server.Stats.{no_stats}
use ws_tunnel.Server.Session.{DataChannel}
use ws_tunnel.Server.Session.Steps.{new_session}
use ws_tunnel.Server.Registry.{SessionRef, get, register, stats_of, empty}
use ws_tunnel.Server.Listener.{start_node, start_ports, start_port, start_over, open_port}
use ws_tunnel.Server.Listener.Holding.{holding}
use ws_tunnel.Server.Plane.{
  Peer, Server, Endpoints, join, create, admit, welcome, send_control, go_online, on_peer, new_peer,
}
use ws_tunnel.Server.Plane.Peers.{is_done, is_draining}
use ws_tunnel.Server.Plane.Steps.{Reach, here, next, joins, new_server, InTime, IsWhole}

-- Every write succeeds, and every address can be bound.
abbrev pub writes : ℕ → Message → Bool
writes p m = true

abbrev pub binds : Str → Bool
binds a = true

abbrev no_channel : ℕ → DataChannel
no_channel p = record { id = 0; active = 0; closed = false; sess_closed = false }

abbrev pub nobody : ℕ → Peer
nobody p = record {
  name = [];
  cfg = sample_push;
  queue_timeout = 0;
  pool = new_session no_channel 1 no_stats;
  reason = [];
  sent = [];
}

abbrev pub sample_endpoints : Endpoints
sample_endpoints = record { ws = some (codes "a:9"); status = none; retired = [] }

abbrev pub sample_start : Server
sample_start = new_server sample sample_endpoints nobody

abbrev pub sample_session : SessionRef
sample_session = record { ptr = 1; name = codes "n"; id = codes "s1"; connected_at = 5 }

-- The node's client joins.
abbrev pub sample_joined : Server
sample_joined = (join writes no_channel 5 1 (codes "s1") sample_node sample_start).1

pub sample_reached : Reach writes binds sample_start sample_joined
unfolding new_server empty lookup
sample_reached = next here (joins no_channel 5 1 (codes "s1") sample_node (λ n sess g. cc))

pub sample_registered : get (codes "n") sample_joined.registry ≡ some sample_session
unfolding new_server empty lookup join create admit welcome send_control go_online on_peer new_peer
    register stats_of insert str_beq node_config ports_for itoa itoa_digits
sample_registered = refl

pub sample_cfg : sample_joined.cfg ≡ sample
unfolding new_server empty lookup join create admit welcome send_control go_online on_peer new_peer
    register stats_of insert str_beq node_config ports_for itoa itoa_digits
sample_cfg = refl

pub sample_awake : is_done sample_joined 1 ≡ false
unfolding new_server empty lookup join create admit welcome send_control go_online on_peer new_peer
    register stats_of insert str_beq node_config ports_for itoa itoa_digits new_session
sample_awake = refl

pub sample_open : is_draining sample_joined 1 ≡ false
unfolding new_server empty lookup join create admit welcome send_control go_online on_peer new_peer
    register stats_of insert str_beq node_config ports_for itoa itoa_digits new_session
sample_open = refl

pub sample_holds : holding sample_joined.listeners 7 ≡ some (codes "n")
unfolding new_server empty lookup join create admit welcome send_control go_online on_peer new_peer
    register stats_of insert str_beq node_config ports_for itoa itoa_digits new_session start_node
    start_ports start_port start_over open_port ports_of specs_of
sample_holds = refl

pub sample_cfg-IsValid : IsValid sample_joined.cfg
sample_cfg-IsValid = subst IsValid (sym sample_cfg) sample-IsValid

pub sample_reached-InTime : (n : Str) → InTime n sample_reached
unfolding sample_reached
sample_reached-InTime n = (tt, tt)

pub sample_reached-IsWhole : IsWhole sample_reached
unfolding sample_reached
sample_reached-IsWhole = (tt, tt)
