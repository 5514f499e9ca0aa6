-- ===== src/Server/Status.antt =====
-- internal/server/status.go: the document of /status. Times of last contact, the round-trip time
-- and the rates are left out, and so is the encoding as JSON.
pub mod Nodes
pub mod Examples
use ws_tunnel.Prelude.{
  ℕ, ◌+◌, ◌-◌, ◌*◌, ◌/◌, Bool, true, false, ◌||◌, ◌&&◌, not, Option, none, some, List, [], ◌∷◌,
  ◌++◌, nat_beq, if◌then◌else◌, length, Str, ◌==◌, str_eq,
}
use ws_tunnel.Prelude.Dict.{lookup}
use ws_tunnel.Prelude.Sets.{sort}
use ws_tunnel.Config.{Config}
use ws_tunnel.Config.Diff.{str_le}
use ws_tunnel.Server.Stats.{NodeStats}
use ws_tunnel.Server.Registry.{SessionRef, Registry, get, stats_of}
use ws_tunnel.Server.Listener.{PortStatus, snapshot}
use ws_tunnel.Server.Plane.{Peer, Server}

-- `channelStatus`, `streamStatus` and `capacityStatus`.
pub record LiveStatus : Type 0 where
  pub configured : ℕ
  pub online : ℕ
  pub active : ℕ
  pub opened_total : ℕ
  pub queue_depth : ℕ
  pub max_streams_per_conn : ℕ
  pub max_concurrent : ℕ
  pub peak_demand : ℕ
  pub channels_needed_at_peak : ℕ
  pub saturated_total : ℕ

-- `nodeStatus`; `live` is what only a node with a session has.
pub record NodeStatus : Type 0 where
  pub node : Str
  pub up : Bool
  pub connected_at : Option ℕ
  pub disconnected_at : Option ℕ
  pub bytes_in : ℕ
  pub bytes_out : ℕ
  pub ports : List PortStatus
  pub last_error : Option Str
  pub live : Option LiveStatus

pub record StatusDoc : Type 0 where
  pub nodes : List NodeStatus
  pub offline_nodes : List NodeStatus

-- `math.Ceil` of a quotient, as exact as floating point is below 2^53; 0 for a limit of 0.
pub channels_needed : ℕ → ℕ → ℕ
channels_needed peak max = if nat_beq max 0 then 0 else (peak + (max - 1)) / max

abbrev last_error_of : Str → Option Str
last_error_of [] = none
last_error_of (b ∷ e) = some (b ∷ e)

-- What `buildStatus` says of every node.
pub base_status : Config → Str → NodeStats → List PortStatus → NodeStatus
base_status c name st ports = record {
  node = name;
  up = false;
  connected_at = st.connected_at;
  disconnected_at = st.disconnected_at;
  bytes_in = st.bytes_in;
  bytes_out = st.bytes_out;
  ports = ports;
  last_error = last_error_of st.last_error;
  live = none;
}

-- What it adds for a session.
pub live_status : NodeStats → Peer → LiveStatus
unfolding channels_needed
live_status st x =
    let max = (x.cfg).max_streams_per_conn in
    record {
      configured = (x.cfg).channels;
      online = length (x.pool).channels;
      active = (x.pool).active_streams;
      opened_total = st.opened;
      queue_depth = (x.pool).queue_depth;
      max_streams_per_conn = max;
      max_concurrent = (x.cfg).channels * max;
      peak_demand = st.peak;
      channels_needed_at_peak = channels_needed st.peak max;
      saturated_total = st.saturated;
    }

-- The body of the loop of `buildStatus`; `Stats` may make an entry in the registry.
pub add_status : Server → Str → NodeStats → Option SessionRef → StatusDoc → StatusDoc
unfolding base_status live_status
add_status s name st o doc =
    let base = base_status s.cfg name st (snapshot s.cfg st name s.listeners) in
    elim o [
      | none ↦ record doc { offline_nodes = doc.offline_nodes ++ (base ∷ []) }
      | some sess ↦ record doc {
        nodes =
            doc.nodes
            ++ (record base { up = true; live = some (live_status st (s.peers sess.ptr)) } ∷ []);
      }
    ]

pub statuses : Str → List Str → Server → StatusDoc → StatusDoc × Server
unfolding add_status
statuses filter [] s doc = (doc, s)
statuses filter (name ∷ names) s doc =
    let (st, r) = stats_of name s.registry in
    let s' : Server = record s { registry = r } in
    if not (filter == []) && not (filter == name)
    then statuses filter names s doc
    else statuses filter names s' (add_status s' name st (get name r) doc)

-- `buildStatus`.
pub build_status : Str → Server → StatusDoc × Server
unfolding statuses
build_status filter s =
    statuses filter (sort str_le s.cfg.node_order) s (record { nodes = []; offline_nodes = [] })
