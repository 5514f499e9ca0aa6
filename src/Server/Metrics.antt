-- ===== src/Server/Metrics.antt =====
-- internal/server/status.go: the text of /metrics. A line of the text is a value of `Line`; the
-- digits of a number and the escaped labels are written by `render_labels` and strconv.

pub mod Labels
pub mod Typed
use ws_tunnel.Prelude.{
  ℕ, Bool, true, false, ◌&&◌, Option, none, some, List, [], ◌∷◌, ◌++◌, nat_beq, if◌then◌else◌,
  length, map, Str, ◌==◌, str_eq, is_some,
}
use ws_tunnel.Prelude.Dict.{lookup, insert}
use ws_tunnel.Prelude.Sets.{sort, keys}
use ws_tunnel.Protocol.Header.{codes}
use ws_tunnel.Config.{Config, NodeSpec}
use ws_tunnel.Config.Text.{itoa}
use ws_tunnel.Config.Diff.{str_le}
use ws_tunnel.Server.Stats.{NodeStats, result}
use ws_tunnel.Server.Registry.{SessionRef, Registry, get, stats_of}
use ws_tunnel.Server.Listener.{PortStatus, snapshot}
use ws_tunnel.Server.Plane.{Peer, Server}
use ws_tunnel.Server.Status.{channels_needed}

-- A value that is formatted as an int64 or as a float64, which here is a whole number too.
pub data Value : Type 0 where
  integer float : ℕ → Value

-- A line for a declared family (two in the text), for a sample, and for an error.
pub data Line : Type 0 where
  declared : (name typ doc : Str) → Line
  sample : (name : Str) (labels : List (Str × Str)) (v : Value) → Line
  mistyped : (name : Str) (got : Option Str) (typ : Str) → Line

pub record MetricSet : Type 0 where
  pub lines : List Line
  pub types : List (Str × Str)

pub declare : Str → Str → Str → MetricSet → MetricSet
declare name typ doc m = record {
  lines = m.lines ++ (declared name typ doc ∷ []);
  types = insert name typ m.types;
}

line_of : Option Str → Str → Str → List (Str × Str) → Value → Line
line_of none typ name labels v = mistyped name none typ
line_of (some got) typ name labels v =
    if got == typ then sample name labels v else mistyped name (some got) typ

pub emit : Str → Str → List (Str × Str) → Value → MetricSet → MetricSet
unfolding line_of
emit typ name labels v m = record m {
  lines = m.lines ++ (line_of (lookup name m.types) typ name labels v ∷ []);
}

-- A call of `gauge`, `gaugeInt` or `counter`.
pub record Emission : Type 0 where
  pub typ : Str
  pub name : Str
  pub labels : List (Str × Str)
  pub value : Value

abbrev pub gauge : Str → List (Str × Str) → ℕ → Emission
gauge name labels v = record { typ = codes "gauge"; name = name; labels = labels; value = float v }

abbrev pub gauge_int : Str → List (Str × Str) → ℕ → Emission
gauge_int name labels v = record {
  typ = codes "gauge";
  name = name;
  labels = labels;
  value = integer v;
}

abbrev pub counter : Str → List (Str × Str) → ℕ → Emission
counter name labels v = record {
  typ = codes "counter";
  name = name;
  labels = labels;
  value = integer v;
}

pub emit_all : List Emission → MetricSet → MetricSet
unfolding emit
emit_all [] m = m
emit_all (e ∷ es) m = emit_all es (emit e.typ e.name e.labels e.value m)

-- The families that `handleMetrics` declares; the words of their help are left out.
pub families : List (Str × Str)
families =
    (codes "tunnel_node_up", codes "gauge")
    ∷ (codes "tunnel_channels", codes "gauge")
    ∷ (codes "tunnel_streams_active", codes "gauge")
    ∷ (codes "tunnel_streams_peak", codes "gauge")
    ∷ (codes "tunnel_channels_needed_peak", codes "gauge")
    ∷ (codes "tunnel_stream_open_total", codes "counter")
    ∷ (codes "tunnel_bytes_total", codes "counter")
    ∷ (codes "tunnel_node_saturated_total", codes "counter")
    ∷ (codes "tunnel_local_dial_errors_total", codes "counter")
    ∷ (codes "tunnel_port_listening", codes "gauge")
    ∷ (codes "tunnel_port_bind_errors_total", codes "counter")
    ∷ []

pub declare_all : List (Str × Str) → MetricSet → MetricSet
unfolding declare
declare_all [] m = m
declare_all ((name, typ) ∷ fs) m = declare_all fs (declare name typ [] m)

-- `streamResults`.
pub stream_results : List Str
stream_results =
    codes "ok" ∷ codes "timeout" ∷ codes "not_allowed" ∷ codes "dial_failed" ∷ codes "rejected" ∷ []

abbrev pub node_label : Str → Str × Str
node_label name = (codes "node", name)

pub result_metrics : Str → NodeStats → List Str → List Emission
result_metrics name st [] = []
result_metrics name st (r ∷ rs) =
    counter (codes "tunnel_stream_open_total") (node_label name ∷ (codes "result", r) ∷ [])
      (result r st)
    ∷ result_metrics name st rs

pub port_metrics : Str → List PortStatus → List Emission
port_metrics name [] = []
port_metrics name (p ∷ ps) =
    let labels = node_label name ∷ (codes "port", itoa p.port) ∷ [] in
    gauge (codes "tunnel_port_listening") labels (if p.listening then 1 else 0)
    ∷ counter (codes "tunnel_port_bind_errors_total") labels p.bind_errors
    ∷ port_metrics name ps

-- What a session tells: configured and online channels, active streams, and the limit of a channel.
pub record Reading : Type 0 where
  pub up : ℕ
  pub configured : ℕ
  pub online : ℕ
  pub active : ℕ
  pub max_streams : ℕ

abbrev channels_of : Option NodeSpec → ℕ
channels_of none = 0
channels_of (some spec) = spec.channels

pub reading : Server → Str → Option SessionRef → Reading
reading s name none = record {
  up = 0;
  configured = channels_of (lookup name s.cfg.nodes);
  online = 0;
  active = 0;
  max_streams = s.cfg.settings.max_streams_per_conn;
}
reading s name (some sess) =
    let x = s.peers sess.ptr in
    record {
      up = 1;
      configured = (x.cfg).channels;
      online = length (x.pool).channels;
      active = (x.pool).active_streams;
      max_streams = (x.cfg).max_streams_per_conn;
    }

-- The body of the loop over the nodes, and its part after the results.
pub total_metrics : Str → NodeStats → List PortStatus → List Emission
unfolding port_metrics
total_metrics name st ports =
    let l = node_label name ∷ [] in
    counter (codes "tunnel_bytes_total") (node_label name ∷ (codes "dir", codes "in") ∷ [])
      st.bytes_in
    ∷ counter (codes "tunnel_bytes_total") (node_label name ∷ (codes "dir", codes "out") ∷ [])
        st.bytes_out
    ∷ counter (codes "tunnel_node_saturated_total") l st.saturated
    ∷ counter (codes "tunnel_local_dial_errors_total") l st.local_dial_errors
    ∷ port_metrics name ports

pub node_metrics : Str → NodeStats → Reading → List PortStatus → List Emission
unfolding result_metrics total_metrics stream_results
node_metrics name st r ports =
    let l = node_label name ∷ [] in
    (gauge (codes "tunnel_node_up") l r.up
      ∷ gauge_int (codes "tunnel_channels")
          (node_label name ∷ (codes "state", codes "configured") ∷ []) r.configured
      ∷ gauge_int (codes "tunnel_channels") (node_label name ∷ (codes "state", codes "online") ∷ [])
          r.online
      ∷ gauge_int (codes "tunnel_streams_active") l r.active
      ∷ gauge_int (codes "tunnel_streams_peak") l st.peak
      ∷ gauge (codes "tunnel_channels_needed_peak") l (channels_needed st.peak r.max_streams)
      ∷ result_metrics name st stream_results)
    ++ total_metrics name st ports

pub nodes_metrics : List Str → Server → MetricSet → MetricSet
unfolding node_metrics reading emit_all
nodes_metrics [] s m = m
nodes_metrics (name ∷ names) s m =
    let (st, r) = stats_of name s.registry in
    let s' : Server = record s { registry = r } in
    let es =
      node_metrics name st (reading s' name (get name r)) (snapshot s'.cfg st name s'.listeners) in
    nodes_metrics names s' (emit_all es m)

-- `handleMetrics`.
pub handle_metrics : Server → MetricSet
unfolding nodes_metrics declare_all families
handle_metrics s =
    nodes_metrics (sort str_le s.cfg.node_order) s
      (declare_all families (record { lines = []; types = [] }))

-- `escapeLabel`: the backslash, the new line and the quote.
pub escape_label : Str → Str
escape_label [] = []
escape_label (b ∷ v) =
    let rest = escape_label v in
    if nat_beq b 92
    then 92 ∷ 92 ∷ rest
    else if nat_beq b 10
    then 92 ∷ 110 ∷ rest
    else if nat_beq b 34
    then 92 ∷ 34 ∷ rest
    else b ∷ rest

-- A part of `renderLabels`, and the parts with commas between them.
pub render_label : Str → Str → Str
unfolding escape_label
render_label k v = k ++ (61 ∷ 34 ∷ []) ++ escape_label v ++ (34 ∷ [])

abbrev value_of : Option Str → Str
value_of none = []
value_of (some v) = v

pub render_parts : List Str → List (Str × Str) → Str
unfolding render_label
render_parts [] labels = []
render_parts (k ∷ []) labels = render_label k (value_of (lookup k labels))
render_parts (k ∷ j ∷ ks) labels =
    render_label k (value_of (lookup k labels)) ++ (44 ∷ []) ++ render_parts (j ∷ ks) labels

-- `renderLabels`.
pub render_labels : List (Str × Str) → Str
unfolding render_parts
render_labels [] = []
render_labels (l ∷ labels) =
    (123 ∷ []) ++ render_parts (sort str_le (keys (l ∷ labels))) (l ∷ labels) ++ (125 ∷ [])
