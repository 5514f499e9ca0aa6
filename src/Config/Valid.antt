-- ===== src/Config/Valid.antt =====
-- What every configuration that `Load` accepts satisfies.
pub mod Nodes
pub mod Ports
use ws_tunnel.Prelude.{
  ℕ, suc, ◌+◌, ◌≤◌, ◌<◌, ◌≡◌, ◌≢◌, refl, ◌⊎◌, inl, inr, Bool, true, false, ◌&&◌, ◌||◌, not, Option,
  none, some, List, [], ◌∷◌, ◌++◌, arith, if◌then◌else◌, Str, ◌==◌, str_eq, str_beq, str_beq_iff,
  nat_eq, nat_beq, nat_beq_iff, is_some, Bool-cases, Option-cases, ltb, leb, leb→le,
}
use ws_tunnel.Prelude.Int.{ℤ, pos, negsuc, at_least, to_ℕ}
use ws_tunnel.Prelude.Dict.{lookup, insert, lookup-insert}
use ws_tunnel.Prelude.Sets.{
  Unique, contains, keys, contains-append, Unique-append, contains-keys, keys-insert,
}
use ws_tunnel.Config.Text.{atoi}
use ws_tunnel.Config.{
  Config, Settings, NodeSpec, PortSpec, RawFile, RawNode, RawPort, RawSettings, NodesState,
  PortsState, Warning, add_node, node_channels, load_node, load_nodes, add_port, load_port,
  load_port_value, load_port_number, load_ports, load, load_listed, load_settings, max_streams,
  parse_duration, checked_duration, mapping_pairs, no_nodes, no_ports, valid_host_port, is_reserved,
  default_channels, warn_node, nodes_ignored, ports_ignored, default_heartbeat,
  default_dial_timeout, default_queue_timeout, bad_heartbeat, bad_dial_timeout, bad_queue_timeout,
  bad_channels, warn_port,
}
use ws_tunnel.Config.Valid.Nodes.{NodesOk, load_nodes-NodesOk}
use ws_tunnel.Config.Valid.Ports.{PortOk, PortsOk, load_ports-PortsOk}

pub record IsValid (c : Config) : Type 0 where
  pub has_listen : c.listen ≢ []
  pub heartbeat : 1 ≤ c.settings.heartbeat
  pub dial_timeout : 1 ≤ c.settings.dial_timeout
  pub queue_timeout : 1 ≤ c.settings.queue_timeout
  pub max_streams : 1 ≤ c.settings.max_streams_per_conn
  pub nodes :
      (name : Str) (spec : NodeSpec)
      → lookup name c.nodes ≡ some spec
      → (spec.name ≡ name) × (spec.key ≢ []) × (1 ≤ spec.channels)
  pub key_owner :
      (m n : Str) (s t : NodeSpec)
      → lookup m c.nodes ≡ some s
      → lookup n c.nodes ≡ some t
      → s.key ≡ t.key
      → m ≡ n
  pub node_order : keys c.nodes ≡ c.node_order
  pub node_once : Unique c.node_order
  pub ports :
      (p : ℕ) (spec : PortSpec)
      → lookup p c.ports ≡ some spec
      → PortOk (is_reserved c.listen c.status_listen) c.nodes p spec
  pub port_order : keys c.ports ≡ c.port_order
  pub port_once : Unique c.port_order

checked_positive :
    (o : Option ℤ) (def : ℕ) (w : Warning) → 1 ≤ def → 1 ≤ (checked_duration o def w).0
unfolding checked_duration
checked_positive none def w h = h
checked_positive (some (pos d)) def w h = ground arith
checked_positive (some (negsuc d)) def w h = h

duration_positive :
    (parse : Str → Option ℤ) (s : Str) (def : ℕ) (w : Warning)
    → 1 ≤ def
    → 1 ≤ (parse_duration parse s def w).0
unfolding parse_duration
duration_positive parse [] def w h = h
duration_positive parse (c ∷ s) def w h = checked_positive (parse (c ∷ s)) def w h

streams_positive : (m : ℤ) → 1 ≤ (max_streams m).0
unfolding max_streams
streams_positive (pos m) = ground arith
streams_positive (negsuc m) = ground arith

abbrev Positive : Settings → Type 0
Positive s =
    (1 ≤ s.heartbeat) × (1 ≤ s.dial_timeout) × (1 ≤ s.queue_timeout) × (1 ≤ s.max_streams_per_conn)

settings-Positive :
    (parse : Str → Option ℤ) (raw : RawSettings) → Positive (load_settings parse raw).0
unfolding load_settings
settings-Positive parse raw = (
  duration_positive parse raw.heartbeat default_heartbeat bad_heartbeat (omega arith),
  duration_positive parse raw.dial_timeout default_dial_timeout bad_dial_timeout (omega arith),
  duration_positive parse raw.queue_timeout default_queue_timeout bad_queue_timeout (omega arith),
  streams_positive raw.max_streams_per_conn,
)

assemble :
    (listen status_listen : Str) (settings : Settings) (ns : NodesState) (ps : PortsState)
    → listen ≢ []
    → Positive settings
    → NodesOk ns
    → PortsOk (is_reserved listen status_listen) ns.nodes ps
    → IsValid (record {
      listen = listen;
      status_listen = status_listen;
      settings = settings;
      nodes = ns.nodes;
      node_order = ns.order;
      ports = ps.ports;
      port_order = ps.order;
    })
assemble listen status_listen settings ns ps ne pos_settings nok pok = record {
  has_listen = ne;
  heartbeat = pos_settings.0;
  dial_timeout = pos_settings.1;
  queue_timeout = pos_settings.2;
  max_streams = pos_settings.3;
  nodes = λ n spec e. let o = nok.entries n spec e in (o.0, o.1, o.2);
  key_owner =
      λ m n s t e f same. ground (arith, (nok.entries m s e).3, (nok.entries n t f).3, same);
  node_order = nok.as_keys;
  node_once = nok.once;
  ports = pok.entries;
  port_order = pok.as_keys;
  port_once = pok.once;
}

no_nodes-NodesOk : (ws : List Warning) → NodesOk (no_nodes ws)
unfolding lookup
no_nodes-NodesOk ws = record { entries = λ n spec e. cc; once = tt; as_keys = refl }

no_ports-PortsOk :
    (reserved : ℕ → Bool) (nodes : List (Str × NodeSpec)) (ws : List Warning)
    → PortsOk reserved nodes (no_ports ws)
unfolding lookup
no_ports-PortsOk reserved nodes ws = record { entries = λ p spec e. cc; once = tt; as_keys = refl }

load_listed-IsValid :
    (parse : Str → Option ℤ) (raw : RawFile) → raw.listen ≢ [] → IsValid (load_listed parse raw).0
unfolding load_listed
load_listed-IsValid parse raw ne =
    let nok = load_nodes-NodesOk (mapping_pairs raw.nodes nodes_ignored).0 _ (no_nodes-NodesOk _) in
    assemble raw.listen raw.status_listen (load_settings parse raw.settings).0 _ _ ne
      (settings-Positive parse raw.settings) nok
      (load_ports-PortsOk _ _ (mapping_pairs raw.ports ports_ignored).0 _ (no_ports-PortsOk _ _ _))

-- Whatever the document, and whatever `time.ParseDuration` answers: a configuration that `Load`
-- accepts has a `listen` address and positive settings; each node has its own name, a key and at
-- least one channel, no two nodes have the same key, and `NodeOrder` lists the nodes, each once;
-- each port has its own number, in 1..65535 and not that of an endpoint, a node that exists and a
-- valid remote address, and `PortOrder` lists the ports, each once.
pub load-IsValid :
    (parse : Str → Option ℤ) (raw : RawFile) (c : Config) (ws : List Warning)
    → load parse raw ≡ some (c, ws)
    → IsValid c
unfolding load
load-IsValid parse raw c ws h = elim (Bool-cases (raw.listen == [])) [
  | inl e ↦ ground (arith, e, h)
  | inr e ↦
      let v = load_listed-IsValid parse raw (ground (arith, e, str_beq_iff raw.listen [])) in
      let q : (load_listed parse raw).0 ≡ c = ground (arith, e, h) in rw q at v
]
