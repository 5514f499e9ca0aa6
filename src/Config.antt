-- ===== src/Config.antt =====
-- internal/config/config.go: loading and looking up the server's configuration. The YAML library
-- is not modelled: a document is what it decodes to. `time.ParseDuration` is a parameter.
pub mod Text
pub mod Valid
pub mod Lookup
pub mod Pushed
pub mod Diff
pub mod Sample
pub mod Examples
use Prim.Native.Char.{code}
use ws_tunnel.Prelude.{
  ℕ, suc, ◌+◌, ◌*◌, Bool, true, false, ◌&&◌, ◌||◌, not, Option, none, some, List, [], ◌∷◌, ◌++◌,
  nat_beq, ltb, leb, if◌then◌else◌, Str, ◌==◌, str_eq, nat_eq, is_some,
}
use ws_tunnel.Prelude.Int.{ℤ, pos, negsuc, at_least, to_ℕ}
use ws_tunnel.Prelude.Dict.{lookup, insert}
use ws_tunnel.Prelude.Sets.{keys, sort}
use ws_tunnel.Config.Text.{atoi, itoa, split_host_port}
use ws_tunnel.Protocol.Message.{NodeConfig}

-- Nanoseconds.
abbrev pub second : ℕ
second = 1000000000

abbrev pub default_heartbeat : ℕ
default_heartbeat = 15 * second

abbrev pub default_dial_timeout : ℕ
default_dial_timeout = 10 * second

abbrev pub default_queue_timeout : ℕ
default_queue_timeout = 5 * second

abbrev pub default_max_streams_per_conn : ℕ
default_max_streams_per_conn = 256

abbrev pub default_channels : ℕ
default_channels = 4

pub record Settings : Type 0 where
  pub heartbeat : ℕ
  pub dial_timeout : ℕ
  pub queue_timeout : ℕ
  pub max_streams_per_conn : ℕ

pub record NodeSpec : Type 0 where
  pub name : Str
  pub key : Str
  pub channels : ℕ

pub record PortSpec : Type 0 where
  pub port : ℕ
  pub node : Str
  pub remote : Str

-- `Path` is left out.
pub record Config : Type 0 where
  pub listen : Str
  pub status_listen : Str
  pub settings : Settings
  pub nodes : List (Str × NodeSpec)
  pub node_order : List Str
  pub ports : List (ℕ × PortSpec)
  pub port_order : List ℕ

pub record RawSettings : Type 0 where
  pub heartbeat : Str
  pub dial_timeout : Str
  pub queue_timeout : Str
  pub max_streams_per_conn : ℤ

pub record RawNode : Type 0 where
  pub key : Str
  pub channels : Option ℤ

pub record RawPort : Type 0 where
  pub node : Str
  pub remote : Str

-- A YAML node where a mapping is expected: nothing, the pairs of a mapping in document order with
-- what `Decode` makes of each value (`none` is an error), or something else.
pub data Section (A : Type 0) : Type 0 where
  missing : Section A
  mapping : List (Str × Option A) → Section A
  other_kind : Section A

pub record RawFile : Type 0 where
  pub listen : Str
  pub status_listen : Str
  pub settings : RawSettings
  pub nodes : Section RawNode
  pub ports : Section RawPort

-- The warnings of `Load`, by the entry that they are about.
pub data Warning : Type 0 where
  bad_heartbeat bad_dial_timeout bad_queue_timeout bad_max_streams : Warning
  nodes_ignored ports_ignored : Warning
  node_undecodable duplicate_node key_required key_in_use bad_channels : Str → Warning
  not_a_port port_out_of_range port_reserved duplicate_port port_undecodable : Str → Warning
  unknown_node bad_remote : Str → Warning

-- `mappingPairs`.
pub mapping_pairs : {A : Type 0} → Section A → Warning → List (Str × Option A) × List Warning
mapping_pairs missing w = ([], [])
mapping_pairs (mapping kvs) w = (kvs, [])
mapping_pairs other_kind w = ([], w ∷ [])

-- `parseDuration` after `time.ParseDuration` has answered; a duration of 0 or less is refused.
pub checked_duration : Option ℤ → ℕ → Warning → ℕ × List Warning
checked_duration none def w = (def, w ∷ [])
checked_duration (some d) def w = if at_least 1 d then (to_ℕ d, []) else (def, w ∷ [])

module _ (parse : Str → Option ℤ) where
  pub parse_duration : Str → ℕ → Warning → ℕ × List Warning
  parse_duration [] def w = (def, [])
  parse_duration (c ∷ s) def w = checked_duration (parse (c ∷ s)) def w

in_port_range : ℤ → Bool
in_port_range p = at_least 1 p && not (at_least 65536 p)

port_part : Str → Bool
unfolding in_port_range
port_part port = elim (atoi port) [ none ↦ false | some p ↦ in_port_range p ]

remote_parts : Option (Str × Str) → Bool
unfolding port_part
remote_parts none = false
remote_parts (some ([], port)) = false
remote_parts (some (c ∷ h, port)) = port_part port

-- `validateHostPort`: whether it answers no error.
pub valid_host_port : Str → Bool
unfolding remote_parts
valid_host_port [] = false
valid_host_port (c ∷ s) = remote_parts (split_host_port (c ∷ s))

-- `portOf`.
pub port_of : Str → Option ℤ
port_of [] = none
port_of (c ∷ s) = elim (split_host_port (c ∷ s)) [ none ↦ none | some (host, port) ↦ atoi port ]

is_pos : ℕ → Option ℤ → Bool
is_pos p none = false
is_pos p (some (negsuc q)) = false
is_pos p (some (pos q)) = nat_beq q p

-- The ports of the two endpoints, which no reverse port may use.
pub is_reserved : Str → Str → ℕ → Bool
unfolding is_pos
is_reserved listen status_listen p = is_pos p (port_of listen) || is_pos p (port_of status_listen)

-- What the loop over `nodes` builds up; `owner` is `keyOwner`.
pub record NodesState : Type 0 where
  pub nodes : List (Str × NodeSpec)
  pub order : List Str
  pub owner : List (Str × Str)
  pub warnings : List Warning

abbrev warn_node : Warning → NodesState → NodesState
warn_node w s = record s { warnings = s.warnings ++ (w ∷ []) }

add_node : Str → Str → ℕ → NodesState → NodesState
add_node name key channels s = record s {
  nodes = insert name (record { name = name; key = key; channels = channels }) s.nodes;
  order = s.order ++ (name ∷ []);
  owner = insert key name s.owner;
}

-- The count of channels: the default, or at least 1.
node_channels : Str → Str → Option ℤ → NodesState → NodesState
unfolding add_node
node_channels name key none s = add_node name key default_channels s
node_channels name key (some c) s =
    if at_least 1 c
    then add_node name key (to_ℕ c) s
    else add_node name key default_channels (warn_node (bad_channels name) s)

-- The body of the loop over `nodes`.
load_node : Str × Option RawNode → NodesState → NodesState
unfolding node_channels
load_node (name, none) s = warn_node (node_undecodable name) s
load_node (name, some rn) s =
    if is_some (lookup name s.nodes)
    then warn_node (duplicate_node name) s
    else if rn.key == []
    then warn_node (key_required name) s
    else if is_some (lookup rn.key s.owner)
    then warn_node (key_in_use name) s
    else node_channels name rn.key rn.channels s

pub load_nodes : List (Str × Option RawNode) → NodesState → NodesState
load_nodes [] s = s
load_nodes (kv ∷ kvs) s = load_nodes kvs (load_node kv s)

-- What the loop over `ports` builds up.
pub record PortsState : Type 0 where
  pub ports : List (ℕ × PortSpec)
  pub order : List ℕ
  pub warnings : List Warning

abbrev warn_port : Warning → PortsState → PortsState
warn_port w s = record s { warnings = s.warnings ++ (w ∷ []) }

add_port : ℕ → RawPort → PortsState → PortsState
add_port p rp s = record s {
  ports = insert p (record { port = p; node = rp.node; remote = rp.remote }) s.ports;
  order = s.order ++ (p ∷ []);
}

module _ (reserved : ℕ → Bool) (nodes : List (Str × NodeSpec)) where
  -- The tests on the decoded value.
  load_port_value : Str → ℕ → Option RawPort → PortsState → PortsState
  unfolding add_port
  load_port_value k p none s = warn_port (port_undecodable k) s
  load_port_value k p (some rp) s =
      if not (is_some (lookup rp.node nodes))
      then warn_port (unknown_node k) s
      else if not (valid_host_port rp.remote)
      then warn_port (bad_remote k) s
      else add_port p rp s

  -- The tests on the number.
  load_port_number : Str → ℤ → Option RawPort → PortsState → PortsState
  unfolding load_port_value
  load_port_number k (negsuc q) v s = warn_port (port_out_of_range k) s
  load_port_number k (pos p) v s =
      if ltb p 1 || ltb 65535 p
      then warn_port (port_out_of_range k) s
      else if reserved p
      then warn_port (port_reserved k) s
      else if is_some (lookup p s.ports)
      then warn_port (duplicate_port k) s
      else load_port_value k p v s

  -- The body of the loop over `ports`.
  load_port : Str × Option RawPort → PortsState → PortsState
  unfolding load_port_number
  load_port (k, v) s = elim (atoi k) [
    | none ↦ warn_port (not_a_port k) s
    | some p ↦ load_port_number k p v s
  ]

  pub load_ports : List (Str × Option RawPort) → PortsState → PortsState
  load_ports [] s = s
  load_ports (kv ∷ kvs) s = load_ports kvs (load_port kv s)

abbrev no_nodes : List Warning → NodesState
no_nodes ws = record { nodes = []; order = []; owner = []; warnings = ws }

abbrev no_ports : List Warning → PortsState
no_ports ws = record { ports = []; order = []; warnings = ws }

-- `settings.max_streams_per_conn`: 0 stands for a missing value.
max_streams : ℤ → ℕ × List Warning
max_streams m =
    if at_least 1 m
    then (to_ℕ m, [])
    else if is_pos 0 (some m)
    then (default_max_streams_per_conn, [])
    else (default_max_streams_per_conn, bad_max_streams ∷ [])

module _ (parse : Str → Option ℤ) where
  load_settings : RawSettings → Settings × List Warning
  unfolding max_streams parse_duration
  load_settings raw =
      let (h, hw) = parse_duration parse raw.heartbeat default_heartbeat bad_heartbeat in
      let (d, dw) = parse_duration parse raw.dial_timeout default_dial_timeout bad_dial_timeout in
      let (q, qw) =
        parse_duration parse raw.queue_timeout default_queue_timeout bad_queue_timeout in
      let (m, mw) = max_streams raw.max_streams_per_conn in
      (
        record { heartbeat = h; dial_timeout = d; queue_timeout = q; max_streams_per_conn = m },
        hw ++ (dw ++ (qw ++ mw)),
      )

  load_listed : RawFile → Config × List Warning
  unfolding load_settings
  load_listed raw =
      let (settings, ws) = load_settings raw.settings in
      let (node_kvs, nws) = mapping_pairs raw.nodes nodes_ignored in
      let ns = load_nodes node_kvs (no_nodes (ws ++ nws)) in
      let (port_kvs, pws) = mapping_pairs raw.ports ports_ignored in
      let ps =
        load_ports (is_reserved raw.listen raw.status_listen) ns.nodes port_kvs
          (no_ports (ns.warnings ++ pws)) in
      (
        record {
          listen = raw.listen;
          status_listen = raw.status_listen;
          settings = settings;
          nodes = ns.nodes;
          node_order = ns.order;
          ports = ps.ports;
          port_order = ps.order;
        },
        ps.warnings,
      )

  -- `Load` of a file that was read and decoded; `none` is the error that `listen` is required.
  pub load : RawFile → Option (Config × List Warning)
  load raw = if raw.listen == [] then none else some (load_listed raw)

-- `NodeConfig`: the entries of the ports map.
unfoldable pub ports_for : Str → List (ℕ × PortSpec) → List ℕ → List (Str × Str) → List (Str × Str)
ports_for node ports [] out = out
ports_for node ports (p ∷ ps) out = ports_for node ports ps (elim (lookup p ports) [
  | none ↦ out
  | some s ↦ if s.node == node then insert (itoa p) s.remote out else out
])

unfoldable pub node_config : Config → Str → Option NodeConfig
node_config c node = elim (lookup node c.nodes) [
  | none ↦ none
  | some spec ↦ some (record {
    ports = ports_for node c.ports c.port_order [];
    channels = spec.channels;
    heartbeat = c.settings.heartbeat;
    dial_timeout = c.settings.dial_timeout;
    max_streams_per_conn = c.settings.max_streams_per_conn;
  })
]

unfoldable pub specs_of : Str → List (ℕ × PortSpec) → List ℕ → List PortSpec
specs_of node ports [] = []
specs_of node ports (p ∷ ps) =
    let rest = specs_of node ports ps in
    elim (lookup p ports) [ none ↦ rest | some s ↦ if s.node == node then s ∷ rest else rest ]

-- `PortsOf`.
unfoldable pub ports_of : Config → Str → List PortSpec
unfolding specs_of
ports_of c node = specs_of node c.ports c.port_order

-- One round of the loop of `NodeByKey`, which goes on after a match and keeps the first.
try_key : Str → Option NodeSpec → Option NodeSpec → Option NodeSpec
try_key key none found = found
try_key key (some n) none = if n.key == key then some n else none
try_key key (some n) (some m) = some m

match_key : Str → List (Str × NodeSpec) → List Str → Option NodeSpec → Option NodeSpec
match_key key nodes [] found = found
match_key key nodes (name ∷ names) found =
    match_key key nodes names (try_key key (lookup name nodes) found)

-- `NodeByKey`.
pub node_by_key : Config → Str → Option NodeSpec
node_by_key c [] = none
node_by_key c (b ∷ key) = match_key (b ∷ key) c.nodes c.node_order none

-- `SortedPorts`.
pub sorted_ports : Config → List ℕ
sorted_ports c = sort leb (keys c.ports)
