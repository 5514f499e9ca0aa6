-- ===== src/Config/Pushed.antt =====
-- The configuration that is pushed to a node: `Config.NodeConfig`.
use ws_tunnel.Prelude.{
  ℕ, ◌^◌, ◌<◌, ◌≡◌, ◌≢◌, refl, inl, inr, true, Option, none, some, List, [], ◌∷◌, arith,
  if◌then◌else◌, Str, ◌==◌, str_eq, str_beq_iff, nat_eq, nat_beq, Bool-cases,
}
use ws_tunnel.Prelude.Dict.{lookup, insert, lookup-insert}
use ws_tunnel.Prelude.Sets.{Unique, contains, keys, contains-keys, insert-Unique}
use ws_tunnel.Config.Text.{itoa, itoa-injective}
use ws_tunnel.Config.{Config, NodeSpec, PortSpec, ports_for, node_config, valid_host_port}
use ws_tunnel.Config.Valid.{IsValid}
use ws_tunnel.Protocol.Message.{NodeConfig, NoEmptyRemote}

-- The remote address of a port, if it is the node's.
abbrev pub owned : Str → Option PortSpec → Option Str
owned node none = none
owned node (some s) = if s.node == node then some s.remote else none

abbrev or_else : Option Str → Option Str → Option Str
or_else none o = o
or_else (some r) o = some r

abbrev add_entry : Str → ℕ → Option PortSpec → List (Str × Str) → List (Str × Str)
add_entry node q none out = out
add_entry node q (some s) out = if s.node == node then insert (itoa q) s.remote out else out

ports_for-cons :
    (node : Str) (ports : List (ℕ × PortSpec)) (q : ℕ) (qs : List ℕ) (out : List (Str × Str))
    → ports_for node ports (q ∷ qs) out
      ≡ ports_for node ports qs (add_entry node q (lookup q ports) out)
unfolding ports_for
ports_for-cons node ports q qs out = ground arith

lookup-add_entry :
    (node : Str) (p q : ℕ) (o : Option PortSpec) (out : List (Str × Str))
    → p < 2 ^ 63
    → ((s : PortSpec) → o ≡ some s → q < 2 ^ 63)
    → lookup (itoa p) (add_entry node q o out)
      ≡ (if nat_beq q p then or_else (owned node o) (lookup (itoa p) out) else lookup (itoa p) out)
lookup-add_entry node p q none out hp hq = ground arith
lookup-add_entry node p q (some s) out hp hq = ground (
  arith,
  lookup-insert (itoa q) (itoa p) s.remote out,
  str_beq_iff (itoa q) (itoa p),
  itoa-injective q p (hq s refl) hp,
)

-- Every port of the map is small enough for an `int`.
abbrev Small : List (ℕ × PortSpec) → Type 0
Small ports = (q : ℕ) (s : PortSpec) → lookup q ports ≡ some s → q < 2 ^ 63

lookup-ports_for :
    (node : Str) (ports : List (ℕ × PortSpec)) (p : ℕ) (qs : List ℕ) (out : List (Str × Str))
    → p < 2 ^ 63
    → Small ports
    → lookup (itoa p) (ports_for node ports qs out)
      ≡ or_else (if contains p qs then owned node (lookup p ports) else none) (lookup (itoa p) out)
lookup-ports_for node ports p [] out hp small = unfold ports_for in refl
lookup-ports_for node ports p (q ∷ qs) out hp small =
    let ih = lookup-ports_for node ports p qs (add_entry node q (lookup q ports) out) hp small in
    let step = lookup-add_entry node p q (lookup q ports) out hp (small q) in
    rw (ports_for-cons node ports q qs out) (ground (arith, ih, step))

-- What `NodeConfig` pushes, as a map from port numbers.
abbrev pub allowed : NodeConfig → ℕ → Option Str
allowed n p = lookup (itoa p) n.ports

valid-Small : (c : Config) → IsValid c → Small c.ports
valid-Small c v q s e = omega (arith, (v.ports q s e).2)

ports_for-allowed :
    (c : Config) (node : Str) (p : ℕ)
    → IsValid c
    → p < 2 ^ 63
    → lookup (itoa p) (ports_for node c.ports c.port_order []) ≡ owned node (lookup p c.ports)
unfolding lookup
ports_for-allowed c node p v hp =
    let l = lookup-ports_for node c.ports p c.port_order [] hp (valid-Small c v) in
    ground (arith, l, v.port_order, contains-keys p c.ports)

-- Of a valid configuration, what is pushed to a configured node carries the node's channels
-- and the settings' heartbeat, dial timeout and streams per connection, and its port list is exactly the allow-list: a port (any number below 2^63) is
-- mapped to a remote address if and only if the configuration gives the port to that node with
-- that address.
pub node_config-allowed :
    (c : Config) (node : Str) (spec : NodeSpec) (p : ℕ)
    → IsValid c
    → lookup node c.nodes ≡ some spec
    → p < 2 ^ 63
    → (n : NodeConfig) × (node_config c node ≡ some n)
      × (n.channels ≡ spec.channels)
      × (n.heartbeat ≡ c.settings.heartbeat)
      × (n.dial_timeout ≡ c.settings.dial_timeout)
      × (n.max_streams_per_conn ≡ c.settings.max_streams_per_conn)
      × (allowed n p ≡ owned node (lookup p c.ports))
unfolding node_config
node_config-allowed c node spec p v l hp =
    let n : NodeConfig = record {
      ports = ports_for node c.ports c.port_order [];
      channels = spec.channels;
      heartbeat = c.settings.heartbeat;
      dial_timeout = c.settings.dial_timeout;
      max_streams_per_conn = c.settings.max_streams_per_conn;
    } in
    (n, rw (l, node_config), refl, refl, refl, refl, ports_for-allowed c node p v hp)

-- A node that is not configured gets none.
pub node_config_unknown :
    (c : Config) (node : Str) → lookup node c.nodes ≡ none → node_config c node ≡ none
unfolding node_config
node_config_unknown c node l = rw (l, node_config)

-- The pushed ports are a map.
pub ports_for-Unique :
    (node : Str) (ports : List (ℕ × PortSpec)) (qs : List ℕ) (out : List (Str × Str))
    → Unique (keys out)
    → Unique (keys (ports_for node ports qs out))
ports_for-Unique node ports [] out u = unfold ports_for in u
ports_for-Unique node ports (q ∷ qs) out u =
    rw (ports_for-cons node ports q qs out)
      (ports_for-Unique node ports qs _ (add_entry-Unique (lookup q ports)))
  where
    add_entry-Unique : (o : Option PortSpec) → Unique (keys (add_entry node q o out))
    add_entry-Unique none = u
    add_entry-Unique (some s) = elim (Bool-cases (s.node == node)) [
      | inl h ↦ rw h (insert-Unique (itoa q) s.remote out u)
      | inr h ↦ rw h u
    ]

-- Every pushed entry has a remote address that is not empty.
abbrev Filled : List (Str × Str) → Type 0
Filled m = NoEmptyRemote m

add_entry-Filled :
    (node : Str) (q : ℕ) (o : Option PortSpec) (out : List (Str × Str))
    → ((s : PortSpec) → o ≡ some s → s.remote ≢ [])
    → Filled out
    → Filled (add_entry node q o out)
add_entry-Filled node q none out h f k e = f k e
add_entry-Filled node q (some s) out h f k e =
    ground (arith, h s, f k, e, lookup-insert (itoa q) k s.remote out)

pub ports_for-Filled :
    (node : Str) (ports : List (ℕ × PortSpec)) (qs : List ℕ) (out : List (Str × Str))
    → ((q : ℕ) (s : PortSpec) → lookup q ports ≡ some s → s.remote ≢ [])
    → NoEmptyRemote out
    → NoEmptyRemote (ports_for node ports qs out)
ports_for-Filled node ports [] out h f = unfold ports_for in f
ports_for-Filled node ports (q ∷ qs) out h f =
    rw (ports_for-cons node ports q qs out)
      (ports_for-Filled node ports qs _ h (add_entry-Filled node q (lookup q ports) out (h q) f))

pub valid_remote : (r : Str) → valid_host_port r ≡ true → r ≢ []
unfolding valid_host_port
valid_remote [] e = cc
valid_remote (b ∷ r) e = λ z. cc
